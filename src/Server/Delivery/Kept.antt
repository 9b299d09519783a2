-- ===== src/Server/Delivery/Kept.antt =====
-- What an operation on one exchange leaves alone in the stores.
use x402b.Prelude.{
  String, Dict, get, put, remove, get-put, get-remove, ◌==◌, string_eq, ◌≡◌, ◌≢◌, ◌∙◌, refl,
  beq-false_of_ne, false,
}
use x402b.Effects.{Eff}
use x402b.Server.State.{
  FulfillmentRecoveryEntry, ServerState, outside, set_recovery, delete_recovery,
}

-- The option store, and the recovery entries of the other exchanges.
pub record Kept {W : Type 0} (exchange_id : String) (s s' : ServerState W) : Type 0 where
  pub options : s'.options ≡ s.options
  pub others : (j : String) → exchange_id ≢ j → get s'.recovery j ≡ get s.recovery j

pub get-put_other {ℓ} :
    {V : Type ℓ} (m : Dict V) (k j : String) (v : V) → k ≢ j → get (put m k v) j ≡ get m j
get-put_other m k j v h =
    let p : (k == j) ≡ false = beq-false_of_ne k j h in rw (get-put m k j v, p) refl

pub get-remove_other {ℓ} :
    {V : Type ℓ} (m : Dict V) (k j : String) → k ≢ j → get (remove m k) j ≡ get m j
get-remove_other m k j h =
    let p : (k == j) ≡ false = beq-false_of_ne k j h in rw (get-remove m k j, p) refl

module _ {W : Type 0} (exchange_id : String) where
  pub Kept-trans :
      (a b c : ServerState W) → Kept exchange_id a b → Kept exchange_id b c → Kept exchange_id a c
  Kept-trans a b c p q = record {
    options = q.options ∙ p.options;
    others = λ j h. q.others j h ∙ p.others j h;
  }

  pub set_recovery-Kept :
      (s : ServerState W) (entry : FulfillmentRecoveryEntry)
      → Kept exchange_id s (set_recovery exchange_id entry s)
  unfolding set_recovery
  set_recovery-Kept s entry = record {
    options = refl;
    others = λ j h. get-put_other s.recovery exchange_id j entry h;
  }

  pub delete_recovery-Kept :
      (s : ServerState W) → Kept exchange_id s (delete_recovery exchange_id s)
  unfolding delete_recovery
  delete_recovery-Kept s = record {
    options = refl;
    others = λ j h. get-remove_other s.recovery exchange_id j h;
  }

  pub outside-Kept :
      {A : Type 0} (m : Eff W A) (s : ServerState W) → Kept exchange_id s (outside m s).1
  unfolding outside
  outside-Kept m s = record { options = refl; others = λ j h. refl }
