-- ===== src/Server/Recovery/Replayable.antt =====
-- A delivery that a handler left owed, and its replay by the host.
use mathlib.Core.Path.{subst}
use x402b.Prelude.{
  ℕ, String, Option, none, some, is_some, true, List, Dict, get, find?, ◌==◌, string_eq, ◌≡◌, refl,
  ap, ◌∙◌, ◌⊎◌, inl, inr,
}
use x402b.Effects.{Eff, returned}
use x402b.Server.State.{
  FulfillmentResult, RedeemFulfillmentChannel, Phase, FulfillmentRecoveryEntry, ServerState,
  outside, WarningCode,
}
use x402b.Server.Delivery.{hand_over, Delivered}
use x402b.Server.Delivery.Owed.{Done, Owed, hand_over_lem}
use x402b.Server.Recovery.{
  ok, after_step, replay_delivery, replay_phase, replay_with, replay_entry, replay,
}
use x402b.Server.Recovery.Replay.{EntryAfter, replay_lem}

-- The calls of the channel on the exchange return in a world.
pub record Works {W : Type 0} (channel : RedeemFulfillmentChannel W) (exchange_id : String)
    (entry : FulfillmentRecoveryEntry) (w : W) : Type 0 where
  pub commits : (channel.on_commit exchange_id entry.data_ w).0 ≡ returned tt
  pub fulfils :
      (on_fulfill : String → Eff W FulfillmentResult)
      → channel.on_fulfill ≡ some on_fulfill
      → (result : FulfillmentResult) × ((on_fulfill exchange_id w).0 ≡ returned result)

module _ {W : Type 0} (channels : List (RedeemFulfillmentChannel W)) (exchange_id : String)
    (channel : RedeemFulfillmentChannel W) where
  replay_delivery-ok :
      (on_fulfill : Option (String → Eff W FulfillmentResult)) (entry : FulfillmentRecoveryEntry)
      (s : ServerState W)
      → Works channel exchange_id entry s.outside
      → channel.on_fulfill ≡ on_fulfill
      → is_some on_fulfill ≡ true
      → (replay_delivery channels exchange_id on_fulfill entry s).0 ≡ ok
  unfolding replay_delivery after_step outside
  replay_delivery-ok none entry s works same p = cc
  replay_delivery-ok (some f) entry s works same p = rw ((works.fulfils f same).1) refl

  replay_phase-ok :
      (phase : Phase) (entry : FulfillmentRecoveryEntry) (s : ServerState W)
      → Works channel exchange_id entry s.outside
      → (phase ≡ Phase.commit) ⊎ (is_some channel.on_fulfill ≡ true)
      → (replay_phase channels exchange_id channel phase entry s).0 ≡ ok
  unfolding replay_phase after_step outside
  replay_phase-ok Phase.commit entry s works c = rw (works.commits) refl
  replay_phase-ok Phase.delivery entry s works (inl p) = cc
  replay_phase-ok Phase.delivery entry s works (inr p) =
      replay_delivery-ok channel.on_fulfill entry s works refl p

  replay-ok :
      (entry : FulfillmentRecoveryEntry) (s : ServerState W)
      → get s.recovery exchange_id ≡ some entry
      → find? (λ c. c.id == entry.option) channels ≡ some channel
      → Works channel exchange_id entry s.outside
      → (entry.phase ≡ Phase.commit) ⊎ (is_some channel.on_fulfill ≡ true)
      → (replay channels exchange_id s).0 ≡ ok
  unfolding replay replay_entry replay_with
  replay-ok entry s p q works c = rw (p, q) (replay_phase-ok entry.phase entry s works c)

  -- The entry is replayed with success, and is gone.
  abbrev pub IsReplayed : ServerState W → Type 0
  IsReplayed s =
      ((replay channels exchange_id s).0 ≡ ok)
      × (get (replay channels exchange_id s).1.recovery exchange_id ≡ none)

  replay-IsReplayed :
      (entry : FulfillmentRecoveryEntry) (s : ServerState W)
      → get s.recovery exchange_id ≡ some entry
      → find? (λ c. c.id == entry.option) channels ≡ some channel
      → Works channel exchange_id entry s.outside
      → (entry.phase ≡ Phase.commit) ⊎ (is_some channel.on_fulfill ≡ true)
      → IsReplayed s
  replay-IsReplayed entry s p q works c =
      let succeeds = replay-ok entry s p q works c in
      let (kept, left) = (replay_lem channels exchange_id s).1 entry p in
      (
        succeeds,
        subst (λ r. EntryAfter exchange_id entry r (replay channels exchange_id s).1) succeeds left,
      )

  Owed-IsReplayed :
      (pending : FulfillmentRecoveryEntry) (phase : Phase) (reason : WarningCode) (d : Delivered)
      (recovery : Dict FulfillmentRecoveryEntry) (t : ServerState W)
      → find? (λ c. c.id == pending.option) channels ≡ some channel
      → get t.recovery exchange_id ≡ get recovery exchange_id
      → Works channel exchange_id pending t.outside
      → (phase ≡ Phase.commit) ⊎ (is_some channel.on_fulfill ≡ true)
      → Owed exchange_id pending phase reason d recovery
      → IsReplayed t
  Owed-IsReplayed pending phase reason d recovery t q same works c o =
      replay-IsReplayed o.entry t (same ∙ o.recorded) (rw (o.option) q)
        (record {
          commits = ap (λ x. (channel.on_commit exchange_id x t.outside).0) o.data_ ∙ works.commits;
          fulfils = works.fulfils;
        })
        (rw (o.is_phase) c)

  -- A hand-over to a registered channel either leaves nothing owed, or leaves an entry such that, in
  -- every later state that has it and in which the channel's calls on the exchange return, its replay
  -- succeeds and removes it.
  pub hand_over-IsReplayed :
      (now : W → ℕ) (base64 : List ℕ → String) (code : WarningCode)
      (pending : FulfillmentRecoveryEntry) (s t : ServerState W)
      → pending.phase ≡ Phase.commit
      → find? (λ c. c.id == pending.option) channels ≡ some channel
      → get t.recovery exchange_id
        ≡ get (hand_over now base64 channel exchange_id code pending s).1.recovery exchange_id
      → Works channel exchange_id pending t.outside
      → Done exchange_id channel
          (hand_over now base64 channel exchange_id code pending s).0
          (hand_over now base64 channel exchange_id code pending s).1.recovery
        ⊎ IsReplayed t
  hand_over-IsReplayed now base64 code pending s t p q same works =
      elim (hand_over_lem now base64 channel exchange_id code pending s p).1 [
        | inl done ↦ inl done
        | inr (inl o) ↦ inr (Owed-IsReplayed pending _ _ _ _ t q same works (inl refl) o)
        | inr (inr (some_call, o)) ↦
            inr (Owed-IsReplayed pending _ _ _ _ t q same works (inr some_call) o)
      ]
