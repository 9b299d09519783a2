-- ===== src/Facilitator/Structural/Accepts.antt =====
-- What the structural checks of verify/structural.ts accept.
use x402b.Prelude.{
  String, List, map, Option, none, some, Bool, true, false, not, ◌≡◌, ◌≢◌, ◌↔◌, refl, sym, arith,
  ◌!=◌, ◌==◌, string_eq, eq_iff, same_text, same_text_iff, SameText, includes, includes_iff_left,
  includes_of_mem, Memᴰ,
}
use x402b.Effects.{Outcome, returned, thrown}
use x402b.Wire.{
  TokenAuthStrategy, strategy_eq, strategy_beq_iff, kind, EscrowPaymentPayload,
  EscrowPaymentRequirements, BosonTokenAuth,
}
use x402b.Server.Payload.{CommitAction, commit_action, InnerActionCalldata, splice}
use x402b.Facilitator.{FacilitatorErrorCode, StepResult, ok}
use x402b.Facilitator.Config.{Libraries, ◌followed_by◌, reject_if, followed_by_iff, reject_if_iff}
use x402b.Facilitator.Structural.{
  validate_meta_tx_calldata_matches_requirements, match_strategy, compare_built, match_calldata,
}

-- Steps by a test of texts.
pub equal_texts_iff :
    (a b : String) (code : FacilitatorErrorCode) → (reject_if (a != b) code ≡ ok) ↔ (a ≡ b)
equal_texts_iff a b code = ground (arith, eq_iff a b, reject_if_iff (a != b) code)

pub same_texts_iff :
    (a b : String) (code : FacilitatorErrorCode)
    → (reject_if (not (same_text a b)) code ≡ ok) ↔ SameText a b
same_texts_iff a b code =
    ground (arith, same_text_iff a b, reject_if_iff (not (same_text a b)) code)

pub holds_iff :
    (b : Bool) (code : FacilitatorErrorCode) → (reject_if (not b) code ≡ ok) ↔ (b ≡ true)
holds_iff true code = ground arith
holds_iff false code = ground arith

module _ {ℓ κ} {P : Type ℓ} {Q : Type κ} (a b : StepResult) where
  pub both_iff : (a ≡ ok) ↔ P → (b ≡ ok) ↔ Q → ((a followed_by b) ≡ ok) ↔ (P × Q)
  both_iff p q = (
    λ h. let (x, y) = (followed_by_iff a b).0 h in (p.0 x, q.0 y),
    λ h. (followed_by_iff a b).1 (p.1 h.0, q.1 h.1),
  )

pub trans_iff {ℓ κ ι} : {P : Type ℓ} {Q : Type κ} {R : Type ι} → P ↔ Q → Q ↔ R → P ↔ R
trans_iff p q = (λ x. q.0 (p.0 x), λ z. p.1 (q.1 z))

-- The calldata that a payment's calldata is to have.
pub record EncodesOffer (lib : Libraries) (payload : EscrowPaymentPayload)
    (requirements : EscrowPaymentRequirements) : Type 0 where
  pub action : CommitAction
  pub is_action : commit_action payload.payload.action ≡ some action
  pub expected : InnerActionCalldata
  pub built :
      lib.build_calldata action
        (splice requirements.offer.full_offer payload.payload.buyer requirements.offer.seller_sig)
      ≡ returned expected
  pub same_name : payload.payload.meta_tx.function_name ≡ expected.function_name
  pub same_calldata :
      SameText payload.payload.meta_tx.function_signature expected.function_signature

-- Nothing for the strategy none, and an authorisation of its kind for another.
abbrev pub FitsStrategy : TokenAuthStrategy → Option BosonTokenAuth → Type 0
FitsStrategy TokenAuthStrategy.none none = Unit
FitsStrategy TokenAuthStrategy.none (some auth) = ⊥
FitsStrategy strategy none = ⊥
FitsStrategy strategy (some auth) = strategy ≡ kind auth

pub match_strategy_iff :
    (strategy : TokenAuthStrategy) (auth : Option BosonTokenAuth)
    → (match_strategy strategy auth ≡ ok) ↔ FitsStrategy strategy auth
match_strategy_iff TokenAuthStrategy.none none = ground arith
match_strategy_iff TokenAuthStrategy.none (some auth) = ground arith
match_strategy_iff TokenAuthStrategy.erc3009 none = ground arith
match_strategy_iff TokenAuthStrategy.permit none = ground arith
match_strategy_iff TokenAuthStrategy.permit2 none = ground arith
match_strategy_iff TokenAuthStrategy.erc3009 (some auth) =
    ground (arith, strategy_beq_iff TokenAuthStrategy.erc3009 (kind auth))
match_strategy_iff TokenAuthStrategy.permit (some auth) =
    ground (arith, strategy_beq_iff TokenAuthStrategy.permit (kind auth))
match_strategy_iff TokenAuthStrategy.permit2 (some auth) =
    ground (arith, strategy_beq_iff TokenAuthStrategy.permit2 (kind auth))

pub includes_iff {ℓ} :
    {A : Type ℓ} ⦃e : x402b.Prelude.Eq A⦄ (xs : List A) (a : A) → (includes xs a ≡ true) ↔ Memᴰ a xs
includes_iff xs a = (includes_iff_left xs a, includes_of_mem xs a)

module _ (lib : Libraries) (payload : EscrowPaymentPayload)
    (requirements : EscrowPaymentRequirements) where
  compare_built-ok :
      (o : Outcome InnerActionCalldata)
      → compare_built payload o ≡ ok
      → (e : InnerActionCalldata) × (o ≡ returned e)
        × (payload.payload.meta_tx.function_name ≡ e.function_name)
        × SameText payload.payload.meta_tx.function_signature e.function_signature
  compare_built-ok (thrown e) h = cc
  compare_built-ok (returned e) h =
      let (p, q) =
        (both_iff _ _ (equal_texts_iff _ _ FacilitatorErrorCode.invalid_payload)
            (same_texts_iff _ _ FacilitatorErrorCode.invalid_payload)).0
          h in
      (e, refl, p, q)

  match_calldata-ok :
      (a : Option CommitAction)
      → commit_action payload.payload.action ≡ a
      → match_calldata payload lib requirements a ≡ ok
      → EncodesOffer lib payload requirements
  match_calldata-ok none p h = cc
  match_calldata-ok (some action) p h =
      let (e, built, name, calldata) = compare_built-ok _ h in
      record {
        action = action;
        is_action = p;
        expected = e;
        built = built;
        same_name = name;
        same_calldata = calldata;
      }

  pub validate_meta_tx_calldata_iff :
      (validate_meta_tx_calldata_matches_requirements lib payload requirements ≡ ok)
      ↔ EncodesOffer lib payload requirements
  unfolding validate_meta_tx_calldata_matches_requirements
  validate_meta_tx_calldata_iff = (
    match_calldata-ok (commit_action payload.payload.action) refl,
    λ x. rw x.is_action (
        rw x.built (
          (both_iff _ _ (equal_texts_iff _ _ FacilitatorErrorCode.invalid_payload)
              (same_texts_iff _ _ FacilitatorErrorCode.invalid_payload)).1
            (x.same_name, x.same_calldata))),
  )
