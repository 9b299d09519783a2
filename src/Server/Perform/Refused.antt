-- ===== src/Server/Perform/Refused.antt =====
-- What a refused redeem leaves behind.
use x402b.Prelude.{arith, ℕ, String, Option, none, some, ◌≡◌, refl, ap, sym, ◌∙◌}
use x402b.Machine.{ExchangeActionId}
use x402b.Wire.{EscrowNextActions}
use x402b.Effects.{error, value, http_error, Raised, Eff, Outcome, returned, thrown, continue}
use x402b.Facilitator.{FacilitatorPerformActionResult}
use x402b.Server.Exchange.{ExchangeSnapshot, VerifyExchangeResult}
use x402b.Server.State.{HandlerContext, HandlerResult, ok, err, HandlerCode, ServerState, outside}
use x402b.Server.Perform.{
  PerformActionInput, PerformActionOk, tx_of, answer_next, answer_verified, answer_performed,
  after_call, after_read, handle_perform_action, unreachable,
}
use x402b.Server.Perform.Redeem.{
  Selection, Resolved, refused, unselected, resolved, after_redeem, redeem_resolved, redeem_signed,
  handle_redeem,
}

-- An outcome whose refusal, if it is one, has status 502.
abbrev pub Fails502 : {A : Type 0} → Outcome (HandlerResult A) → Type 0
Fails502 (returned (ok a)) = Unit
Fails502 (returned (err status code)) = status ≡ 502
Fails502 (thrown e) = Unit

continue-Fails502 :
    {W A B : Type 0} (o : Outcome A) (w : W) (f : A → Eff W (HandlerResult B))
    → ((a : A) (u : W) → Fails502 (f a u).0)
    → Fails502 (continue o w f).0
continue-Fails502 (returned a) w f h = h a w
continue-Fails502 (thrown e) w f h = tt

unreachable-Fails502 :
    {W : Type 0} (e : Raised) (w : W) → Fails502 (unreachable {A = PerformActionOk} e w).0
unreachable-Fails502 (http_error code message status facilitator_code) w = refl
unreachable-Fails502 (error message) w = tt
unreachable-Fails502 (value text) w = tt

module _ {W : Type 0} (ctx : HandlerContext W) (action : ExchangeActionId)
    (input : PerformActionInput) where
  answer_next-Fails502 :
      (tx_hash : String) (o : Outcome EscrowNextActions) (w : W)
      → Fails502 (answer_next ctx tx_hash o w).0
  answer_next-Fails502 tx_hash (thrown e) w = tt
  answer_next-Fails502 tx_hash (returned next) w = tt

  answer_verified-Fails502 :
      (tx_hash : String) (r : VerifyExchangeResult) (w : W)
      → Fails502 (answer_verified ctx action input tx_hash r w).0
  answer_verified-Fails502 tx_hash (VerifyExchangeResult.fail code) w = refl
  answer_verified-Fails502 tx_hash VerifyExchangeResult.ok w = answer_next-Fails502 tx_hash _ w

  answer_performed-Fails502 :
      (reference : ExchangeSnapshot) (tx : Option String) (w : W)
      → Fails502 (answer_performed ctx action input reference tx w).0
  answer_performed-Fails502 reference none w = refl
  answer_performed-Fails502 reference (some tx_hash) w =
      continue-Fails502 _ _ (answer_verified ctx action input tx_hash)
        (answer_verified-Fails502 tx_hash)

  after_call-Fails502 :
      (reference : ExchangeSnapshot) (o : Outcome FacilitatorPerformActionResult) (w : W)
      → Fails502 (after_call ctx action input reference o w).0
  after_call-Fails502 reference (thrown e) w = unreachable-Fails502 e w
  after_call-Fails502 reference (returned result) w =
      answer_performed-Fails502 reference (tx_of result) w

  after_read-Fails502 :
      (found : Option ExchangeSnapshot) (w : W) → Fails502 (after_read ctx action input found w).0
  after_read-Fails502 none w = refl
  after_read-Fails502 (some reference) w = after_call-Fails502 reference _ _

  pub handle_perform_action-Fails502 :
      (w : W) → Fails502 (handle_perform_action ctx action input w).0
  unfolding handle_perform_action
  handle_perform_action-Fails502 w =
      continue-Fails502 _ _ (after_read ctx action input) after_read-Fails502

-- The stores stay as they were, and for a refusal with status 400 so does everything.
pub record Untouched {W : Type 0} (status : ℕ) (s s' : ServerState W) : Type 0 where
  pub recovery : s'.recovery ≡ s.recovery
  pub options : s'.options ≡ s.options
  pub everything : status ≡ 400 → s' ≡ s

module _ {W : Type 0} (ctx : HandlerContext W) (input : PerformActionInput) where
  after_redeem-Untouched :
      (redeemer : String) (target : Resolved W) (o : Outcome (HandlerResult PerformActionOk))
      (s : ServerState W) (w : W) (status : ℕ) (code : HandlerCode) (s' : ServerState W)
      → Fails502 o
      → after_redeem ctx input redeemer target o (record s { outside = w })
        ≡ (returned (err status code), s')
      → Untouched status s s'
  unfolding after_redeem
  after_redeem-Untouched redeemer target (thrown e) s w status code s' f h = cc (ap (λ z. z.0) h)
  after_redeem-Untouched redeemer target (returned (ok body)) s w status code s' f h =
      cc (ap (λ z. z.0) h)
  after_redeem-Untouched redeemer target (returned (err t c)) s w status code s' f h =
      let same = ap (λ z. z.1) h in
      let p : ◌≡◌ {A = Outcome (HandlerResult PerformActionOk)} (returned (err t c))
          (returned (err status code)) =
        ap (λ z. z.0) h in
      let q : t ≡ status = cc in
      record {
        recovery = ap (λ z. z.recovery) (sym same);
        options = ap (λ z. z.options) (sym same);
        everything = λ r. absurd (is_not (sym f ∙ (q ∙ r)));
      }
    where
      is_not : ¬ (◌≡◌ {A = ℕ} 502 400)
      is_not p = omega (arith, p)

  performed-Untouched :
      (redeemer : String) (target : Resolved W) (s s' : ServerState W) (status : ℕ)
      (code : HandlerCode)
      → redeem_resolved ctx input redeemer target s ≡ (returned (err status code), s')
      → Untouched status s s'
  unfolding redeem_resolved outside
  performed-Untouched redeemer (refused c) s s' status code h =
      let same = ap (λ z. z.1) h in
      record {
        recovery = ap (λ z. z.recovery) (sym same);
        options = ap (λ z. z.options) (sym same);
        everything = λ _. sym same;
      }
  performed-Untouched redeemer unselected s s' status code h =
      after_redeem-Untouched redeemer unselected _ s _ status code s'
        (handle_perform_action-Fails502 ctx ExchangeActionId.redeem input s.outside) h
  performed-Untouched redeemer (resolved selection channel) s s' status code h =
      after_redeem-Untouched redeemer (resolved selection channel) _ s _ status code s'
        (handle_perform_action-Fails502 ctx ExchangeActionId.redeem input s.outside) h

  -- A redeem that is refused leaves the option store and the recovery store as they were, and a
  -- refusal with status 400 leaves everything as it was, the world outside the server included.
  pub handle_redeem-Untouched :
      (fulfillment : Option Selection) (s s' : ServerState W) (status : ℕ) (code : HandlerCode)
      → handle_redeem ctx input fulfillment s ≡ (returned (err status code), s')
      → Untouched status s s'
  unfolding handle_redeem redeem_signed
  handle_redeem-Untouched fulfillment s s' status code h =
      go (ctx.signer_of_payload input.signed_payload) h
    where
      go :
          (o : Outcome String)
          → redeem_signed ctx input fulfillment o s ≡ (returned (err status code), s')
          → Untouched status s s'
      go (thrown e) q =
          let same = ap (λ z. z.1) q in
          record {
            recovery = ap (λ z. z.recovery) (sym same);
            options = ap (λ z. z.options) (sym same);
            everything = λ _. sym same;
          }
      go (returned redeemer) q = performed-Untouched redeemer _ s s' status code q
