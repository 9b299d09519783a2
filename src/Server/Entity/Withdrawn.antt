-- ===== src/Server/Entity/Withdrawn.antt =====
-- What the withdrawal handler has done when it answers 200.
use x402b.Prelude.{String, Option, none, some, ◌≡◌, refl, ap, sym, ◌∙◌}
use x402b.Effects.{error, value, http_error, Raised, Outcome, returned, thrown}
use x402b.Facilitator.{FacilitatorPerformActionResult}
use x402b.Server.State.{HandlerContext, HandlerResult, ok}
use x402b.Server.Perform.{tx_of, unreachable}
use x402b.Server.Entity.{
  Role, CoreSdkReadAdapter, WithdrawFundsInput, WithdrawFundsOk, Target, refused, entity,
  resolve_target, withdraw_request, answer_withdrawn, after_withdraw, withdraw_from,
  handle_withdraw_funds,
}

module _ {W : Type 0} (ctx : HandlerContext W) (core_sdk : CoreSdkReadAdapter W)
    (input : WithdrawFundsInput) where
  -- The target was resolved to the answered entity and role, and the facilitator, called once, reported
  -- the answered transaction for the withdrawal of that entity.
  pub record Withdrawn (w : W) (body : WithdrawFundsOk) (w' : W) : Type 0 where
    pub before : W
    pub resolved :
        resolve_target core_sdk input.target w ≡ (entity body.entity_id body.role, before)
    pub result : FacilitatorPerformActionResult
    pub performed :
        ctx.facilitator.perform_action
          (withdraw_request ctx core_sdk body.entity_id input.signed_payload)
          before
        ≡ (returned result, w')
    pub is_tx : tx_of result ≡ some body.tx_hash

  unreachable-err :
      (e : Raised) (w w' : W) (body : WithdrawFundsOk)
      → ¬ (unreachable e w ≡ (returned (ok body), w'))
  unreachable-err (http_error code message status facilitator_code) w w' body h =
      cc (ap (λ p. p.0) h)
  unreachable-err (error message) w w' body h = cc (ap (λ p. p.0) h)
  unreachable-err (value text) w w' body h = cc (ap (λ p. p.0) h)

  answered-ok :
      (entity_id : String) (role : Option Role) (tx : Option String) (w w' : W)
      (body : WithdrawFundsOk)
      → answer_withdrawn ctx core_sdk entity_id role tx w ≡ (returned (ok body), w')
      → (entity_id ≡ body.entity_id) × (role ≡ body.role) × (tx ≡ some body.tx_hash) × (w ≡ w')
  answered-ok entity_id role none w w' body h = cc (ap (λ p. p.0) h)
  answered-ok entity_id role (some tx_hash) w w' body h =
      let built : WithdrawFundsOk = record {
        tx_hash = tx_hash;
        entity_id = entity_id;
        role = role;
      } in
      let p : ◌≡◌ {A = Outcome (HandlerResult WithdrawFundsOk)} (returned (ok built))
          (returned (ok body)) =
        ap (λ z. z.0) h in
      let same : built ≡ body = cc in
      (
        ap (λ b. b.entity_id) same,
        ap (λ b. b.role) same,
        ap (λ b. some b.tx_hash) same,
        ap (λ z. z.1) h,
      )

  Withdrawn-of_call :
      (w before : W) (entity_id : String) (role : Option Role)
      → resolve_target core_sdk input.target w ≡ (entity entity_id role, before)
      → (o : Outcome FacilitatorPerformActionResult) (after w' : W)
      → ctx.facilitator.perform_action
          (withdraw_request ctx core_sdk entity_id input.signed_payload)
          before
        ≡ (o, after)
      → (body : WithdrawFundsOk)
      → after_withdraw ctx core_sdk entity_id role o after ≡ (returned (ok body), w')
      → Withdrawn w body w'
  Withdrawn-of_call w before entity_id role p (thrown e) after w' q body h =
      absurd (unreachable-err e after w' body h)
  Withdrawn-of_call w before entity_id role p (returned result) after w' q body h =
      let (i, r, t, u) = answered-ok entity_id role (tx_of result) after w' body h in
      record {
        before = before;
        resolved = p ∙ (λ k. (entity (i k) (r k), before));
        result = result;
        performed =
            ap
              (λ e.
                ctx.facilitator.perform_action
                  (withdraw_request ctx core_sdk e input.signed_payload) before)
              (sym i)
            ∙ (q ∙ ap (λ z. (returned result, z)) u);
        is_tx = t;
      }

  Withdrawn-of_target :
      (w : W) (target : Target) (before : W)
      → resolve_target core_sdk input.target w ≡ (target, before)
      → (w' : W) (body : WithdrawFundsOk)
      → withdraw_from ctx core_sdk input.signed_payload target before ≡ (returned (ok body), w')
      → Withdrawn w body w'
  unfolding withdraw_from
  Withdrawn-of_target w (refused status code) before p w' body h = cc (ap (λ z. z.0) h)
  Withdrawn-of_target w (entity entity_id role) before p w' body h =
      Withdrawn-of_call w before entity_id role p _ _ w' refl body h

  -- When the withdrawal handler answers 200, the target was resolved to the answered entity, and the
  -- facilitator reported the answered transaction for the withdrawal of that entity's funds.
  pub handle_withdraw_funds-Withdrawn :
      (w w' : W) (body : WithdrawFundsOk)
      → handle_withdraw_funds ctx core_sdk input w ≡ (returned (ok body), w')
      → Withdrawn w body w'
  unfolding handle_withdraw_funds
  handle_withdraw_funds-Withdrawn w w' body h = Withdrawn-of_target w _ _ refl w' body h
