-- ===== src/Server/Commit/Committed.antt =====
-- What a commit handler has checked and done when it answers 200.
use x402b.Prelude.{
  String, some, Bool, true, false, not, ◌≡◌, refl, ap, sym, ◌∙◌, ◌==◌, string_eq, eq_iff,
  if◌then◌else◌,
}
use x402b.Machine.{ExchangeActionId, exchange_action_name, exchange_state}
use x402b.Wire.{EnvelopeState, EscrowNextActions, EscrowPaymentPayload}
use x402b.Effects.{error, value, http_error, Raised, Outcome, returned, thrown, pair_of_outcome}
use x402b.Facilitator.{FacilitatorSettleResult, settled}
use x402b.Server.Exchange.{ExchangeSnapshot, VerifyExchangeResult, verify_exchange, default_options}
use x402b.Server.Exchange.Snapshot.{Agrees}
use x402b.Server.Exchange.Polling.{verify_exchange_sound}
use x402b.Server.Payload.{ValidatePaymentPayloadResult, validate_payment_payload}
use x402b.Server.Payload.Rules.{Accepted, validate_payment_payload_iff}
use x402b.Server.State.{HandlerContext, HandlerResult, ok, err, HandlerCode, ServerState, outside}
use x402b.Server.Decode.{
  Platform, DecodeXPaymentResult, decoded, undecoded, decode_x_payment_header,
}
use x402b.Server.Delivery.{Delivered}
use x402b.Server.Perform.{unreachable}
use x402b.Server.Perform.Confirmed.{next_actions_for-state}
use x402b.Server.Commit.{
  CommitHandlerInput, Route, CommitOk, build_expected_from_requirements, args_for, record_commit,
  answer_commit, after_verify, after_settle, settle_input, after_validate, after_decode,
  handle_commit_impl,
}

module _ {W : Type 0} (platform : Platform) (ctx : HandlerContext W) (input : CommitHandlerInput)
    (route : Route) where
  -- The payload is decoded, is for the route's action and is accepted; the facilitator settled it,
  -- once; the last read of the exchange agrees with the route's state and the requirements; the next
  -- actions are those of that state; and the stores are as recording the commit leaves them.
  pub record Committed (s : ServerState W) (body : CommitOk) (s' : ServerState W) : Type 0 where
    pub payload : EscrowPaymentPayload
    pub is_payload : decode_x_payment_header platform input.payment_header ≡ decoded payload
    pub is_action : payload.payload.action ≡ exchange_action_name route.expected_action
    pub accepted :
        Accepted ctx.chain (args_for platform ctx input route payload (ctx.now_seconds s.outside))
    pub after : W
    pub is_settled :
        ctx.facilitator.settle (settle_input platform ctx input route payload) s.outside
        ≡ (returned (settled body.exchange_id body.tx_hash), after)
    pub last : W
    pub final : W
    pub snapshot : ExchangeSnapshot
    pub is_snapshot :
        ctx.exchange_reader.read body.exchange_id last ≡ (returned (some snapshot), final)
    pub agrees :
        Agrees snapshot (
          build_expected_from_requirements input.requirements (exchange_state route.expected_state))
    pub next_for : body.next_actions.exchange_id ≡ body.exchange_id
    pub next_state : body.next_actions.state ≡ EnvelopeState.plain route.expected_state
    pub recorded :
        record_commit platform ctx input route body.exchange_id payload
          (record s { outside = final })
        ≡ (record { warnings = body.warnings; delivery = body.fulfillment }, s')

  answer_commit-ok :
      (exchange_id tx_hash : String) (d : Delivered) (o : Outcome EscrowNextActions)
      (s s' : ServerState W) (body : CommitOk)
      → answer_commit platform ctx input route exchange_id tx_hash d o s ≡ (returned (ok body), s')
      → (next : EscrowNextActions) × (o ≡ returned next)
        × (s ≡ s')
        × (record {
          exchange_id = exchange_id;
          tx_hash = tx_hash;
          next_actions = next;
          warnings = d.warnings;
          fulfillment = d.delivery;
        }
            ≡ body)
  answer_commit-ok exchange_id tx_hash d (thrown e) s s' body h = cc (ap (λ z. z.0) h)
  answer_commit-ok exchange_id tx_hash d (returned next) s s' body h =
      let built : CommitOk = record {
        exchange_id = exchange_id;
        tx_hash = tx_hash;
        next_actions = next;
        warnings = d.warnings;
        fulfillment = d.delivery;
      } in
      let p : ◌≡◌ {A = Outcome (HandlerResult CommitOk)} (returned (ok built))
          (returned (ok body)) =
        ap (λ z. z.0) h in
      let same : built ≡ body = cc in (next, refl, ap (λ z. z.1) h, same)

  -- After the verification.
  after_verify-ok :
      (payload : EscrowPaymentPayload) (exchange_id tx_hash : String)
      (o : Outcome VerifyExchangeResult) (s s' : ServerState W) (body : CommitOk)
      → after_verify platform ctx input route payload exchange_id tx_hash o s
        ≡ (returned (ok body), s')
      → (o ≡ returned VerifyExchangeResult.ok)
        × (body.exchange_id ≡ exchange_id)
        × (body.tx_hash ≡ tx_hash)
        × (body.next_actions.exchange_id ≡ exchange_id)
        × (body.next_actions.state ≡ EnvelopeState.plain route.expected_state)
        × (record_commit platform ctx input route exchange_id payload s
            ≡ (record { warnings = body.warnings; delivery = body.fulfillment }, s'))
  unfolding after_verify
  after_verify-ok payload exchange_id tx_hash (thrown e) s s' body h = cc (ap (λ z. z.0) h)
  after_verify-ok payload exchange_id tx_hash (returned (VerifyExchangeResult.fail c)) s s' body h =
      cc (ap (λ z. z.0) h)
  after_verify-ok payload exchange_id tx_hash (returned VerifyExchangeResult.ok) s s' body h =
      let run = record_commit platform ctx input route exchange_id payload s in
      let (next, p, q, same) = answer_commit-ok exchange_id tx_hash run.0 _ run.1 s' body h in
      let (i, t) =
        next_actions_for-state ctx ExchangeActionId.redeem
          (record { exchange_id = exchange_id; signed_payload = "" })
          (some (EnvelopeState.plain route.expected_state)) next p in
      let u : next.state ≡ EnvelopeState.plain route.expected_state = cc in
      (
        refl,
        ap (λ b. b.exchange_id) (sym same),
        ap (λ b. b.tx_hash) (sym same),
        ap (λ b. b.next_actions.exchange_id) (sym same) ∙ i,
        ap (λ b. b.next_actions.state) (sym same) ∙ u,
        (λ k. (record { warnings = (same k).warnings; delivery = (same k).fulfillment }, q k)),
      )

  unreachable-err :
      (e : Raised) (s s' : ServerState W) (body : CommitOk)
      → ¬ (outside (unreachable e) s ≡ (returned (ok body), s'))
  unfolding outside
  unreachable-err (http_error code message status facilitator_code) s s' body h =
      cc (ap (λ z. z.0) h)
  unreachable-err (error message) s s' body h = cc (ap (λ z. z.0) h)
  unreachable-err (value text) s s' body h = cc (ap (λ z. z.0) h)

  Committed-of_settle :
      (payload : EscrowPaymentPayload) (s : ServerState W)
      → decode_x_payment_header platform input.payment_header ≡ decoded payload
      → payload.payload.action ≡ exchange_action_name route.expected_action
      → Accepted ctx.chain (args_for platform ctx input route payload (ctx.now_seconds s.outside))
      → (o : Outcome FacilitatorSettleResult) (after : W)
      → ctx.facilitator.settle (settle_input platform ctx input route payload) s.outside
        ≡ (o, after)
      → (s' : ServerState W) (body : CommitOk)
      → after_settle platform ctx input route payload o (record s { outside = after })
        ≡ (returned (ok body), s')
      → Committed s body s'
  unfolding after_settle outside
  Committed-of_settle payload s p q a (thrown e) after r s' body h =
      absurd (unreachable-err e (record s { outside = after }) s' body h)
  Committed-of_settle payload s p q a (returned (FacilitatorSettleResult.rejected c)) after r s'
        body h =
      cc (ap (λ z. z.0) h)
  Committed-of_settle payload s p q a (returned (settled exchange_id tx_hash)) after r s' body h =
      let expected =
        build_expected_from_requirements input.requirements (exchange_state route.expected_state) in
      let run = verify_exchange ctx.exchange_reader exchange_id expected default_options after in
      let (is_ok, i, tx, n, t, rec) =
        after_verify-ok payload exchange_id tx_hash run.0 (record s { outside = run.1 }) s' body
          h in
      let (last, snapshot, at, agrees) =
        verify_exchange_sound ctx.exchange_reader exchange_id expected default_options after run.1
          (pair_of_outcome run is_ok) in
      record {
        payload = payload;
        is_payload = p;
        is_action = q;
        accepted = a;
        after = after;
        is_settled = r ∙ sym (λ k. (returned (settled (i k) (tx k)), after));
        last = last;
        final = run.1;
        snapshot = snapshot;
        is_snapshot = ap (λ e. ctx.exchange_reader.read e last) i ∙ at;
        agrees = agrees;
        next_for = n ∙ sym i;
        next_state = t;
        recorded =
            ap
              (λ e. record_commit platform ctx input route e payload (record s { outside = run.1 }))
              i
            ∙ rec;
      }

  Committed-of_validate :
      (payload : EscrowPaymentPayload) (s : ServerState W)
      → decode_x_payment_header platform input.payment_header ≡ decoded payload
      → payload.payload.action ≡ exchange_action_name route.expected_action
      → (r : ValidatePaymentPayloadResult)
      → validate_payment_payload ctx.chain
          (args_for platform ctx input route payload (ctx.now_seconds s.outside))
        ≡ r
      → (s' : ServerState W) (body : CommitOk)
      → after_validate platform ctx input route payload r s ≡ (returned (ok body), s')
      → Committed s body s'
  unfolding after_validate outside
  Committed-of_validate payload s p q (ValidatePaymentPayloadResult.failure f) v s' body h =
      cc (ap (λ z. z.0) h)
  Committed-of_validate payload s p q ValidatePaymentPayloadResult.ok v s' body h =
      Committed-of_settle payload s p q ((validate_payment_payload_iff ctx.chain _).0 v) _ _ refl s'
        body h

  Committed-of_decode :
      (r : DecodeXPaymentResult) (s : ServerState W)
      → decode_x_payment_header platform input.payment_header ≡ r
      → (s' : ServerState W) (body : CommitOk)
      → after_decode platform ctx input route (ctx.now_seconds s.outside) r s
        ≡ (returned (ok body), s')
      → Committed s body s'
  unfolding after_decode
  Committed-of_decode (undecoded code) s p s' body h = cc (ap (λ z. z.0) h)
  Committed-of_decode (decoded payload) s p s' body h =
      go (payload.payload.action == exchange_action_name route.expected_action) refl h
    where
      go :
          (b : Bool)
          → (payload.payload.action == exchange_action_name route.expected_action) ≡ b
          → (if not b
              then (returned (err 400 HandlerCode.action_route_mismatch), s)
              else after_validate platform ctx input route payload
                  (validate_payment_payload ctx.chain
                    (args_for platform ctx input route payload (ctx.now_seconds s.outside)))
                  s)
            ≡ (returned (ok body), s')
          → Committed s body s'
      go false e q = cc (ap (λ z. z.0) q)
      go true e q =
          Committed-of_validate payload s p
            ((eq_iff payload.payload.action (exchange_action_name route.expected_action)).0 e) _
            refl s' body q

  -- When a commit handler answers 200, the payload was decoded, is for the route's action and
  -- satisfies every validation rule; the facilitator settled it as the answered exchange and
  -- transaction; the last read of the exchange agrees with the route's state and the requirements;
  -- the next actions are those of this exchange in that state; and the stores, the warnings and the
  -- delivery are those of recording the commit.
  pub handle_commit_impl-Committed :
      (s s' : ServerState W) (body : CommitOk)
      → handle_commit_impl platform ctx input route s ≡ (returned (ok body), s')
      → Committed s body s'
  unfolding handle_commit_impl
  handle_commit_impl-Committed s s' body h =
      Committed-of_decode (decode_x_payment_header platform input.payment_header) s refl s' body h
