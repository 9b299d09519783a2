-- ===== src/Server/Perform/Confirmed.antt =====
-- What the handler of an exchange-keyed action has seen when it answers.
use x402b.Prelude.{◌∙◌, Option-cases, inl, inr, [], sym, String, Option, none, some, ◌≡◌, refl, ap}
use x402b.Machine.{client_legal_actions, ExchangeActionId, action_post_state}
use x402b.Wire.{EnvelopeState, EscrowNextActions}
use x402b.Actions.{
  ChannelRegistry, derive_next_actions, build_envelope, build_entries, build_fallback,
  to_client_state,
}
use x402b.Effects.{
  error, value, http_error, Raised, Outcome, returned, thrown, continue-eq-returned,
  pair_of_outcome,
}
use x402b.Facilitator.{FacilitatorPerformActionResult}
use x402b.Server.Exchange.{ExchangeSnapshot, VerifyExchangeResult, verify_exchange, default_options}
use x402b.Server.Exchange.Polling.{verify_exchange_sound}
use x402b.Server.Exchange.Snapshot.{Agrees}
use x402b.Server.Endpoints.{emit_next_actions, stamp_envelope}
use x402b.Server.State.{HandlerContext, ok}
use x402b.Server.Perform.{
  unreachable, after_read, handle_perform_action, after_call, PerformActionInput, PerformActionOk,
  tx_of, envelope_state, next_actions_for, expected_after, answer_next, answer_verified,
  answer_performed, request,
}

stamp_envelope-state :
    (url : Option String) (d : EscrowNextActions)
    → ((stamp_envelope url d).exchange_id ≡ d.exchange_id)
      × ((stamp_envelope url d).state ≡ d.state)
unfolding stamp_envelope
stamp_envelope-state none d = (refl, refl)
stamp_envelope-state (some url) d = (refl, refl)

pub emit-state :
    (exchange_id : String) (state : EnvelopeState) (registry : ChannelRegistry)
    (url : Option String) (e : EscrowNextActions)
    → emit_next_actions exchange_id state registry url ≡ some e
    → (e.exchange_id ≡ exchange_id) × (e.state ≡ state)
unfolding emit_next_actions derive_next_actions build_envelope
emit-state exchange_id state registry url e h =
    let ids = client_legal_actions (to_client_state state) in
    elim (Option-cases (build_entries registry (record { deadlines = [] }) ids)) [
      | inl p ↦ cc (rw (p, emit_next_actions, derive_next_actions, build_envelope) at h)
      | inr (es, p) ↦
          let d : EscrowNextActions = record {
            exchange_id = exchange_id;
            state = state;
            next = es;
            fallback = some (build_fallback registry ids);
          } in
          let q : some (stamp_envelope url d) ≡ some e =
            rw (p, emit_next_actions, derive_next_actions, build_envelope) at h in
          let same : stamp_envelope url d ≡ e = cc in rw (← same) (stamp_envelope-state url d)
    ]

module _ {W : Type 0} (ctx : HandlerContext W) (action : ExchangeActionId)
    (input : PerformActionInput) where
  -- The exchange was there before the action; the facilitator performed the action, once; the last
  -- read of the exchange agrees with the action's post-state and with the seller, token and price
  -- from before; and the next actions are those of the exchange in that state.
  pub record Confirmed (w : W) (body : PerformActionOk) (w' : W) : Type 0 where
    pub reference : ExchangeSnapshot
    pub before : W
    pub is_reference :
        ctx.exchange_reader.read input.exchange_id w ≡ (returned (some reference), before)
    pub result : FacilitatorPerformActionResult
    pub after : W
    pub performed :
        ctx.facilitator.perform_action (request ctx action input) before ≡ (returned result, after)
    pub is_tx : tx_of result ≡ some body.tx_hash
    pub last : W
    pub snapshot : ExchangeSnapshot
    pub is_snapshot :
        ctx.exchange_reader.read input.exchange_id last ≡ (returned (some snapshot), w')
    pub agrees : Agrees snapshot (expected_after ctx (action_post_state action) reference)
    pub next_for : body.next_actions.exchange_id ≡ input.exchange_id
    pub next_state : envelope_state (action_post_state action) ≡ some body.next_actions.state
    pub no_warnings : body.warnings ≡ []
    pub no_fulfillment : body.fulfillment ≡ none

  pub next_actions_for-state :
      (state : Option EnvelopeState) (next : EscrowNextActions)
      → next_actions_for ctx input.exchange_id state ≡ returned next
      → (next.exchange_id ≡ input.exchange_id) × (state ≡ some next.state)
  unfolding next_actions_for
  next_actions_for-state none next h = cc
  next_actions_for-state (some state) next h =
      elim (Option-cases (
        emit_next_actions input.exchange_id state ctx.config.channel_registry
          (some ctx.config.facilitator_url))) [
            | inl p ↦ cc (rw (p, next_actions_for) at h)
            | inr (e, p) ↦
                let q : Outcome.returned e ≡ returned next = rw (p, next_actions_for) at h in
                let same : e ≡ next = cc in
                let (i, t) =
                  emit-state input.exchange_id state ctx.config.channel_registry
                    (some ctx.config.facilitator_url) next (rw same at p) in
                (i, ap some (sym t))
          ]

  answer_verified-ok :
      (tx_hash : String) (r : VerifyExchangeResult) (w w' : W) (body : PerformActionOk)
      → answer_verified ctx action input tx_hash r w ≡ (returned (ok body), w')
      → (r ≡ VerifyExchangeResult.ok)
        × (w ≡ w')
        × (body.tx_hash ≡ tx_hash)
        × (body.next_actions.exchange_id ≡ input.exchange_id)
        × (envelope_state (action_post_state action) ≡ some body.next_actions.state)
        × ((body.warnings ≡ []) × (body.fulfillment ≡ none))
  answer_verified-ok tx_hash (VerifyExchangeResult.fail code) w w' body h = cc (ap (λ p. p.0) h)
  answer_verified-ok tx_hash VerifyExchangeResult.ok w w' body h = go _ refl h
    where
      go :
          (o : Outcome EscrowNextActions)
          → next_actions_for ctx input.exchange_id (envelope_state (action_post_state action)) ≡ o
          → answer_next ctx tx_hash o w ≡ (returned (ok body), w')
          → (VerifyExchangeResult.ok ≡ VerifyExchangeResult.ok)
            × (w ≡ w')
            × (body.tx_hash ≡ tx_hash)
            × (body.next_actions.exchange_id ≡ input.exchange_id)
            × (envelope_state (action_post_state action) ≡ some body.next_actions.state)
            × ((body.warnings ≡ []) × (body.fulfillment ≡ none))
      go (thrown e) p q = cc (ap (λ p. p.0) q)
      go (returned next) p q =
          let built : PerformActionOk = record {
            tx_hash = tx_hash;
            next_actions = next;
            warnings = [];
            fulfillment = none;
          } in
          let r : Outcome.returned (ok built) ≡ returned (ok body) = ap (λ z. z.0) q in
          let same : built ≡ body = cc in
          let (i, t) = next_actions_for-state (envelope_state (action_post_state action)) next p in
          (
            refl,
            ap (λ z. z.1) q,
            ap (λ b. b.tx_hash) (sym same),
            rw (← same) i,
            rw (← same) t,
            (ap (λ b. b.warnings) (sym same), ap (λ b. b.fulfillment) (sym same)),
          )

  answer_performed-ok :
      (reference : ExchangeSnapshot) (tx : Option String) (w w' : W) (body : PerformActionOk)
      → answer_performed ctx action input reference tx w ≡ (returned (ok body), w')
      → (tx ≡ some body.tx_hash)
        × (verify_exchange ctx.exchange_reader input.exchange_id
              (expected_after ctx (action_post_state action) reference)
              default_options
              w
            ≡ (returned VerifyExchangeResult.ok, w'))
        × (body.next_actions.exchange_id ≡ input.exchange_id)
        × (envelope_state (action_post_state action) ≡ some body.next_actions.state)
        × ((body.warnings ≡ []) × (body.fulfillment ≡ none))
  answer_performed-ok reference none w w' body h = cc (ap (λ p. p.0) h)
  answer_performed-ok reference (some tx_hash) w w' body h =
      let run =
        verify_exchange ctx.exchange_reader input.exchange_id
          (expected_after ctx (action_post_state action) reference) default_options w in
      let (r, p, q) =
        continue-eq-returned run.0 run.1 (answer_verified ctx action input tx_hash) h in
      let (is_ok, same, tx, i, t, n) = answer_verified-ok tx_hash r run.1 w' body q in
      (
        ap some (sym tx),
        pair_of_outcome run (p ∙ ap returned is_ok)
            ∙ ap (λ z. (returned VerifyExchangeResult.ok, z)) same,
        i,
        t,
        n,
      )

  unreachable-err :
      (e : Raised) (w w' : W) (body : PerformActionOk)
      → ¬ (unreachable e w ≡ (returned (ok body), w'))
  unreachable-err (http_error code message status facilitator_code) w w' body h =
      cc (ap (λ p. p.0) h)
  unreachable-err (error message) w w' body h = cc (ap (λ p. p.0) h)
  unreachable-err (value text) w w' body h = cc (ap (λ p. p.0) h)

  Confirmed-of_call :
      (w : W) (reference : ExchangeSnapshot) (before : W)
      → ctx.exchange_reader.read input.exchange_id w ≡ (returned (some reference), before)
      → (o : Outcome FacilitatorPerformActionResult) (after : W)
      → ctx.facilitator.perform_action (request ctx action input) before ≡ (o, after)
      → (w' : W) (body : PerformActionOk)
      → after_call ctx action input reference o after ≡ (returned (ok body), w')
      → Confirmed w body w'
  Confirmed-of_call w reference before p (thrown e) after q w' body h =
      absurd (unreachable-err e after w' body h)
  Confirmed-of_call w reference before p (returned result) after q w' body h =
      let (tx, run, i, t, n) = answer_performed-ok reference (tx_of result) after w' body h in
      let (last, snapshot, r, a) =
        verify_exchange_sound ctx.exchange_reader input.exchange_id
          (expected_after ctx (action_post_state action) reference) default_options after w' run in
      record {
        reference = reference;
        before = before;
        is_reference = p;
        result = result;
        after = after;
        performed = q;
        is_tx = tx;
        last = last;
        snapshot = snapshot;
        is_snapshot = r;
        agrees = a;
        next_for = i;
        next_state = t;
        no_warnings = n.0;
        no_fulfillment = n.1;
      }

-- When the handler of an exchange-keyed action answers 200, the exchange could be read before the
-- action, the facilitator reported the answer's transaction for it, the last read of the exchange
-- agrees with the action's post-state and with the seller, token and price read before, and the next
-- actions are those of this exchange in that state.
pub handle_perform_action-Confirmed :
    {W : Type 0} (ctx : HandlerContext W) (action : ExchangeActionId) (input : PerformActionInput)
    (w w' : W) (body : PerformActionOk)
    → handle_perform_action ctx action input w ≡ (returned (ok body), w')
    → Confirmed ctx action input w body w'
unfolding handle_perform_action
handle_perform_action-Confirmed ctx action input w w' body h =
    let read = ctx.exchange_reader.read input.exchange_id w in
    let (found, p, q) = continue-eq-returned read.0 read.1 (after_read ctx action input) h in
    go found (pair_of_outcome read p) q
  where
    go :
        (found : Option ExchangeSnapshot)
        → ctx.exchange_reader.read input.exchange_id w
          ≡ (returned found, (ctx.exchange_reader.read input.exchange_id w).1)
        → after_read ctx action input found (ctx.exchange_reader.read input.exchange_id w).1
          ≡ (returned (ok body), w')
        → Confirmed ctx action input w body w'
    go none p q = cc (ap (λ z. z.0) q)
    go (some reference) p q =
        let call =
          ctx.facilitator.perform_action (request ctx action input)
            (ctx.exchange_reader.read input.exchange_id w).1 in
        Confirmed-of_call ctx action input w reference _ p call.0 call.1 refl w' body q
