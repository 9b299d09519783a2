-- ===== src/Server/Commit/Recorded.antt =====
-- What the commit handlers leave in the stores.
use mathlib.Core.Path.{subst}
use x402b.Prelude.{
  ℕ, String, Option, none, some, ◌≡◌, ◌≢◌, refl, ap, sym, ◌∙◌, [], map, get, Dict, get-put_self,
}
use x402b.Json.{Fields}
use x402b.Wire.{EscrowPaymentPayload}
use x402b.Effects.{returned}
use x402b.Server.Payload.{advertised_options}
use x402b.Server.State.{
  HandlerContext, ok, ServerState, RedeemFulfillmentChannel, FulfillmentRecoveryEntry, Phase,
  WarningCode, set_recovery, set_options,
}
use x402b.Server.Decode.{Platform, decoded, decode_x_payment_header}
use x402b.Server.Delivery.{Delivered, pending_entry}
use x402b.Server.Delivery.Kept.{Kept, Kept-trans, set_recovery-Kept}
use x402b.Server.Delivery.Owed.{Owed, Settled, hand_over_lem}
use x402b.Server.Commit.{
  CommitHandlerInput, CommitOk, flow_a, flow_b, Route, channel_by_id, channels_of, carried_by,
  hand_over_to, hand_over_carried, record_commit, handle_commit, handle_commit_and_redeem,
}
use x402b.Server.Commit.Committed.{handle_commit_impl-Committed}

module _ {W : Type 0} where
  -- The delivery is settled with the option's channel, or owed where there is none.
  abbrev pub HandedTo :
      Option (RedeemFulfillmentChannel W)
      → String
      → FulfillmentRecoveryEntry
      → Delivered
      → Dict FulfillmentRecoveryEntry
      → Type 0
  HandedTo none exchange_id entry d recovery =
      Owed exchange_id entry Phase.commit WarningCode.fulfillment_commit_deferred d recovery
  HandedTo (some channel) exchange_id entry d recovery =
      Settled exchange_id channel WarningCode.fulfillment_commit_deferred entry d recovery

  -- Nothing was to be handed over, or the carried option and data were.
  abbrev pub Handed :
      HandlerContext W
      → String
      → String
      → Option (String × Option Fields)
      → ServerState W
      → Delivered
      → ServerState W
      → Type 0
  Handed ctx exchange_id buyer none s d s' =
      (d.warnings ≡ []) × (s'.options ≡ s.options) × (s'.recovery ≡ s.recovery)
  Handed ctx exchange_id buyer (some (option, data_)) s d s' =
      (at : ℕ) × (s'.options ≡ s.options)
      × ((j : String) → exchange_id ≢ j → get s'.recovery j ≡ get s.recovery j)
      × HandedTo (channel_by_id (channels_of ctx) option) exchange_id
          (pending_entry exchange_id option data_ buyer at) d s'.recovery

Handed-outside :
    {W : Type 0} (ctx : HandlerContext W) (exchange_id buyer : String)
    (carried : Option (String × Option Fields)) (s : ServerState W) (w : W) (d : Delivered)
    (s' : ServerState W)
    → Handed ctx exchange_id buyer carried (record s { outside = w }) d s'
    → Handed ctx exchange_id buyer carried s d s'
Handed-outside ctx exchange_id buyer none s w d s' h = h
Handed-outside ctx exchange_id buyer (some (option, data_)) s w d s' h = h

module _ {W : Type 0} (platform : Platform) (ctx : HandlerContext W) (input : CommitHandlerInput)
    (route : Route) where
  hand_over_to_lem :
      (found : Option (RedeemFulfillmentChannel W)) (pending : FulfillmentRecoveryEntry)
      (s : ServerState W)
      → pending.phase ≡ Phase.commit
      → Kept pending.exchange_id s (hand_over_to platform ctx input route found pending s).1
        × HandedTo found pending.exchange_id pending
            (hand_over_to platform ctx input route found pending s).0
            (hand_over_to platform ctx input route found pending s).1.recovery
  unfolding hand_over_to set_recovery
  hand_over_to_lem none pending s p = (
    Kept-trans pending.exchange_id s (set_recovery pending.exchange_id pending s) _
        (set_recovery-Kept pending.exchange_id s pending)
        (set_recovery-Kept pending.exchange_id (set_recovery pending.exchange_id pending s) _),
    record {
      entry = record pending { error = some "no channel adapter is registered" };
      recorded = get-put_self _ pending.exchange_id _;
      option = refl;
      data_ = refl;
      redeemer = refl;
      is_phase = p;
      warning = record {
        code = WarningCode.fulfillment_commit_deferred;
        error = "no channel adapter is registered";
      };
      only = refl;
      is_code = refl;
      error = refl;
      undelivered = refl;
    },
  )
  hand_over_to_lem (some channel) pending s p =
      hand_over_lem ctx.now ctx.base64 channel pending.exchange_id
        WarningCode.fulfillment_commit_deferred pending s p

  hand_over_carried_lem :
      (exchange_id buyer : String) (carried : Option (String × Option Fields)) (s : ServerState W)
      → Handed ctx exchange_id buyer carried s
          (hand_over_carried platform ctx input route exchange_id buyer carried s).0
          (hand_over_carried platform ctx input route exchange_id buyer carried s).1
  unfolding hand_over_carried
  hand_over_carried_lem exchange_id buyer none s = (refl, refl, refl)
  hand_over_carried_lem exchange_id buyer (some (option, data_)) s =
      let at = ctx.now s.outside in
      let (kept, handed) =
        hand_over_to_lem (channel_by_id (channels_of ctx) option)
          (pending_entry exchange_id option data_ buyer at) s refl in
      (at, kept.options, kept.others, handed)

module _ {W : Type 0} (platform : Platform) (ctx : HandlerContext W)
    (input : CommitHandlerInput) where
  -- When the handler of the deferred commit answers 200, the option store holds the ids of the
  -- advertised options for the new exchange, the recovery store is as it was, and there is neither
  -- a warning nor a delivery.
  handle_commit-options :
      (s s' : ServerState W) (body : CommitOk)
      → handle_commit platform ctx input s ≡ (returned (ok body), s')
      → (get s'.options body.exchange_id
          ≡ some (map (λ o. o.id) (advertised_options input.requirements.fulfillment)))
        × (s'.recovery ≡ s.recovery)
        × (body.warnings ≡ [])
        × (body.fulfillment ≡ none)
  unfolding handle_commit record_commit hand_over_carried set_options
  handle_commit-options s s' body h =
      let c = handle_commit_impl-Committed platform ctx input flow_a s s' body h in
      let left = ap (λ z. z.1) (sym c.recorded) in
      let answer = ap (λ z. z.0) (sym c.recorded) in
      (
        ap (λ z. get z.options body.exchange_id) left ∙ get-put_self s.options body.exchange_id _,
        ap (λ z. z.recovery) left,
        ap (λ z. z.warnings) answer,
        ap (λ z. z.delivery) answer,
      )

  -- When the handler of the atomic commit answers 200, the option store and the recovery entries of
  -- the other exchanges are as they were; if the payload carries data for an option, its delivery is
  -- either done, without a warning or a recovery entry, or owed, with one warning and an entry to
  -- replay, also where no channel is registered; if it carries none, there is no warning and the
  -- recovery store is as it was.
  pub handle_commit_and_redeem-Handed :
      (s s' : ServerState W) (body : CommitOk)
      → handle_commit_and_redeem platform ctx input s ≡ (returned (ok body), s')
      → (payload : EscrowPaymentPayload) × (decode_x_payment_header platform input.payment_header
          ≡ decoded payload)
        × Handed ctx body.exchange_id payload.payload.buyer
            (carried_by payload.fulfillment)
            s
            (record { warnings = body.warnings; delivery = body.fulfillment })
            s'
  unfolding handle_commit_and_redeem record_commit
  handle_commit_and_redeem-Handed s s' body h =
      let c = handle_commit_impl-Committed platform ctx input flow_b s s' body h in
      (
        c.payload,
        c.is_payload,
        Handed-outside ctx body.exchange_id c.payload.payload.buyer
            (carried_by c.payload.fulfillment) s c.final _ s'
            (subst
              (λ z.
                Handed ctx body.exchange_id c.payload.payload.buyer
                  (carried_by c.payload.fulfillment) (record s { outside = c.final }) z.0 z.1)
              c.recorded
              (hand_over_carried_lem platform ctx input flow_b body.exchange_id
                c.payload.payload.buyer (carried_by c.payload.fulfillment)
                (record s { outside = c.final }))),
      )
