-- ===== src/Server/Perform.antt =====
-- handlers/perform-action.ts: the handlers of the exchange-keyed actions, and of redeem.
pub mod Redeem
pub mod Confirmed
pub mod Refused
pub mod Redeemed
mod Tests
use x402b.Prelude.{
  ℕ, String, Option, none, some, Bool, true, false, not, ◌&&◌, List, [], ◌∷◌, ◌++◌, get, find?,
  includes, ◌==◌, string_eq, if◌then◌else◌,
}
use x402b.Json.{Fields}
use x402b.Machine.{
  ExchangeActionId, ExchangeState, PlainState, DisputeState, ActionId, on_exchange, ActionPostState,
  action_post_state, exchange_state,
}
use x402b.Wire.{EnvelopeState, EscrowNextActions}
use x402b.Effects.{
  value, error, Raised, http_error, Eff, Outcome, returned, thrown, pure, throw, ◌>>=◌, continue,
}
use x402b.Facilitator.{
  FacilitatorErrorCode, FacilitatorPerformActionInput, FacilitatorPerformActionResult, exchange_ok,
  entity_ok,
}
use x402b.Server.Exchange.{
  exchange_not_found, ExchangeSnapshot, VerifyExchangeExpected, VerifyExchangeResult,
  verify_exchange, default_options,
}
use x402b.Server.Endpoints.{emit_next_actions}
use x402b.Server.Payload.{Validation, valid, invalid}
use x402b.Server.State.{
  HandlerContext, HandlerCode, HandlerResult, ok, err, HandlerWarning, SerializedFulfillmentResult,
  RedeemFulfillmentChannel, ServerState, outside, delete_options, WarningCode,
}
use x402b.Server.Delivery.{Delivered, pending_entry, hand_over}

pub record PerformActionInput : Type 0 where
  pub exchange_id : String
  pub signed_payload : String

-- `result.ok`, for the client's result of either kind: its transaction.
abbrev pub tx_of : FacilitatorPerformActionResult → Option String
tx_of (exchange_ok tx_hash state dispute) = some tx_hash
tx_of (entity_ok tx_hash) = some tx_hash
tx_of (FacilitatorPerformActionResult.rejected code) = none

-- The body of an answer 200.
pub record PerformActionOk : Type 0 where
  pub tx_hash : String
  pub next_actions : EscrowNextActions
  pub warnings : List HandlerWarning
  pub fulfillment : Option SerializedFulfillmentResult

-- The envelope that the handler asks for; none is a DISPUTED post-state without a dispute state.
abbrev pub plain_state : ExchangeState → Option PlainState
plain_state ExchangeState.cancelled = some PlainState.cancelled
plain_state ExchangeState.committed = some PlainState.committed
plain_state ExchangeState.completed = some PlainState.completed
plain_state ExchangeState.redeemed = some PlainState.redeemed
plain_state ExchangeState.revoked = some PlainState.revoked
plain_state ExchangeState.disputed = none

abbrev pub envelope_state : ActionPostState → Option EnvelopeState
envelope_state post = elim (plain_state post.exchange) [
  | some p ↦ some (EnvelopeState.plain p)
  | none ↦ elim post.dispute [ none ↦ none | some d ↦ some (EnvelopeState.disputed d) ]
]

abbrev or_throw : Option EscrowNextActions → Outcome EscrowNextActions
or_throw none = thrown (error "No usable channel configured")
or_throw (some next) = returned next

-- `if (e instanceof FacilitatorHttpError) return handlerErr(502, "FACILITATOR_UNREACHABLE", …)`, and
-- any other error is thrown on.
abbrev pub unreachable : {W A : Type 0} → Raised → Eff W (HandlerResult A)
unreachable (http_error code message status facilitator_code) =
    pure (err 502 HandlerCode.facilitator_unreachable)
unreachable (error message) = throw (error message)
unreachable (value text) = throw (value text)

module _ {W : Type 0} (ctx : HandlerContext W) where
  unfoldable pub next_actions_for : String → Option EnvelopeState → Outcome EscrowNextActions
  unfolding emit_next_actions
  next_actions_for exchange_id none = thrown (error "No usable channel configured")
  next_actions_for exchange_id (some state) = or_throw (
      emit_next_actions exchange_id state ctx.config.channel_registry
        (some ctx.config.facilitator_url))

  abbrev pub expected_after : ActionPostState → ExchangeSnapshot → VerifyExchangeExpected
  expected_after post reference = record {
    state = post.exchange;
    dispute_state = post.dispute;
    seller = reference.seller;
    exchange_token = reference.exchange_token;
    price = reference.price;
  }

  -- The end of the handler.
  abbrev pub answer_next :
      String → Outcome EscrowNextActions → Eff W (HandlerResult PerformActionOk)
  answer_next tx_hash (thrown e) = throw e
  answer_next tx_hash (returned next) =
      pure
        (ok (record { tx_hash = tx_hash; next_actions = next; warnings = []; fulfillment = none }))

  module _ (action : ExchangeActionId) (input : PerformActionInput) where
    abbrev pub answer_verified :
        String → VerifyExchangeResult → Eff W (HandlerResult PerformActionOk)
    answer_verified tx_hash (VerifyExchangeResult.fail code) =
        pure (err 502 (HandlerCode.state_verify code))
    answer_verified tx_hash VerifyExchangeResult.ok =
        answer_next tx_hash
          (next_actions_for input.exchange_id (envelope_state (action_post_state action)))

    abbrev pub answer_performed :
        ExchangeSnapshot → Option String → Eff W (HandlerResult PerformActionOk)
    answer_performed reference none = pure (err 502 HandlerCode.facilitator_rejected)
    answer_performed reference (some tx_hash) =
        verify_exchange ctx.exchange_reader input.exchange_id
          (expected_after (action_post_state action) reference) default_options
        >>= answer_verified tx_hash

    abbrev pub request : FacilitatorPerformActionInput
    request = record {
      network = ctx.config.network;
      escrow_address = ctx.config.escrow;
      action = on_exchange action;
      key = input.exchange_id;
      signed_payload = input.signed_payload;
      token_auth_strategy = none;
      token_auth = none;
      asset = none;
      amount = none;
      max_timeout_seconds = none;
    }

    -- The `try` around the facilitator's call, with what follows it.
    abbrev pub after_call :
        ExchangeSnapshot
        → Outcome FacilitatorPerformActionResult
        → Eff W (HandlerResult PerformActionOk)
    after_call reference (thrown e) = unreachable e
    after_call reference (returned result) = answer_performed reference (tx_of result)

    abbrev pub after_read : Option ExchangeSnapshot → Eff W (HandlerResult PerformActionOk)
    after_read none w = pure (err 502 (HandlerCode.state_verify exchange_not_found)) w
    after_read (some reference) w =
        let (o, w') = ctx.facilitator.perform_action request w in after_call reference o w'

    unfoldable pub handle_perform_action : Eff W (HandlerResult PerformActionOk)
    unfolding action_post_state verify_exchange next_actions_for
    handle_perform_action = ctx.exchange_reader.read input.exchange_id >>= after_read
