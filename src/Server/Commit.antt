-- ===== src/Server/Commit.antt =====
-- handlers/commit-and-redeem.ts: the two commit handlers.
pub mod Committed
pub mod Recorded
mod Tests
use x402b.Prelude.{
  ℕ, String, Option, none, some, Bool, true, false, not, List, [], ◌∷◌, map, ◌==◌, ◌!=◌, string_eq,
  if◌then◌else◌,
}
use x402b.Json.{Fields}
use x402b.Machine.{
  ExchangeActionId, exchange_action_name, ExchangeState, state_eq, PlainState, exchange_state,
}
use x402b.Wire.{
  EnvelopeState, EscrowNextActions, EscrowPaymentPayload, EscrowPaymentRequirements,
  CarriedFulfillment, FulfillmentRequirements,
}
use x402b.Effects.{Eff, Outcome, returned, thrown, pure, ◌>>=◌, error_message}
use x402b.Facilitator.{FacilitatorSettleInput, FacilitatorSettleResult, settled}
use x402b.Server.Exchange.{
  VerifyExchangeExpected, VerifyExchangeResult, verify_exchange, default_options,
}
use x402b.Server.Payload.{
  Validation, valid, invalid, ValidatePaymentPayloadArgs, ValidatePaymentPayloadResult,
  validate_payment_payload, advertised_options,
}
use x402b.Server.State.{
  HandlerContext, HandlerCode, HandlerResult, ok, err, HandlerWarning, SerializedFulfillmentResult,
  RedeemFulfillmentChannel, FulfillmentRecoveryEntry, ServerState, outside, set_options,
  set_recovery, WarningCode,
}
use x402b.Server.Decode.{
  Platform, DecodeErrorCode, missing_header, invalid_base64, invalid_json, invalid_payload,
  DecodeXPaymentResult, decoded, undecoded, decode_x_payment_header,
}
use x402b.Server.Delivery.{Delivered, deferred, pending_entry, hand_over}
use x402b.Server.Perform.{unreachable, next_actions_for}

pub record CommitHandlerInput : Type 0 where
  pub payment_header : Option String
  pub requirements : EscrowPaymentRequirements

-- `expected`: Flow A or Flow B. Both states are other than DISPUTED.
pub record Route : Type 0 where
  pub expected_action : ExchangeActionId
  pub expected_state : PlainState

abbrev pub flow_a : Route
flow_a = record {
  expected_action = ExchangeActionId.create_offer_and_commit;
  expected_state = PlainState.committed;
}

abbrev pub flow_b : Route
flow_b = record {
  expected_action = ExchangeActionId.create_offer_commit_and_redeem;
  expected_state = PlainState.redeemed;
}

pub record CommitOk : Type 0 where
  pub exchange_id : String
  pub tx_hash : String
  pub next_actions : EscrowNextActions
  pub warnings : List HandlerWarning
  pub fulfillment : Option SerializedFulfillmentResult

-- `channelById.get(option)`, of the map that later channels overwrite.
unfoldable pub channel_by_id :
    {W : Type 0} → List (RedeemFulfillmentChannel W) → String → Option (RedeemFulfillmentChannel W)
channel_by_id [] option = none
channel_by_id (c ∷ cs) option = elim (channel_by_id cs option) [
  | some later ↦ some later
  | none ↦ if c.id == option then some c else none
]

abbrev pub channels_of : {W : Type 0} → HandlerContext W → List (RedeemFulfillmentChannel W)
channels_of ctx = elim ctx.config.fulfillment_channels [ none ↦ [] | some channels ↦ channels ]

-- A thrown error is taken for a refusal.
abbrev caught : Outcome Validation → Validation
caught (returned v) = v
caught (thrown e) = invalid (error_message e)

-- `validateFulfillmentData`; the reason for an unknown option is shortened.
unfoldable pub validate_fulfillment_data :
    {W : Type 0} → List (RedeemFulfillmentChannel W) → String → Option Fields → Validation
unfolding channel_by_id
validate_fulfillment_data channels option data_ = elim (channel_by_id channels option) [
  | none ↦ invalid "no registered channel adapter on this server"
  | some channel ↦ caught (channel.validate data_)
]

abbrev decode_status : DecodeErrorCode → ℕ
decode_status missing_header = 402
decode_status _ = 400

abbrev decode_code : DecodeErrorCode → HandlerCode
decode_code missing_header = HandlerCode.missing_header
decode_code invalid_base64 = HandlerCode.invalid_base64
decode_code invalid_json = HandlerCode.invalid_json
decode_code invalid_payload = HandlerCode.invalid_payload

abbrev pub build_expected_from_requirements :
    EscrowPaymentRequirements → ExchangeState → VerifyExchangeExpected
build_expected_from_requirements requirements state = record {
  state = state;
  dispute_state = none;
  seller = requirements.offer.creator;
  exchange_token = requirements.asset;
  price = requirements.amount;
}

-- What Flow B hands over: the carried option and data, where there are data.
abbrev pub carried_by : Option CarriedFulfillment → Option (String × Option Fields)
carried_by none = none
carried_by (some carried) = elim carried.carried_data [
  | none ↦ none
  | some d ↦ some (carried.option, d)
]

module _ {W : Type 0} (platform : Platform) (ctx : HandlerContext W) (input : CommitHandlerInput)
    (route : Route) where
  abbrev pub is_route_state : PlainState → Bool
  is_route_state state = exchange_state route.expected_state == exchange_state state

  abbrev pub args_for : EscrowPaymentPayload → ℕ → ValidatePaymentPayloadArgs
  args_for payload now_seconds = record {
    payload = payload;
    requirements = input.requirements;
    chain_id = ctx.config.chain_id;
    now = now_seconds;
    validate_fulfillment_data = some (validate_fulfillment_data (channels_of ctx));
  }

  -- The hand-over to the channel that is registered for the option, if one is.
  unfoldable pub hand_over_to :
      Option (RedeemFulfillmentChannel W)
      → FulfillmentRecoveryEntry
      → ServerState W
      → Delivered × ServerState W
  unfolding set_recovery hand_over
  hand_over_to none pending s = (
    deferred WarningCode.fulfillment_commit_deferred "no channel adapter is registered",
    set_recovery pending.exchange_id
        (record pending { error = some "no channel adapter is registered" })
        (set_recovery pending.exchange_id pending s),
  )
  hand_over_to (some channel) pending s =
      hand_over ctx.now ctx.base64 channel pending.exchange_id
        WarningCode.fulfillment_commit_deferred pending s

  unfoldable pub hand_over_carried :
      String → String → Option (String × Option Fields) → ServerState W → Delivered × ServerState W
  unfolding hand_over_to channel_by_id
  hand_over_carried exchange_id buyer none s = (record { warnings = []; delivery = none }, s)
  hand_over_carried exchange_id buyer (some (option, d)) s =
      hand_over_to (channel_by_id (channels_of ctx) option)
        (pending_entry exchange_id option d buyer (ctx.now s.outside)) s

  -- Flow A keeps the advertised option ids; Flow B hands the carried data over.
  unfoldable pub record_commit :
      String → EscrowPaymentPayload → ServerState W → Delivered × ServerState W
  unfolding hand_over_carried set_options
  record_commit exchange_id payload s =
      let s' =
        if is_route_state PlainState.committed
        then set_options exchange_id
            (map (λ option. option.id) (advertised_options input.requirements.fulfillment)) s
        else s in
      hand_over_carried exchange_id payload.payload.buyer
        (if is_route_state PlainState.redeemed then carried_by payload.fulfillment else none) s'

  abbrev pub answer_commit :
      String
      → String
      → Delivered
      → Outcome EscrowNextActions
      → ServerState W
      → Outcome (HandlerResult CommitOk) × ServerState W
  answer_commit exchange_id tx_hash d (thrown e) s = (thrown e, s)
  answer_commit exchange_id tx_hash d (returned next) s = (
    returned (
        ok (record {
          exchange_id = exchange_id;
          tx_hash = tx_hash;
          next_actions = next;
          warnings = d.warnings;
          fulfillment = d.delivery;
        })),
    s,
  )

  -- After the verification of the settled exchange.
  unfoldable pub after_verify :
      EscrowPaymentPayload
      → String
      → String
      → Outcome VerifyExchangeResult
      → ServerState W
      → Outcome (HandlerResult CommitOk) × ServerState W
  unfolding record_commit next_actions_for
  after_verify payload exchange_id tx_hash (thrown e) s = (thrown e, s)
  after_verify payload exchange_id tx_hash (returned (VerifyExchangeResult.fail code)) s =
      (returned (err 502 (HandlerCode.state_verify code)), s)
  after_verify payload exchange_id tx_hash (returned VerifyExchangeResult.ok) s =
      let (d, s') = record_commit exchange_id payload s in
      answer_commit exchange_id tx_hash d
        (next_actions_for ctx exchange_id (some (EnvelopeState.plain route.expected_state))) s'

  -- After the facilitator's call.
  unfoldable pub after_settle :
      EscrowPaymentPayload
      → Outcome FacilitatorSettleResult
      → Eff (ServerState W) (HandlerResult CommitOk)
  unfolding after_verify outside verify_exchange
  after_settle payload (thrown e) s = outside (unreachable e) s
  after_settle payload (returned (FacilitatorSettleResult.rejected code)) s =
      (returned (err 502 HandlerCode.facilitator_rejected), s)
  after_settle payload (returned (settled exchange_id tx_hash)) s =
      let (o, s') =
        outside
          (verify_exchange ctx.exchange_reader exchange_id
            (build_expected_from_requirements input.requirements
              (exchange_state route.expected_state))
            default_options)
          s in
      after_verify payload exchange_id tx_hash o s'

  abbrev pub settle_input : EscrowPaymentPayload → FacilitatorSettleInput
  settle_input payload = record {
    scheme = "escrow";
    network = input.requirements.network;
    payload = payload;
    requirements = input.requirements;
  }

  unfoldable pub after_validate :
      EscrowPaymentPayload
      → ValidatePaymentPayloadResult
      → Eff (ServerState W) (HandlerResult CommitOk)
  unfolding after_settle outside
  after_validate payload (ValidatePaymentPayloadResult.failure f) s =
      (returned (err 400 (HandlerCode.payload_invalid f.code)), s)
  after_validate payload ValidatePaymentPayloadResult.ok s =
      let (o, s') = outside (ctx.facilitator.settle (settle_input payload)) s in
      after_settle payload o s'

  unfoldable pub after_decode :
      (now_seconds : ℕ) → DecodeXPaymentResult → Eff (ServerState W) (HandlerResult CommitOk)
  unfolding after_validate validate_payment_payload validate_fulfillment_data
  after_decode now_seconds (undecoded code) s =
      (returned (err (decode_status code) (decode_code code)), s)
  after_decode now_seconds (decoded payload) s =
      let next =
        after_validate payload (validate_payment_payload ctx.chain (args_for payload now_seconds))
          s in
      if payload.payload.action != exchange_action_name route.expected_action
      then (returned (err 400 HandlerCode.action_route_mismatch), s)
      else next

  -- `handleCommitImpl`; the validation's clock is `Math.floor(Date.now() / 1000)`.
  unfoldable pub handle_commit_impl : Eff (ServerState W) (HandlerResult CommitOk)
  unfolding after_decode decode_x_payment_header
  handle_commit_impl s =
      after_decode (ctx.now_seconds s.outside)
        (decode_x_payment_header platform input.payment_header) s

module _ {W : Type 0} (platform : Platform) (ctx : HandlerContext W)
    (input : CommitHandlerInput) where
  unfoldable pub handle_commit : Eff (ServerState W) (HandlerResult CommitOk)
  unfolding handle_commit_impl
  handle_commit = handle_commit_impl platform ctx input flow_a

  unfoldable pub handle_commit_and_redeem : Eff (ServerState W) (HandlerResult CommitOk)
  unfolding handle_commit_impl
  handle_commit_and_redeem = handle_commit_impl platform ctx input flow_b
