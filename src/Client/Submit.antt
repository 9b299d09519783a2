-- ===== src/Client/Submit.antt =====
-- submit.ts: a signed action is posted to the advertised HTTP channels in turn. A transport stands for
-- `fetch` with its timer; a body that is no JSON is null, as the code has it.
pub mod Replies
pub mod Tried
pub mod Order
mod Tests
use x402b.Prelude.{
  ℕ, String, List, [], ◌∷◌, ◌++◌, Option, none, some, Bool, true, false, ◌&&◌, ◌==◌, string_eq,
  nat_beq, leb, if◌then◌else◌, includes, Eq, get, ◌≡◌, ◌↔◌, arith, refl,
}
use x402b.Machine.{ExchangeState, DisputeState}
use x402b.Json.{Json, Fields}
use x402b.Wire.{ActionChannel, NextAction}
use x402b.Wire.Patterns.{is_hex32}
use x402b.Client.{FulfillmentConfig}
use x402b.Server.HttpClient.{field_of, is_bool}

pub data SubmitChannel : Type 0 where
  server facilitator : SubmitChannel

abbrev pub same_channel : SubmitChannel → SubmitChannel → Bool
same_channel server server = true
same_channel facilitator facilitator = true
same_channel a b = false

pub same_channel_iff : (a b : SubmitChannel) → (same_channel a b ≡ true) ↔ (a ≡ b)
same_channel_iff server server = (λ h. refl, λ h. refl)
same_channel_iff facilitator facilitator = (λ h. refl, λ h. refl)
same_channel_iff server facilitator = (λ h. cc, λ h. cc)
same_channel_iff facilitator server = (λ h. cc, λ h. cc)

instance abbrev pub submit_channel_eq : Eq SubmitChannel
submit_channel_eq = record { beq = same_channel; beq_iff = same_channel_iff }

pub data ChannelFailureReason : Type 0 where
  server_error client_error network timeout no_endpoint invalid_response : ChannelFailureReason

pub data ChannelAttempt : Type 0 where
  accepted : SubmitChannel → (status : ℕ) → ChannelAttempt
  refused : SubmitChannel → ChannelFailureReason → (status : Option ℕ) → ChannelAttempt

pub record SubmitArgs : Type 0 where
  pub action : NextAction
  pub signed_payload : String
  pub exchange_id : String
  pub network : String
  pub escrow_address : String
  pub fulfillment : Option FulfillmentConfig

-- What a channel answers with; `next_actions` is handed on as it is.
pub record ChannelResult : Type 0 where
  pub tx_hash : String
  pub new_exchange_state : ExchangeState
  pub new_dispute_state : Option DisputeState
  pub next_actions : Option Json

-- The result, or one of the two errors.
pub data SubmitResult : Type 0 where
  submitted : ChannelResult → (channel_used : SubmitChannel) → List ChannelAttempt → SubmitResult
  no_compatible_channel : SubmitResult
  all_channels_failed : List ChannelAttempt → SubmitResult

pub data SubmitReply : Type 0 where
  failed : (timed_out : Bool) → SubmitReply
  response : (is_ok : Bool) (status : ℕ) (body : Json) → SubmitReply

-- The value of an enumeration that a text is.
pub record States : Type 0 where
  pub exchange_state_of : String → Option ExchangeState
  pub dispute_state_of : String → Option DisputeState

-- What an attempt gives: the record of it, with a result if it is accepted.
pub data AttemptOutcome : Type 0 where
  success : SubmitChannel → (status : ℕ) → ChannelResult → AttemptOutcome
  failure : SubmitChannel → ChannelFailureReason → (status : Option ℕ) → AttemptOutcome

abbrev pub submit_channel : ActionChannel → Option SubmitChannel
submit_channel ActionChannel.server = some server
submit_channel ActionChannel.facilitator = some facilitator
submit_channel c = none

-- The HTTP channels that are not among those before, in order.
abbrev pub ordered_after : List SubmitChannel → List ActionChannel → List SubmitChannel
ordered_after out [] = out
ordered_after out (c ∷ channels) =
    ordered_after
      (elim (submit_channel c) [
        | none ↦ out
        | some s ↦ if includes out s then out else out ++ (s ∷ [])
      ])
      channels

unfoldable pub ordered_channels : NextAction → List SubmitChannel
ordered_channels action = ordered_after [] action.channels

abbrev pub channel_key : SubmitChannel → String
channel_key server = "server"
channel_key facilitator = "facilitator"

-- `action.endpoints?.[channel]`
abbrev pub endpoint_of : NextAction → SubmitChannel → Option String
endpoint_of action channel = elim action.endpoints [
  | none ↦ none
  | some endpoints ↦ get endpoints (channel_key channel)
]

abbrev json_of : Option Fields → Json
json_of none = Json.null
json_of (some f) = Json.obj f

abbrev fulfillment_field : Bool → Option FulfillmentConfig → Fields
fulfillment_field true (some f) =
    Fields.field "fulfillment"
      (Json.obj (
        Fields.field "option" (Json.str f.option)
          (Fields.field "data" (json_of f.chosen_data) Fields.end)))
      Fields.end
fulfillment_field is_redeem f = Fields.end

abbrev pub build_server_body : SubmitArgs → Json
build_server_body args = Json.obj (
    Fields.field "exchangeId" (Json.str args.exchange_id) (
      Fields.field "signedPayload" (Json.str args.signed_payload)
        (fulfillment_field (args.action.id == "boson-redeem") args.fulfillment)))

abbrev pub build_facilitator_body : SubmitArgs → Json
build_facilitator_body args = Json.obj (
    Fields.field "action" (Json.str args.action.id) (
      Fields.field "exchangeId" (Json.str args.exchange_id) (
        Fields.field "network" (Json.str args.network) (
          Fields.field "escrowAddress" (Json.str args.escrow_address)
            (Fields.field "signedPayload" (Json.str args.signed_payload) Fields.end)))))

abbrev pub body_for : SubmitChannel → SubmitArgs → Json
body_for server args = build_server_body args
body_for facilitator args = build_facilitator_body args

-- `isHexHash`
abbrev pub hash_in : Option Json → Option String
hash_in (some (Json.str s)) = if is_hex32 s then some s else none
hash_in v = none

abbrev pub text_in : {A : Type 0} → (String → Option A) → Option Json → Option A
text_in f (some (Json.str s)) = f s
text_in f v = none

abbrev pub fields_or_none : Option Json → Json
fields_or_none none = Json.null
fields_or_none (some v) = v

abbrev pub result_of :
    Option String → Option ExchangeState → Option DisputeState → Option Json → Option ChannelResult
result_of (some hash) (some state) dispute next = some (record {
  tx_hash = hash;
  new_exchange_state = state;
  new_dispute_state = dispute;
  next_actions = next;
})
result_of hash state dispute next = none

module _ {W : Type 0} (states : States) (post : (endpoint : String) → Json → W → SubmitReply × W)
    (args : SubmitArgs) where
  unfoldable pub parse_server_result : Json → Option ChannelResult
  unfolding is_hex32
  parse_server_result body =
      let next = fields_or_none (field_of body "nextActions") in
      result_of (hash_in (field_of body "txHash"))
        (text_in states.exchange_state_of (field_of next "exchangeState"))
        (text_in states.dispute_state_of (field_of next "disputeState"))
        (field_of body "nextActions")

  unfoldable pub parse_facilitator_result : Json → Option ChannelResult
  unfolding is_hex32
  parse_facilitator_result body =
      if is_bool true (field_of body "ok")
      then result_of (hash_in (field_of body "txHash"))
          (text_in states.exchange_state_of (field_of body "newExchangeState"))
          (text_in states.dispute_state_of (field_of body "newDisputeState")) none
      else none

  abbrev pub parse_result : SubmitChannel → Json → Option ChannelResult
  parse_result server body = parse_server_result body
  parse_result facilitator body = parse_facilitator_result body

  abbrev pub is_object : Json → Bool
  is_object (Json.obj f) = true
  is_object (Json.arr xs) = true
  is_object v = false

  abbrev pub parsed_or_invalid : SubmitChannel → ℕ → Option ChannelResult → AttemptOutcome
  parsed_or_invalid channel status none = failure channel invalid_response (some status)
  parsed_or_invalid channel status (some r) = success channel status r

  abbrev pub judge : SubmitChannel → SubmitReply → AttemptOutcome
  judge channel (failed true) = failure channel timeout none
  judge channel (failed false) = failure channel network none
  judge channel (response is_ok status body) =
      if leb 500 status
      then failure channel server_error (some status)
      else if is_ok
      then if is_object body
        then parsed_or_invalid channel status (parse_result channel body)
        else failure channel invalid_response (some status)
      else failure channel client_error (some status)

  abbrev pub attempt_at : SubmitChannel → Option String → W → AttemptOutcome × W
  attempt_at channel none w = (failure channel no_endpoint none, w)
  attempt_at channel (some endpoint) w =
      let (reply, w') = post endpoint (body_for channel args) w in (judge channel reply, w')

  unfoldable pub attempt_channel : SubmitChannel → W → AttemptOutcome × W
  unfolding parse_server_result parse_facilitator_result
  attempt_channel channel w = attempt_at channel (endpoint_of args.action channel) w

  -- A 4xx is terminal; other failures leave the rest of the channels.
  abbrev pub decide :
      List ChannelAttempt
      → AttemptOutcome × W
      → (List ChannelAttempt → W → SubmitResult × W)
      → SubmitResult × W
  decide before (success channel status r, w) rest =
      (submitted r channel (before ++ (accepted channel status ∷ [])), w)
  decide before (failure channel client_error status, w) rest =
      (all_channels_failed (before ++ (refused channel client_error status ∷ [])), w)
  decide before (failure channel reason status, w) rest =
      rest (before ++ (refused channel reason status ∷ [])) w

  -- The loop over the channels, after the attempts so far.
  unfoldable pub submit_over : List SubmitChannel → List ChannelAttempt → W → SubmitResult × W
  unfolding attempt_channel
  submit_over [] before w = (all_channels_failed before, w)
  submit_over (channel ∷ channels) before w =
      decide before (attempt_channel channel w) (submit_over channels)

  abbrev pub submit_ordered : List SubmitChannel → W → SubmitResult × W
  submit_ordered [] w = (no_compatible_channel, w)
  submit_ordered (channel ∷ channels) w = submit_over (channel ∷ channels) [] w

  unfoldable pub submit_action : W → SubmitResult × W
  unfolding ordered_channels submit_over
  submit_action w = submit_ordered (ordered_channels args.action) w
