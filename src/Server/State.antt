-- ===== src/Server/State.antt =====
-- config.ts, store.ts, handlers/types.ts: what the handlers are given, what they keep, and what they
-- answer. The stores are maps, whose operations do not fail; everything else, the chain, the
-- facilitator and what the channels keep, is outside the server.
use x402b.Prelude.{ℕ, String, Option, List, Dict, put, remove}
use x402b.Json.{Fields}
use x402b.Actions.{ChannelRegistry}
use x402b.Effects.{Eff, Outcome, focus}
use x402b.Facilitator.{
  FacilitatorSettleInput, FacilitatorSettleResult, FacilitatorPerformActionInput,
  FacilitatorPerformActionResult,
}
use x402b.Server.Exchange.{ExchangeReader, VerifyExchangeErrorCode}
use x402b.Server.Payload.{Validation, ValidationErrorCode, Chain}

pub data FulfillmentResult : Type 0 where
  inline : (body : List ℕ) → (content_type : String) → FulfillmentResult
  async : (pointer : Option String) → FulfillmentResult

pub data SerializedFulfillmentResult : Type 0 where
  inline : (body content_type : String) → SerializedFulfillmentResult
  async : (pointer : Option String) → SerializedFulfillmentResult

-- `serializeFulfillmentResult`, given the base64 encoding.
unfoldable pub serialize_fulfillment_result :
    (List ℕ → String) → FulfillmentResult → SerializedFulfillmentResult
serialize_fulfillment_result base64 (FulfillmentResult.inline body content_type) =
    SerializedFulfillmentResult.inline (base64 body) content_type
serialize_fulfillment_result base64 (FulfillmentResult.async pointer) =
    SerializedFulfillmentResult.async pointer

pub record RedeemFulfillmentChannel (W : Type 0) : Type 0 where
  pub id : String
  pub validate : Option Fields → Outcome Validation
  pub on_commit : String → Option Fields → Eff W (Unit {0})
  pub on_fulfill : Option (String → Eff W FulfillmentResult)

pub data Phase : Type 0 where
  commit delivery : Phase

pub record FulfillmentRecoveryEntry : Type 0 where
  pub exchange_id : String
  pub option : String
  pub data_ : Option Fields
  pub redeemer : String
  pub recorded_at : ℕ
  pub phase : Phase
  pub error : Option String

pub record ServerState (W : Type 0) : Type 0 where
  pub outside : W
  pub recovery : Dict FulfillmentRecoveryEntry
  pub options : Dict (List String)

pub record FacilitatorClient (W : Type 0) : Type 0 where
  pub settle : FacilitatorSettleInput → Eff W FacilitatorSettleResult
  pub perform_action : FacilitatorPerformActionInput → Eff W FacilitatorPerformActionResult

pub record X402bServerConfig (W : Type 0) : Type 0 where
  pub network : String
  pub chain_id : ℕ
  pub escrow : String
  pub facilitator_url : String
  pub channel_registry : ChannelRegistry
  pub fulfillment_channels : Option (List (RedeemFulfillmentChannel W))

-- `now` is `Date.now()`, in milliseconds, and `now_seconds` is that in seconds; the decoders and the base64 encoding are those of viem and the platform.
pub record HandlerContext (W : Type 0) : Type 0 where
  pub config : X402bServerConfig W
  pub facilitator : FacilitatorClient W
  pub exchange_reader : ExchangeReader W
  pub chain : Chain
  pub now : W → ℕ
  pub now_seconds : W → ℕ
  pub base64 : List ℕ → String
  pub signer_of_payload : String → Outcome String

pub data HandlerCode : Type 0 where
  state_verify : VerifyExchangeErrorCode → HandlerCode
  facilitator_unreachable facilitator_rejected signed_payload_decode_failed : HandlerCode
  fulfillment_option_not_advertised fulfillment_channels_not_configured : HandlerCode
  fulfillment_option_unknown fulfillment_data_invalid : HandlerCode
  missing_header invalid_base64 invalid_json invalid_payload : HandlerCode
  action_route_mismatch : HandlerCode
  payload_invalid : ValidationErrorCode → HandlerCode
  invalid_entity_id invalid_address not_found ambiguous subgraph_failure : HandlerCode

pub data WarningCode : Type 0 where
  fulfillment_update_deferred fulfillment_commit_deferred : WarningCode
  fulfillment_delivery_deferred : WarningCode

pub record HandlerWarning : Type 0 where
  pub code : WarningCode
  pub error : String

pub data HandlerResult (A : Type 0) : Type 0 where
  ok : A → HandlerResult A
  err : (status : ℕ) → HandlerCode → HandlerResult A

module _ {W A : Type 0} where
  -- An effect outside the stores.
  unfoldable pub outside : Eff W A → Eff (ServerState W) A
  outside m = focus (λ s. s.outside) (λ w s. record s { outside = w }) m

module _ {W : Type 0} where
  unfoldable pub set_recovery : String → FulfillmentRecoveryEntry → ServerState W → ServerState W
  set_recovery exchange_id entry s = record s { recovery = put s.recovery exchange_id entry }

  unfoldable pub delete_recovery : String → ServerState W → ServerState W
  delete_recovery exchange_id s = record s { recovery = remove s.recovery exchange_id }

  unfoldable pub set_options : String → List String → ServerState W → ServerState W
  set_options exchange_id ids s = record s { options = put s.options exchange_id ids }

  unfoldable pub delete_options : String → ServerState W → ServerState W
  delete_options exchange_id s = record s { options = remove s.options exchange_id }
