-- ===== src/Facilitator.antt =====
-- The facilitator: typescript/packages/facilitator/src. Its results, types.ts. The human-readable
-- `reason` of a rejection is left out.
pub mod Config
pub mod Structural
pub mod Hex
pub mod MetaTx
pub mod TokenAuth
pub mod Envelope
pub mod Verify
pub mod Settle
pub mod Calldata
pub mod Perform
use x402b.Prelude.{ℕ, String, Option}
use x402b.Machine.{ActionId, ExchangeState, DisputeState}
use x402b.Wire.{TokenAuthStrategy, BosonTokenAuth, EscrowPaymentPayload, EscrowPaymentRequirements}

pub data FacilitatorErrorCode : Type 0 where
  invalid_payload scheme_mismatch network_mismatch bad_meta_tx_signature : FacilitatorErrorCode
  bad_token_auth_signature unsupported_action : FacilitatorErrorCode
  unsupported_token_auth_strategy action_not_in_requirements : FacilitatorErrorCode
  token_auth_not_in_requirements simulation_revert : FacilitatorErrorCode
  insufficient_funds_for_gas onchain_revert event_not_found internal_error : FacilitatorErrorCode

pub record FacilitatorSettleInput : Type 0 where
  pub scheme : String
  pub network : String
  pub payload : EscrowPaymentPayload
  pub requirements : EscrowPaymentRequirements

pub data FacilitatorSettleResult : Type 0 where
  settled : (exchange_id tx_hash : String) → FacilitatorSettleResult
  rejected : FacilitatorErrorCode → FacilitatorSettleResult

-- `key` is the exchange id of an exchange-keyed action and the entity id of an entity-keyed one.
pub record FacilitatorPerformActionInput : Type 0 where
  pub network : String
  pub escrow_address : String
  pub action : ActionId
  pub key : String
  pub signed_payload : String
  pub token_auth_strategy : Option TokenAuthStrategy
  pub token_auth : Option BosonTokenAuth
  pub asset : Option String
  pub amount : Option String
  pub max_timeout_seconds : Option ℕ

pub data FacilitatorPerformActionResult : Type 0 where
  exchange_ok :
      (tx_hash : String) → ExchangeState → Option DisputeState → FacilitatorPerformActionResult
  entity_ok : (tx_hash : String) → FacilitatorPerformActionResult
  rejected : FacilitatorErrorCode → FacilitatorPerformActionResult

-- The bodies of `/verify` and `/settle` are the same.
abbrev pub FacilitatorVerifyInput : Type 0
FacilitatorVerifyInput = FacilitatorSettleInput

-- `StepResult`, which is also `FacilitatorVerifyResult`.
pub data StepResult : Type 0 where
  ok : StepResult
  rejected : FacilitatorErrorCode → StepResult
