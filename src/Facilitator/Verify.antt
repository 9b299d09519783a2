-- ===== src/Facilitator/Verify.antt =====
-- verify/index.ts: `verify`, the checks on a payment before it is settled.
pub mod Structure
pub mod Verified
pub mod Samples
pub mod Tests
use x402b.Prelude.{
  ℕ, String, Option, none, some, Bool, true, false, not, includes, get, string_eq, same_text, ◌==◌,
  if◌then◌else◌,
}
use x402b.Effects.{Eff, Outcome, returned, thrown}
use x402b.Wire.{TokenAuthStrategy, BosonTokenAuth}
use x402b.Facilitator.{
  FacilitatorErrorCode, network_mismatch, invalid_payload, FacilitatorVerifyInput, StepResult, ok,
  rejected,
}
use x402b.Facilitator.Config.{
  FacilitatorConfig, reject_if, ◌followed_by◌, after_step, ◌then_step◌, caught,
}
use x402b.Facilitator.Structural.{
  validate_payload_structure, validate_requirements_structure, validate_scheme,
  validate_network_match, validate_action_in_requirements, validate_offer_ref_matches_requirements,
  validate_meta_tx_calldata_matches_requirements, validate_token_auth_strategy_in_requirements,
  parse_chain_id,
}
use x402b.Facilitator.MetaTx.{verify_meta_tx_signature}
use x402b.Facilitator.TokenAuth.{verify_token_auth_signature, VerifyTokenAuthSignatureArgs}
use x402b.Facilitator.Envelope.{simulate_execute_meta_transaction}

-- `config.escrows[network]`, where an empty address is none.
abbrev pub allowlisted : {W : Type 0} → FacilitatorConfig W → String → Option String
allowlisted config network = elim (get config.escrows network) [
  | none ↦ none
  | some escrow ↦ if escrow == "" then none else some escrow
]

module _ {W : Type 0} (config : FacilitatorConfig W) (input : FacilitatorVerifyInput) where
  -- The steps before the chain id, none of which asks the chain.
  unfoldable pub check_structure : StepResult
  check_structure =
      reject_if (not (includes config.supported_networks input.network)) network_mismatch
      followed_by validate_payload_structure input.payload
      followed_by validate_requirements_structure config.libraries input.requirements
      followed_by validate_scheme input.scheme input.payload
      followed_by validate_network_match input.network input.payload input.requirements
      followed_by validate_action_in_requirements input.payload input.requirements
      followed_by validate_offer_ref_matches_requirements config.libraries input.payload
          input.requirements
      followed_by validate_meta_tx_calldata_matches_requirements config.libraries input.payload
          input.requirements
      followed_by validate_token_auth_strategy_in_requirements input.payload input.requirements

  abbrev pub token_auth_args : ℕ → String → VerifyTokenAuthSignatureArgs
  token_auth_args chain_id escrow = record {
    chain_id = chain_id;
    asset = input.requirements.asset;
    amount = input.requirements.amount;
    max_timeout_seconds = input.requirements.max_timeout_seconds;
    buyer = input.payload.payload.buyer;
    escrow_address = escrow;
  }

  -- The token authorisation, unless the strategy is none or there is none.
  abbrev pub check_token_auth :
      ℕ → String → TokenAuthStrategy → Option BosonTokenAuth → Eff W StepResult
  check_token_auth chain_id escrow TokenAuthStrategy.none auth w = (returned ok, w)
  check_token_auth chain_id escrow strategy none w = (returned ok, w)
  check_token_auth chain_id escrow strategy (some auth) w =
      verify_token_auth_signature config.libraries config.public_client
        (token_auth_args chain_id escrow) auth w

  abbrev pub check_meta_tx : ℕ → String → Eff W StepResult
  check_meta_tx chain_id escrow w = (
    verify_meta_tx_signature config.libraries chain_id escrow input.payload.payload.meta_tx
        input.payload.payload.buyer,
    w,
  )

  abbrev pub simulate : String → String → Eff W StepResult
  simulate relayer escrow =
      simulate_execute_meta_transaction config.libraries config.public_client relayer escrow
        input.payload.payload.buyer input.payload.payload.meta_tx input.payload.payload.action
        input.payload.payload.token_auth_strategy input.payload.payload.token_auth

  abbrev pub check_payment_auth : ℕ → String → Eff W StepResult
  check_payment_auth chain_id escrow =
      check_token_auth chain_id escrow input.payload.payload.token_auth_strategy
        input.payload.payload.token_auth

  -- The signatures and the simulation, at the canonical escrow.
  unfoldable pub check_at : ℕ → String → String → Eff W StepResult
  unfolding verify_meta_tx_signature verify_token_auth_signature simulate_execute_meta_transaction
  check_at chain_id relayer escrow =
      check_meta_tx chain_id escrow
      then_step check_payment_auth chain_id escrow
      then_step simulate relayer escrow

  abbrev pub with_escrow : ℕ → String → Option String → Eff W StepResult
  with_escrow chain_id relayer none w = (returned (rejected network_mismatch), w)
  with_escrow chain_id relayer (some escrow) w =
      if same_text input.requirements.escrow_address escrow
      then check_at chain_id relayer escrow w
      else (returned (rejected invalid_payload), w)

  abbrev pub with_relayer : ℕ → Option String → Eff W StepResult
  with_relayer chain_id none w = (returned (rejected FacilitatorErrorCode.internal_error), w)
  with_relayer chain_id (some relayer) w =
      with_escrow chain_id relayer (allowlisted config input.network) w

  abbrev pub with_chain : Option ℕ → Eff W StepResult
  with_chain none w = (returned (rejected network_mismatch), w)
  with_chain (some chain_id) w = with_relayer chain_id config.wallet_client.account w

  abbrev pub check_all : Eff W StepResult
  check_all w = after_step (returned check_structure) (with_chain (parse_chain_id input.network)) w

  -- What is thrown within is a result too, so `verify` does not throw.
  unfoldable pub verify : W → StepResult × W
  unfolding check_structure check_at
  verify w = (caught (check_all w).0, (check_all w).1)
