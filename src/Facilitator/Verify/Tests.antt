-- ===== src/Facilitator/Verify/Tests.antt =====
-- A payment that is accepted and one that is not, and the theorems there.
use x402b.Prelude.{◌≡◌, ◌↔◌, refl, same_text}
use x402b.Wire.Schemas.{escrow_payment_payload_schema, escrow_payment_requirements_schema}
use x402b.Server.Payload.{splice}
use x402b.Facilitator.Structural.{
  validate_payload_structure, validate_requirements_structure, validate_scheme,
  validate_network_match, validate_action_in_requirements, validate_offer_ref_matches_requirements,
  validate_meta_tx_calldata_matches_requirements, validate_token_auth_strategy_in_requirements,
  parse_chain_id, sort_json,
}
use x402b.Facilitator.{ok, rejected, bad_token_auth_signature}
use x402b.Facilitator.Verify.{check_structure, verify}
use x402b.Facilitator.Verify.Samples.{facilitator, settling}
use x402b.Facilitator.Verify.Structure.{WellFormed, check_structure_iff}
use x402b.Facilitator.Verify.Verified.{Verified, verify-Verified}

pub verified :
    (verify facilitator (settling 1300) 0 ≡ (ok, 0))
    × (verify facilitator (settling 1301) 0 ≡ (rejected bad_token_auth_signature, 0))
unfolding verify validate_payload_structure escrow_payment_payload_schema
    validate_requirements_structure escrow_payment_requirements_schema validate_scheme
    validate_network_match validate_action_in_requirements validate_offer_ref_matches_requirements
    sort_json same_text validate_meta_tx_calldata_matches_requirements splice
    validate_token_auth_strategy_in_requirements parse_chain_id
verified = (refl, refl)

verify-Verified_example : Verified facilitator (settling 1300) 0 0
verify-Verified_example = verify-Verified facilitator (settling 1300) 0 0 verified.0

check_structure_iff_example :
    (check_structure facilitator (settling 1300) ≡ ok) ↔ WellFormed facilitator (settling 1300)
check_structure_iff_example = check_structure_iff facilitator (settling 1300)
