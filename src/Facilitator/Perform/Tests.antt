-- ===== src/Facilitator/Perform/Tests.antt =====
-- A redeem that is relayed, one whose key is another's, and the theorems there.
use x402b.Prelude.{String, none, some, ◌≡◌, ◌↔◌, refl}
use x402b.Machine.{on_exchange, ExchangeActionId, ExchangeState}
use x402b.Facilitator.{
  FacilitatorPerformActionInput, FacilitatorPerformActionResult, exchange_ok, invalid_payload, ok,
}
use x402b.Facilitator.Calldata.{
  post_commit_exchange_function, validate_perform_exchange_action_meta_tx,
}
use x402b.Facilitator.Calldata.Matching.{Calls, validate_perform_exchange_iff}
use x402b.Facilitator.Verify.Samples.{facilitator, libraries, redeem_12, diamond}
use x402b.Facilitator.Perform.{perform_action, derive_new_state}
use x402b.Facilitator.Perform.Performed.{Performed, perform_action-Performed}

abbrev redeeming : String → FacilitatorPerformActionInput
redeeming key = record {
  network = "eip155:1";
  escrow_address = diamond;
  action = on_exchange ExchangeActionId.redeem;
  key = key;
  signed_payload = "0x99";
  token_auth_strategy = none;
  token_auth = none;
  asset = none;
  amount = none;
  max_timeout_seconds = none;
}

performed :
    (perform_action facilitator (redeeming "12") 0
      ≡ (exchange_ok "0x78" ExchangeState.redeemed none, 1))
    × (perform_action facilitator (redeeming "13") 0
        ≡ (FacilitatorPerformActionResult.rejected invalid_payload, 0))
unfolding perform_action validate_perform_exchange_action_meta_tx derive_new_state
    x402b.Prelude.same_text
performed = (refl, refl)

perform_action-Performed_example :
    Performed facilitator (redeeming "12") 0 "0x78" 1
    × (exchange_ok "0x78" ExchangeState.redeemed none
        ≡ derive_new_state facilitator
            (redeeming "12")
            (on_exchange ExchangeActionId.redeem)
            "0x78")
perform_action-Performed_example =
    perform_action-Performed facilitator (redeeming "12") 0
      (exchange_ok "0x78" ExchangeState.redeemed none) "0x78" 1 performed.0 refl

validate_perform_exchange_iff_example :
    (validate_perform_exchange_action_meta_tx libraries
        (on_exchange ExchangeActionId.redeem)
        "12"
        redeem_12
      ≡ ok)
    ↔ Calls libraries
        (post_commit_exchange_function (on_exchange ExchangeActionId.redeem))
        "12"
        redeem_12
validate_perform_exchange_iff_example =
    validate_perform_exchange_iff libraries (on_exchange ExchangeActionId.redeem) "12" redeem_12
