-- ===== src/Client/Withdraw/Tests.antt =====
-- A seller with two tokens, one of which is spent.
use x402b.Prelude.{ℕ, suc, String, [], ◌∷◌, none, ◌≡◌, ◌↔◌, refl}
use x402b.Effects.{returned, pure}
use x402b.Server.Entity.{Role, found, CoreSdkReadAdapter, CoreSdkFundsEntity, resolve_entity_id}
use x402b.Client.Signed.{meta_tx_of}
use x402b.Client.Withdraw.{
  WithdrawDeps, WithdrawCoreSdk, SignWithdrawAllArgs, SignedWithdrawFunds, by_address,
  resolve_entity_id_client_side, sign_withdraw_all_available_funds,
}
use x402b.Client.Withdraw.Resolved.{resolve_entity_id_client_side_iff}
use x402b.Client.Withdraw.Emptied.{Emptied, sign_withdraw_all_available_funds-Emptied}
use x402b.Facilitator.Structural.{parse_chain_id as parse_network}

abbrev funds : String → String → CoreSdkFundsEntity
funds token amount = record {
  token_address = token;
  symbol = "COIN";
  name = "Coin";
  decimals = "6";
  available_amount = amount;
}

abbrev reader : CoreSdkReadAdapter ℕ
reader = record {
  get_funds = λ account. pure (funds "0xA5" "100" ∷ funds "0xB6" "0" ∷ []);
  get_sellers_by_address = λ address. pure ("4" ∷ []);
  get_buyers = λ address. pure [];
}

abbrev sdk : WithdrawCoreSdk ℕ
sdk = record {
  reader = reader;
  sign_withdraw_funds = λ nonce entity_id tokens amounts. pure (record {
    function_name = "withdrawFunds";
    function_signature = "0x12";
    r = "0x01";
    s = "0x02";
    v = 27;
  });
}

abbrev deps : WithdrawDeps ℕ
deps = record {
  core_sdk = λ escrow chain_id. sdk;
  get_address = pure "0x5E";
  random_uint256 = λ n. (n, suc n);
  to_text = λ n. "7";
  trim = λ text. text;
  big_int = λ text. returned 100;
  encode_signed_payload = λ meta_tx. "0xE0";
}

abbrev everything : SignWithdrawAllArgs
everything = record {
  selector = by_address "0x5E" none;
  network = "eip155:1";
  escrow_address = "0xD1";
}

abbrev withdrawal : SignedWithdrawFunds
withdrawal = record {
  meta_tx = meta_tx_of deps.to_text "0x5E" 0 (record {
    function_name = "withdrawFunds";
    function_signature = "0x12";
    r = "0x01";
    s = "0x02";
    v = 27;
  });
  signed_payload = "0xE0";
  entity_id = "4";
  token_list = "0xA5" ∷ [];
  token_amounts = "100" ∷ [];
}

withdraws : sign_withdraw_all_available_funds deps everything 0 ≡ (returned withdrawal, 1)
unfolding sign_withdraw_all_available_funds parse_network
withdraws = refl

sign_withdraw_all_available_funds-Emptied_example : Emptied deps everything withdrawal
sign_withdraw_all_available_funds-Emptied_example =
    sign_withdraw_all_available_funds-Emptied deps everything 0 1 withdrawal withdraws

resolve_entity_id_client_side_iff_example :
    (((resolve_entity_id_client_side deps reader (by_address "0x5E" none) 0).0 ≡ returned "4")
      ↔ ((r : Role) × ((resolve_entity_id reader "0x5E" none 0).0 ≡ found "4" r)))
    × ((resolve_entity_id_client_side deps reader (by_address "0x5E" none) 0).1
        ≡ (resolve_entity_id reader "0x5E" none 0).1)
resolve_entity_id_client_side_iff_example =
    resolve_entity_id_client_side_iff deps reader "0x5E" none 0 "4"
