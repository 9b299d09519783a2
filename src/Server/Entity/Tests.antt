-- ===== src/Server/Entity/Tests.antt =====
-- Addresses that stand for one entity and for two, and the theorem there.
use x402b.Prelude.{String, suc, ℕ, none, some, true, false, [], ◌∷◌, ◌≡◌, ◌↔◌, refl}
use x402b.Effects.{error, thrown, returned}
use x402b.Wire.{ActionChannel}
use x402b.Facilitator.{entity_ok, settled}
use x402b.Server.State.{HandlerContext, ok, err, HandlerCode}
use x402b.Wire.Patterns.{is_decimal_uint, is_address}
use x402b.Server.Entity.{
  by_entity_id, by_address, WithdrawFundsInput, WithdrawFundsOk, handle_withdraw_funds, buyer,
  found, ambiguous, CoreSdkReadAdapter, CoreSdkFundsEntity, resolve_entity_id,
}
use x402b.Server.Entity.Withdrawn.{Withdrawn, handle_withdraw_funds-Withdrawn}
use x402b.Server.Entity.Funds.{handle_get_available_funds}
use x402b.Server.Entity.Unique.{FoundAlone, resolve_entity_id_iff}

abbrev funds_of : String → CoreSdkFundsEntity
funds_of account = record {
  token_address = "0xA5";
  symbol = "COIN";
  name = "Coin";
  decimals = "6";
  available_amount = account;
}

-- Every address is the seller 4 and the buyer 9.
abbrev subgraph : CoreSdkReadAdapter ℕ
subgraph = record {
  get_funds = λ account n. (returned (funds_of account ∷ []), n);
  get_sellers_by_address = λ address n. (returned ("4" ∷ []), n);
  get_buyers = λ address n. (returned ("9" ∷ []), n);
}

resolved :
    (resolve_entity_id subgraph "0xAB" (some buyer) 0 ≡ (found "9" buyer, 0))
    × (resolve_entity_id subgraph "0xAB" none 0
        ≡ (ambiguous (some ("4" ∷ [])) (some ("9" ∷ [])), 0))
unfolding resolve_entity_id
resolved = (refl, refl)

checked_inputs :
    (is_decimal_uint "120" ≡ true)
    × (is_decimal_uint "012" ≡ false)
    × (is_address "0x00000000000000000000000000000000000000Ff" ≡ true)
    × (is_address "0xFf" ≡ false)
unfolding is_decimal_uint is_address
checked_inputs = (refl, refl, refl, refl)

resolve_entity_id_iff_example :
    ((resolve_entity_id subgraph "0xAB" (some buyer) 0).0 ≡ found "9" buyer)
    ↔ FoundAlone subgraph "0xAB" (some buyer) 0 "9" buyer
resolve_entity_id_iff_example = resolve_entity_id_iff subgraph "0xAB" (some buyer) 0 "9" buyer

-- The world counts the facilitator's transactions.
abbrev shop : HandlerContext ℕ
shop = record {
  config = record {
    network = "eip155:1";
    chain_id = 1;
    escrow = "0xD1";
    facilitator_url = "https://f";
    channel_registry = record {
      channels = ActionChannel.facilitator ∷ [];
      endpoints = [];
      xmtp = none;
      mcp = none;
      escrow = "0xD1";
    };
    fulfillment_channels = none;
  };
  facilitator = record {
    settle = λ input n. (returned (settled "12" "0x77"), suc n);
    perform_action = λ input n. (returned (entity_ok "0x88"), suc n);
  };
  exchange_reader = record { read = λ exchange_id n. (returned none, n); delay = λ ms n. n };
  chain = record {
    build_calldata = λ action fields. thrown (error "not here");
    recover_signer = λ chain_id contract meta_tx signature. thrown (error "not here");
  };
  now = λ n. n;
  now_seconds = λ n. n;
  base64 = λ bytes. "";
  signer_of_payload = λ payload. thrown (error "not here");
}

abbrev by_buyer : WithdrawFundsInput
by_buyer = record {
  target = by_address "0x00000000000000000000000000000000000000Ff" (some buyer);
  signed_payload = "0x00";
}

abbrev paid_out : WithdrawFundsOk
paid_out = record { tx_hash = "0x88"; entity_id = "9"; role = some buyer }

withdrawals :
    (handle_withdraw_funds shop subgraph by_buyer 0 ≡ (returned (ok paid_out), 1))
    × (handle_withdraw_funds shop subgraph (record by_buyer { target = by_entity_id "012" }) 0
        ≡ (returned (err 400 HandlerCode.invalid_entity_id), 0))
    × (handle_withdraw_funds shop subgraph
          (record by_buyer {
            target = by_address "0x00000000000000000000000000000000000000Ff" none;
          })
          0
        ≡ (returned (err 409 HandlerCode.ambiguous), 0))
unfolding handle_withdraw_funds
withdrawals = (refl, refl, refl)

handle_withdraw_funds-Withdrawn_example : Withdrawn shop subgraph by_buyer 0 paid_out 1
handle_withdraw_funds-Withdrawn_example =
    handle_withdraw_funds-Withdrawn shop subgraph by_buyer 0 1 paid_out withdrawals.0

-- The buyer has its id as its amount.
funds_answers :
    (handle_get_available_funds (λ text. 6) subgraph by_buyer.target 0 ≡ (
      returned (
          ok (record {
            entity_id = "9";
            role = some buyer;
            funds =
                (record {
                  token_address = "0xA5";
                  token_symbol = "COIN";
                  token_name = "Coin";
                  decimals = 6;
                  available_amount = "9";
                })
                ∷ [];
          })),
      0,
    ))
    × (handle_get_available_funds (λ text. 6) subgraph (by_entity_id "012") 0
        ≡ (returned (err 400 HandlerCode.invalid_entity_id), 0))
unfolding handle_get_available_funds
funds_answers = (refl, refl)
