-- ===== src/Server/Payload/Samples.antt =====
-- An offer, its terms and a payment, for the tests.
use x402b.Prelude.{ℕ, String, [], ◌∷◌, none, some}
use x402b.Json.{Fields, field, end, get_field, str}
use x402b.Effects.{returned}
use x402b.Wire.{
  ActionChannel, TokenAuthStrategy, EscrowPaymentPayload, EscrowPaymentRequirements, BosonTokenAuth,
}
use x402b.Server.Payload.{Chain}

abbrev offer : String → Fields
offer price = field "price" (str price) (field "committer" (str "0x00") end)

-- Calldata that carry the committer; a recovery that finds the sender of the message.
abbrev pub test_chain : Chain
test_chain = record {
  build_calldata = λ action fields. returned (record {
    function_name = "commit";
    function_signature = elim (get_field fields "committer") [
      | none ↦ "0x"
      | some v ↦ elim v [ str s ↦ s | _ ↦ "0x" ]
    ];
  });
  recover_signer = λ chain_id contract meta_tx signature. returned meta_tx.from;
}

abbrev pub terms : EscrowPaymentRequirements
terms = record {
  scheme = "escrow";
  network = "eip155:1";
  asset = "0xA5";
  amount = "100";
  escrow_address = "0xD1";
  recipient_id = "7";
  max_timeout_seconds = 300;
  offer = record { full_offer = offer "100"; seller_sig = "0x51"; creator = "0x5E" };
  token_auth_strategies = TokenAuthStrategy.none ∷ TokenAuthStrategy.erc3009 ∷ [];
  fulfillment = none;
  actions = record {
    next =
        (record {
          id = "boson-createOfferAndCommit";
          channels = ActionChannel.server ∷ [];
          endpoints = none;
          deadline = none;
        })
        ∷ [];
    fallback = none;
  };
}

abbrev pub paying : (to : String) → (valid_before : ℕ) → String → EscrowPaymentPayload
paying to valid_before seller_sig = record {
  x402_version = 1;
  scheme = "escrow";
  network = "eip155:1";
  payload = record {
    action = "boson-createOfferAndCommit";
    token_auth_strategy = TokenAuthStrategy.erc3009;
    offer_ref = record { full_offer = offer "100"; seller_sig = seller_sig };
    buyer = "0xB1";
    meta_tx = record {
      from = "0xb1";
      nonce = "1";
      function_name = "commit";
      function_signature = "0xB1";
      sig = record { v = 0; r = "0x01"; s = "0x02" };
    };
    token_auth = some (
        BosonTokenAuth.erc3009 (record {
          from = "0xB1";
          to = to;
          value = "100";
          valid_after = 0;
          valid_before = valid_before;
          nonce = "0x09";
          v = 27;
          r = "0x";
          s = "0x";
        }));
  };
  fulfillment = none;
}
