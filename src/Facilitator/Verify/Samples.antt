-- ===== src/Facilitator/Verify/Samples.antt =====
-- A payment, its requirements and a facilitator, for the tests. The world counts the transactions.
use x402b.Prelude.{ℕ, suc, String, [], ◌∷◌, none, some, Bool, true, false, leb, ◌||◌, if◌then◌else◌}
use x402b.Json.{Json, Fields, field, end, str, obj}
use x402b.Effects.{returned}
use x402b.Wire.{
  ActionChannel, TokenAuthStrategy, EscrowPaymentPayload, EscrowPaymentRequirements, BosonTokenAuth,
  BosonMetaTx,
}
use x402b.Facilitator.{FacilitatorSettleInput}
use x402b.Facilitator.Config.{
  Libraries, FacilitatorConfig, TokenMessage, bigint, ErrorLink, ErrorChain, answered, sent, read,
}
use x402b.Server.Payload.Samples.{test_chain}

abbrev pub diamond : String
diamond = "0xD100000000000000000000000000000000000000"

abbrev pub buyer : String
buyer = "0xB100000000000000000000000000000000000000"

abbrev token : String
token = "0xA500000000000000000000000000000000000000"

abbrev word : String
word = "0x0100000000000000000000000000000000000000000000000000000000000000"

abbrev offer : Fields
offer = field "price" (str "100") end

-- `walk` as viem documents it.
abbrev pub walk_chain : (ErrorLink → Bool) → ErrorChain → Bool
walk_chain p [] = false
walk_chain p (e ∷ causes) = p e || walk_chain p causes

abbrev signer_of : TokenMessage → String
signer_of (TokenMessage.receive_with_authorization d from to value after before nonce) = from
signer_of (TokenMessage.permit d owner spender value nonce deadline) = owner
signer_of (TokenMessage.permit_transfer_from c asset amount spender nonce deadline) = buyer

-- A signed redeem of the exchange 12.
abbrev pub redeem_12 : BosonMetaTx
redeem_12 = record {
  from = buyer;
  nonce = "7";
  function_name = "redeemVoucher(uint256)";
  function_signature = "0x12";
  sig = record { v = 28; r = word; s = word };
}

abbrev price_of : Json → String
price_of (str s) = s
price_of (obj (field k v f)) = price_of v
price_of v = ""

abbrev pub libraries : Libraries
libraries = record {
  build_calldata = test_chain.build_calldata;
  typed_data = λ chain_id contract nonce from message. returned (λ signature. returned from);
  recover_token_signer = λ message signature. returned (signer_of message);
  decode_function_data =
      λ calldata. returned (record { function_name = "redeemVoucher"; args = bigint 12 ∷ [] });
  decode_signed_payload = λ payload. returned redeem_12;
  encode_abi_parameters = λ values. returned "0xAB";
  encode_token_envelope =
      λ user function_name function_signature nonce signature queue. returned "0xCD";
  execute_meta_transaction_info = λ contract user m. returned (some contract, some "0xEF");
  big_int = λ text. returned 7;
  to_text = λ n. if leb n 12 then "12" else "13";
  precedes = λ a b. true;
  stringify = price_of;
  is_datetime = λ s. true;
  walk = walk_chain;
}

abbrev pub facilitator : FacilitatorConfig ℕ
facilitator = record {
  supported_networks = "eip155:1" ∷ [];
  escrows = ("eip155:1", diamond) ∷ [];
  wallet_client = record {
    account = some "0xFA";
    chain = some 1;
    send_transaction = λ account to calldata n. (sent "0x77", suc n);
    execute_meta_transaction = λ user contract m authorizations n. (sent "0x78", suc n);
  };
  public_client = record {
    chain = none;
    call = λ account to calldata n. (answered, n);
    eip712_domain = λ token n. (
      read (record {
        fields = 15;
        name = "Coin";
        version = "2";
        chain_id = 1;
        verifying_contract = token;
        salt = "0x";
      }),
      n,
    );
    name = λ token n. (read "Coin", n);
    version = λ token n. (read "2", n);
    wait_for_transaction_receipt =
        λ hash n. (returned (record { success = true; buyer_committed = some 12 ∷ [] }), n);
    now_seconds = λ n. 1000;
  };
  libraries = libraries;
}

abbrev pub requirements : EscrowPaymentRequirements
requirements = record {
  scheme = "escrow";
  network = "eip155:1";
  asset = token;
  amount = "100";
  escrow_address = diamond;
  recipient_id = "7";
  max_timeout_seconds = 300;
  offer = record { full_offer = offer; seller_sig = "0x51"; creator = buyer };
  token_auth_strategies = TokenAuthStrategy.none ∷ TokenAuthStrategy.erc3009 ∷ [];
  fulfillment = none;
  actions = record {
    next =
        (record {
          id = "boson-createOfferAndCommit";
          channels = ActionChannel.server ∷ [];
          endpoints = none;
          deadline = none;
        })
        ∷ [];
    fallback = none;
  };
}

-- A payment with an authorisation up to a time.
abbrev pub payment : (valid_before : ℕ) → EscrowPaymentPayload
payment valid_before = record {
  x402_version = 1;
  scheme = "escrow";
  network = "eip155:1";
  payload = record {
    action = "boson-createOfferAndCommit";
    token_auth_strategy = TokenAuthStrategy.erc3009;
    offer_ref = record { full_offer = offer; seller_sig = "0x51" };
    buyer = buyer;
    meta_tx = record {
      from = buyer;
      nonce = "1";
      function_name = "commit";
      function_signature = buyer;
      sig = record { v = 27; r = word; s = word };
    };
    token_auth = some (
        BosonTokenAuth.erc3009 (record {
          from = buyer;
          to = diamond;
          value = "100";
          valid_after = 0;
          valid_before = valid_before;
          nonce = word;
          v = 27;
          r = word;
          s = word;
        }));
  };
  fulfillment = none;
}

abbrev pub settling : (valid_before : ℕ) → FacilitatorSettleInput
settling valid_before = record {
  scheme = "escrow";
  network = "eip155:1";
  payload = payment valid_before;
  requirements = requirements;
}
