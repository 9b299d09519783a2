-- ===== src/Client/Tests.antt =====
-- A buyer that pays with an ERC-3009 authorisation, and the theorems there.
use x402b.Prelude.{ℕ, suc, String, none, some, true, ◌≡◌, ◌↔◌, refl, ap, arith, inl, Memᴰ, sym}
use x402b.Server.Payload.{create_offer_and_commit}
use x402b.Wire.{TokenAuthStrategy, BosonTokenAuth, EscrowPaymentPayload}
use x402b.Wire.Schemas.{escrow_payment_payload_schema, escrow_payment_requirements_schema}
use x402b.Effects.{returned, pure, pure-eq}
use x402b.Facilitator.{ok}
use x402b.Facilitator.Config.{FacilitatorConfig}
use x402b.Facilitator.Structural.{parse_chain_id as parse_network}
use x402b.Facilitator.TokenAuth.{validate_deadline_window}
use x402b.Facilitator.Verify.{check_structure}
use x402b.Facilitator.Verify.Samples.{facilitator, libraries, requirements, buyer}
use x402b.Client.{CoreSdk, X402bClientConfig, SignedMetaTx, SignedAuthorization, SignedPermit, auto}
use x402b.Client.TokenAuth.{
  BuiltTokenAuth, compute_token_auth_deadline, build_and_sign_token_auth, erc3009_of,
}
use x402b.Client.Payment.{build_payment, payload_of, reshape}
use x402b.Client.Accepted.{
  Near, compute_token_auth_deadline_iff, EchoesTerms, Accepted, build_and_sign_token_auth-Accepted,
}
use x402b.Server.Payload.{ok as accepted, validate_payment_payload, Chain, encode_rsv}
use x402b.Server.Payload.Reflexive.{DistinctKeys}
use mathlib.Core.Path.{subst}
use x402b.Client.{parse_chain_id}
use x402b.Client.Payment.{handle_402}
use x402b.Client.Served.{SignsAs, checking, handle_402-validate_payment_payload}
use x402b.Client.Payable.{SignsBuilt, asked, build_payment-check_structure}

abbrev word : String
word = "0x0100000000000000000000000000000000000000000000000000000000000000"

abbrev signed_commit : SignedMetaTx
signed_commit = record {
  function_name = "commit";
  function_signature = "0x12";
  r = word;
  s = word;
  v = 27;
}

abbrev authorization : ℕ → ℕ → SignedAuthorization
authorization after before = record {
  valid_after = after;
  valid_before = before;
  nonce = word;
  r = word;
  s = word;
  v = 27;
}

abbrev signed_permit : SignedPermit
signed_permit = record { r = word; s = word; v = 27 }

abbrev sdk : CoreSdk ℕ
sdk = record {
  sign_commit = λ action nonce fields. pure signed_commit;
  sign_erc3009 =
      λ token name version amount after before spender. pure (authorization after before);
  sign_permit = λ token name version amount until spender. pure signed_permit;
  sign_permit2 = λ token amount until spender nonce. pure word;
}

-- The clock stands at 1000 seconds.
abbrev config : X402bClientConfig ℕ
config = record {
  get_address = pure buyer;
  core_sdk = λ escrow chain_id. sdk;
  now = λ n. 1000000;
  random_uint256 = λ n. (n, suc n);
  to_text = λ n. "7";
  big_int = λ text. returned 100;
  accepts_data = λ schema chosen. true;
  is_datetime = λ text. true;
  encode = λ payload. "e30=";
  public_clients = λ chain_id. none;
  token_domain_resolver = some (λ token chain_id. pure (record {
    name = "Coin";
    version = "2";
    chain_id = chain_id;
    verifying_contract = token;
    salt = none;
  }));
  policy = record { redeem_mode = auto; max_amount = some "100"; token_auth_strategy = none };
  fulfillment = none;
}

-- A facilitator whose library builds the calldata that the SDK signs.
abbrev relaying : FacilitatorConfig ℕ
relaying = record facilitator {
  libraries = record libraries {
    build_calldata = λ action fields.
        returned (record { function_name = "commit"; function_signature = "0x12" });
  };
}

signs :
    (chain_id : ℕ)
    → SignsBuilt
        (config.core_sdk requirements.escrow_address chain_id)
        relaying.libraries.build_calldata
signs chain_id = record {
  signs = λ action nonce offer buyer seller_sig w w' signed h.
      ap
        (λ x.
          returned
            (record { function_name = x.function_name; function_signature = x.function_signature }))
        (pure-eq signed_commit signed w w' h);
}

echoes : EchoesTerms sdk
echoes = record {
  echoes = λ token name version amount after before spender w w' r h.
      let same = pure-eq (authorization after before) r w w' h in
      (
        sym (ap (λ x. x.valid_after) same),
        sym (ap (λ x. x.valid_before) same),
        inl (sym (ap (λ x. x.v) same)),
      );
  legacy_permit = λ token name version amount until spender w w' r h.
      inl (sym (ap (λ x. x.v) (pure-eq signed_permit r w w' h)));
}

abbrev built : BuiltTokenAuth
built = record {
  strategy = TokenAuthStrategy.erc3009;
  token_auth =
      BosonTokenAuth.erc3009 (erc3009_of config sdk requirements buyer (authorization 0 1240));
}

abbrev paid : EscrowPaymentPayload
paid = payload_of config requirements (record {
  action = create_offer_and_commit;
  token_auth_strategy = built.strategy;
  meta_tx = reshape config requirements signed_commit buyer 0;
  token_auth = some built.token_auth;
  fulfillment = none;
  buyer = buyer;
})

is_valid : escrow_payment_requirements_schema relaying.libraries.is_datetime requirements ≡ true
unfolding escrow_payment_requirements_schema
is_valid = refl

builds :
    build_and_sign_token_auth config sdk requirements buyer config.token_domain_resolver none
      requirements.token_auth_strategies 0
    ≡ (returned built, 0)
unfolding build_and_sign_token_auth parse_network
builds = refl

pays : build_payment config requirements 0 ≡ (returned paid, 1)
unfolding build_payment parse_network escrow_payment_payload_schema
pays = refl

build_and_sign_token_auth-Accepted_example :
    Memᴰ TokenAuthStrategy.erc3009 requirements.token_auth_strategies
    × Accepted requirements buyer 1 950 built
build_and_sign_token_auth-Accepted_example =
    build_and_sign_token_auth-Accepted config sdk echoes requirements buyer 1 950 (omega arith)
      (omega arith) (λ u. (omega arith, omega arith, inl (omega arith)))
      config.token_domain_resolver none requirements.token_auth_strategies 0 0 built builds

build_payment-check_structure_example : check_structure relaying (asked requirements paid) ≡ ok
build_payment-check_structure_example =
    build_payment-check_structure config relaying requirements signs (Memᴰ.head refl) is_valid 0 1
      paid pays

compute_token_auth_deadline_iff_example :
    (validate_deadline_window (compute_token_auth_deadline 300 1000000) 300 950 ≡ ok)
    ↔ Near 300 1000 950
compute_token_auth_deadline_iff_example =
    compute_token_auth_deadline_iff 300 1000000 950 (omega arith)

-- A server whose library builds the calldata that the SDK signs, and recovers the sender.
abbrev serving : Chain
serving = record {
  build_calldata = relaying.libraries.build_calldata;
  recover_signer = λ chain_id contract meta_tx signature. returned meta_tx.from;
}

encodes :
    (signature : String) × (encode_rsv (record { v = 27; r = word; s = word }) ≡ some signature)
unfolding encode_rsv
encodes = (_, refl)

signs_as : SignsAs config requirements serving 1
signs_as = record {
  recovers = λ action nonce fields b u u' w w' signed address h. (
    encodes.0,
    subst (λ x. encode_rsv (record { v = x.v; r = x.r; s = x.s }) ≡ some encodes.0)
        (pure-eq signed_commit signed w w' h) encodes.1,
    refl,
  );
}

distinct : DistinctKeys requirements.offer.full_offer
unfolding DistinctKeys
distinct = (refl, tt, tt)

handles : handle_402 config requirements 0 ≡ (returned "e30=", 1)
unfolding handle_402 parse_network escrow_payment_payload_schema escrow_payment_requirements_schema
handles = refl

parses_chain : parse_chain_id requirements.network ≡ returned 1
unfolding parse_chain_id
parses_chain = refl

handle_402-validate_payment_payload_example :
    (payload : EscrowPaymentPayload) × ("e30=" ≡ config.encode payload)
    × (validate_payment_payload serving (checking config requirements payload 1 950 none)
        ≡ accepted)
handle_402-validate_payment_payload_example =
    handle_402-validate_payment_payload config requirements serving 1 950 none parses_chain distinct
      (signs 1) signs_as echoes (omega arith) (λ u. (omega arith, omega arith, inl (omega arith)))
      tt 0 1 "e30=" handles
