-- ===== src/Client/Payment.antt =====
-- pre-commit.ts, payload.ts and `handle402` of client.ts: the payment payload for a 402 answer.
use x402b.Prelude.{ℕ, String, List, [], ◌∷◌, Option, none, some, if◌then◌else◌, includes}
use x402b.Json.{Json, Fields, put_field}
use x402b.Wire.{
  TokenAuthStrategy, strategy_eq, EscrowPaymentRequirements, EscrowPaymentPayload, BosonMetaTx,
  BosonTokenAuth, CarriedFulfillment,
}
use x402b.Wire.Schemas.{escrow_payment_payload_schema, escrow_payment_requirements_schema}
use x402b.Effects.{Outcome, returned, thrown, error, Eff, pure, ◌>>=◌}
use x402b.Server.Payload.{CommitAction, create_offer_and_commit, create_offer_commit_and_redeem}
use x402b.Client.{CoreSdk, SignedMetaTx, FulfillmentConfig, X402bClientConfig, parse_chain_id}
use x402b.Client.TokenAuth.{build_and_sign_token_auth, BuiltTokenAuth}
use x402b.Client.Choice.{commit_action_name, pick_action, resolve_fulfillment, enforce_max_amount}

-- `buildCreateOfferAndCommitArgs`
abbrev pub create_offer_and_commit_args : Fields → String → String → Fields
create_offer_and_commit_args full_offer buyer seller_sig =
    put_field (put_field full_offer "signature" (Json.str seller_sig)) "committer" (Json.str buyer)

-- `fulfillmentSlot`: data goes with the atomic flow alone.
abbrev pub fulfillment_slot : CommitAction → Option FulfillmentConfig → Option CarriedFulfillment
fulfillment_slot action none = none
fulfillment_slot create_offer_and_commit (some f) =
    some (record { option = f.option; carried_data = none })
fulfillment_slot create_offer_commit_and_redeem (some f) =
    some (record { option = f.option; carried_data = some f.chosen_data })

-- What is signed and chosen for a payment, before it is put together.
pub record AssembleArgs : Type 0 where
  pub action : CommitAction
  pub token_auth_strategy : TokenAuthStrategy
  pub meta_tx : BosonMetaTx
  pub token_auth : Option BosonTokenAuth
  pub fulfillment : Option FulfillmentConfig
  pub buyer : String

-- The strategy none, or a built authorisation.
abbrev pub no_token_auth : TokenAuthStrategy × Option BosonTokenAuth
no_token_auth = (TokenAuthStrategy.none, none)

abbrev pub lift : {W A : Type 0} → Outcome A → Eff W A
lift o w = (o, w)

module _ {W : Type 0} (config : X402bClientConfig W)
    (requirements : EscrowPaymentRequirements) where
  -- The payload, before it is parsed again.
  abbrev pub payload_of : AssembleArgs → EscrowPaymentPayload
  payload_of args = record {
    x402_version = 2;
    scheme = "escrow";
    network = requirements.network;
    payload = record {
      action = commit_action_name args.action;
      token_auth_strategy = args.token_auth_strategy;
      offer_ref = record {
        full_offer = requirements.offer.full_offer;
        seller_sig = requirements.offer.seller_sig;
      };
      buyer = args.buyer;
      meta_tx = args.meta_tx;
      token_auth = args.token_auth;
    };
    fulfillment = fulfillment_slot args.action args.fulfillment;
  }

  abbrev pub parsed_payload : EscrowPaymentPayload → Outcome EscrowPaymentPayload
  parsed_payload payload =
      if escrow_payment_payload_schema payload then returned payload else thrown (error "ZodError")

  unfoldable pub assemble_payload : AssembleArgs → Outcome EscrowPaymentPayload
  assemble_payload args = parsed_payload (payload_of args)

  -- `reshape`
  abbrev pub reshape : SignedMetaTx → String → ℕ → BosonMetaTx
  reshape signed buyer nonce = record {
    from = buyer;
    nonce = config.to_text nonce;
    function_name = signed.function_name;
    function_signature = signed.function_signature;
    sig = record { v = signed.v; r = signed.r; s = signed.s };
  }

  -- `signCreateOfferAndCommit` and `signCreateOfferCommitAndRedeem`
  unfoldable pub sign_meta_tx : CoreSdk W → CommitAction → String → Eff W BosonMetaTx
  unfolding put_field
  sign_meta_tx sdk action buyer w =
      let (nonce, w') = config.random_uint256 w in
      (sdk.sign_commit action (config.to_text nonce) (
            create_offer_and_commit_args requirements.offer.full_offer buyer
              requirements.offer.seller_sig)
          >>= λ signed. pure (reshape signed buyer nonce))
        w'

  abbrev pub with_token_auth : BuiltTokenAuth → Eff W (TokenAuthStrategy × Option BosonTokenAuth)
  with_token_auth built = pure (built.strategy, some built.token_auth)

  abbrev pub dispatch :
      CoreSdk W
      → String
      → ℕ
      → List TokenAuthStrategy
      → Eff W (TokenAuthStrategy × Option BosonTokenAuth)
  dispatch sdk buyer chain_id advertised =
      build_and_sign_token_auth config sdk requirements buyer config.token_domain_resolver
        (config.public_clients chain_id) advertised
      >>= with_token_auth

  abbrev pub forced_auth :
      CoreSdk W → String → ℕ → TokenAuthStrategy → Eff W (TokenAuthStrategy × Option BosonTokenAuth)
  forced_auth sdk buyer chain_id TokenAuthStrategy.none = pure no_token_auth
  forced_auth sdk buyer chain_id strategy = dispatch sdk buyer chain_id (strategy ∷ [])

  -- The policy's strategy, if it has one, or the preferred one.
  abbrev pub token_auth_for :
      CoreSdk W
      → String
      → ℕ
      → Option TokenAuthStrategy
      → Eff W (TokenAuthStrategy × Option BosonTokenAuth)
  token_auth_for sdk buyer chain_id none w =
      dispatch sdk buyer chain_id requirements.token_auth_strategies w
  token_auth_for sdk buyer chain_id (some strategy) w =
      if includes requirements.token_auth_strategies strategy
      then forced_auth sdk buyer chain_id strategy w
      else (thrown (error "UnsupportedTokenAuthError"), w)

  abbrev pub put_together :
      CommitAction
      → Option FulfillmentConfig
      → String
      → TokenAuthStrategy × Option BosonTokenAuth
      → BosonMetaTx
      → Eff W EscrowPaymentPayload
  put_together action fulfillment buyer auth meta_tx = lift (
      assemble_payload (record {
        action = action;
        token_auth_strategy = auth.0;
        meta_tx = meta_tx;
        token_auth = auth.1;
        fulfillment = fulfillment;
        buyer = buyer;
      }))

  abbrev pub sign_payment :
      CommitAction → Option FulfillmentConfig → String → ℕ → Eff W EscrowPaymentPayload
  sign_payment action fulfillment buyer chain_id =
      token_auth_for (config.core_sdk requirements.escrow_address chain_id) buyer chain_id
        config.policy.token_auth_strategy
      >>= λ auth.
          sign_meta_tx (config.core_sdk requirements.escrow_address chain_id) action buyer
          >>= λ meta_tx. put_together action fulfillment buyer auth meta_tx

  abbrev pub pay_for : CommitAction → Option FulfillmentConfig → Eff W EscrowPaymentPayload
  pay_for action fulfillment = config.get_address >>= λ buyer.
      lift (parse_chain_id requirements.network) >>= λ chain_id.
      sign_payment action fulfillment buyer chain_id

  -- `handle402` after the requirements are parsed and before the payload is encoded.
  unfoldable pub build_payment : Eff W EscrowPaymentPayload
  unfolding pick_action resolve_fulfillment enforce_max_amount parse_chain_id
      build_and_sign_token_auth sign_meta_tx assemble_payload
  build_payment = lift (pick_action requirements config.policy.redeem_mode) >>= λ action.
      lift (resolve_fulfillment config requirements) >>= λ fulfillment.
      lift (enforce_max_amount config.big_int requirements.amount config.policy.max_amount) >>= λ _.
      pay_for action fulfillment

  abbrev pub encoded : EscrowPaymentPayload → Eff W String
  encoded payload = pure (config.encode payload)

  unfoldable pub handle_402 : Eff W String
  unfolding build_payment
  handle_402 w =
      if escrow_payment_requirements_schema config.is_datetime requirements
      then (build_payment >>= encoded) w
      else (thrown (error "ZodError"), w)
