-- ===== src/Client/Assembled.antt =====
-- How a payment that the client builds has come about.
use x402b.Prelude.{ℕ, String, Bool, true, false, ◌≡◌, refl, ap, if◌then◌else◌}
use x402b.Wire.{EscrowPaymentRequirements, EscrowPaymentPayload, BosonMetaTx}
use x402b.Wire.Schemas.{escrow_payment_payload_schema}
use x402b.Effects.{Outcome, returned, thrown, error, bind-eq-returned, pure-eq}
use x402b.Server.Payload.{CommitAction}
use x402b.Client.{SignedMetaTx, X402bClientConfig, CoreSdk, parse_chain_id}
use x402b.Client.Choice.{pick_action, resolve_fulfillment, enforce_max_amount}
use x402b.Client.Payment.{
  create_offer_and_commit_args, AssembleArgs, payload_of, parsed_payload, assemble_payload, reshape,
  sign_meta_tx, token_auth_for, build_payment, lift,
}

module _ {W : Type 0} (config : X402bClientConfig W)
    (requirements : EscrowPaymentRequirements) where
  -- A meta-transaction that core-sdk signed, at some nonce.
  pub record MetaTxSigned (sdk : CoreSdk W) (action : CommitAction) (buyer : String)
      (m : BosonMetaTx) : Type 0 where
    pub nonce : ℕ
    pub signed : SignedMetaTx
    pub before : W
    pub after : W
    pub by_sdk :
        sdk.sign_commit action
          (config.to_text nonce)
          (create_offer_and_commit_args requirements.offer.full_offer buyer
            requirements.offer.seller_sig)
          before
        ≡ (returned signed, after)
    pub reshaped : reshape config requirements signed buyer nonce ≡ m

  sign_meta_tx-MetaTxSigned :
      (sdk : CoreSdk W) (action : CommitAction) (buyer : String) (w w' : W) (m : BosonMetaTx)
      → sign_meta_tx config requirements sdk action buyer w ≡ (returned m, w')
      → MetaTxSigned sdk action buyer m
  unfolding sign_meta_tx
  sign_meta_tx-MetaTxSigned sdk action buyer w w' m h =
      let (nonce, u) = config.random_uint256 w in
      let (signed, u1, p, same) =
        bind-eq-returned
          (sdk.sign_commit action (config.to_text nonce) (
            create_offer_and_commit_args requirements.offer.full_offer buyer
              requirements.offer.seller_sig))
          _ u h in
      record {
        nonce = nonce;
        signed = signed;
        before = u;
        after = u1;
        by_sdk = p;
        reshaped = pure-eq (reshape config requirements signed buyer nonce) m u1 w' same;
      }

  -- What the steps of `handle402` gave for a payload.
  pub record Assembled (chain_id : ℕ) (payload : EscrowPaymentPayload) : Type 0 where
    pub args : AssembleArgs
    pub picked : pick_action requirements config.policy.redeem_mode ≡ returned args.action
    pub resolved : resolve_fulfillment config requirements ≡ returned args.fulfillment
    pub chain : parse_chain_id requirements.network ≡ returned chain_id
    pub asked : W
    pub answered : W
    pub address : config.get_address asked ≡ (returned args.buyer, answered)
    pub before : W
    pub after : W
    pub authorised :
        token_auth_for config requirements
          (config.core_sdk requirements.escrow_address chain_id)
          args.buyer
          chain_id
          config.policy.token_auth_strategy
          before
        ≡ (returned (args.token_auth_strategy, args.token_auth), after)
    pub meta_tx :
        MetaTxSigned
          (config.core_sdk requirements.escrow_address chain_id)
          args.action
          args.buyer
          args.meta_tx
    pub parses : escrow_payment_payload_schema payload ≡ true
    pub same : payload_of config requirements args ≡ payload

  parsed_payload-returned :
      (built payload : EscrowPaymentPayload)
      → parsed_payload config requirements built ≡ returned payload
      → (escrow_payment_payload_schema payload ≡ true) × (built ≡ payload)
  parsed_payload-returned built payload h = of_test (escrow_payment_payload_schema built) refl h
    where
      of_test :
          (b : Bool)
          → escrow_payment_payload_schema built ≡ b
          → ◌≡◌ {A = Outcome EscrowPaymentPayload}
              (if b then returned built else thrown (error "ZodError"))
              (returned payload)
          → (escrow_payment_payload_schema payload ≡ true) × (built ≡ payload)
      of_test true p k = let same : built ≡ payload = cc in (rw same at p, same)
      of_test false p k = cc

  pub build_payment-Assembled :
      (w w' : W) (payload : EscrowPaymentPayload)
      → build_payment config requirements w ≡ (returned payload, w')
      → (chain_id : ℕ) × Assembled chain_id payload
  unfolding build_payment assemble_payload
  build_payment-Assembled w w' payload h =
      let (action, u, p, h1) =
        bind-eq-returned (lift (pick_action requirements config.policy.redeem_mode)) _ w h in
      let (f, u1, q, h2) =
        bind-eq-returned (lift (resolve_fulfillment config requirements)) _ u h1 in
      let (t, u2, r, h3) =
        bind-eq-returned
          (lift (enforce_max_amount config.big_int requirements.amount config.policy.max_amount)) _
          u1 h2 in
      let (buyer, u3, s, h4) = bind-eq-returned config.get_address _ u2 h3 in
      let (chain_id, u4, c, h5) =
        bind-eq-returned (lift (parse_chain_id requirements.network)) _ u3 h4 in
      let sdk = config.core_sdk requirements.escrow_address chain_id in
      let (auth, u5, a, h6) =
        bind-eq-returned
          (token_auth_for config requirements sdk buyer chain_id config.policy.token_auth_strategy)
          _ u4 h5 in
      let (m, u6, g, h7) =
        bind-eq-returned (sign_meta_tx config requirements sdk action buyer) _ u5 h6 in
      let args : AssembleArgs = record {
        action = action;
        token_auth_strategy = auth.0;
        meta_tx = m;
        token_auth = auth.1;
        fulfillment = f;
        buyer = buyer;
      } in
      let (parses, same) =
        parsed_payload-returned (payload_of config requirements args) payload (ap (λ z. z.0) h7) in
      (
        chain_id,
        record {
          args = args;
          picked = ap (λ z. z.0) p;
          resolved = ap (λ z. z.0) q;
          chain = ap (λ z. z.0) c;
          asked = u2;
          answered = u3;
          address = s;
          before = u4;
          after = u5;
          authorised = a;
          meta_tx = sign_meta_tx-MetaTxSigned sdk action buyer u5 u6 m g;
          parses = parses;
          same = same;
        },
      )
