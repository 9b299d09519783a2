-- ===== src/Client/Served.antt =====
-- What the resource server makes of a payment that the client builds.
use Prim.Native.Nat.{◌/◌}
use mathlib.Core.Path.{subst}
use x402b.Prelude.{
  arith, ℕ, ◌+◌, ◌≤◌, String, Option, none, some, Bool, true, false, ◌≡◌, refl, ap, sym, ◌∙◌, ◌&&◌,
  eq_iff, string_eq, Bool-cases, inl, inr, ltb, arith, SameText,
}
use x402b.Json.{Fields}
use x402b.Wire.{EscrowPaymentRequirements, EscrowPaymentPayload, BosonTokenAuth, TokenAuthStrategy}
use x402b.Wire.Schemas.{escrow_payment_requirements_schema}
use x402b.Effects.{Outcome, returned, thrown, error, bind-eq-returned, pure-eq}
use x402b.Server.Payload.{
  Chain, CommitAction, encode_rsv, ok, validate_payment_payload, ValidatePaymentPayloadArgs,
  DataValidator,
}
use x402b.Server.Payload.Reflexive.{DistinctKeys, deep_equal_self}
use x402b.Server.Payload.Rules.{Accepted, validate_payment_payload_iff}
use x402b.Server.Payload.Rules.Terms.{Pulls, AuthAccepted}
use x402b.Facilitator.TokenAuth.Signed.{HasTerms}
use x402b.Client.{X402bClientConfig, SignedMetaTx, parse_chain_id}
use x402b.Client.Choice.{resolve_fulfillment}
use x402b.Client.Payment.{payload_of, reshape, build_payment, handle_402}
use x402b.Client.Accepted.{Near, EchoesTerms, verifying, signs_terms}
use x402b.Client.Chosen.{Carries, token_auth_for-Chooses}
use x402b.Client.Fulfilled.{Agrees, resolve_for-SlotAccepted}
use x402b.Client.Assembled.{Assembled, build_payment-Assembled}
use x402b.Client.Payable.{
  SignsBuilt, calldata_of, commit_action-name, pick_action-advertised, meta_tx-built,
}

module _ {W : Type 0} (config : X402bClientConfig W)
    (requirements : EscrowPaymentRequirements) where
  -- core-sdk signs as the address that the buyer's signer gives: the signature has its three parts,
  -- and the library of the server recovers that address from them.
  pub record SignsAs (chain : Chain) (chain_id : ℕ) : Type 0 where
    pub recovers :
        (action : CommitAction) (nonce : ℕ) (fields : Fields) (buyer : String) (u u' w w' : W)
        (signed : SignedMetaTx)
        → config.get_address u ≡ (returned buyer, u')
        → (config.core_sdk requirements.escrow_address chain_id).sign_commit action
            (config.to_text nonce)
            fields
            w
          ≡ (returned signed, w')
        → (signature : String) × (encode_rsv (record { v = signed.v; r = signed.r; s = signed.s })
            ≡ some signature)
          × (chain.recover_signer chain_id requirements.escrow_address
                (reshape config requirements signed buyer nonce)
                signature
              ≡ returned buyer)

  -- The requirements, with the server's clock in seconds.
  abbrev pub checking :
      EscrowPaymentPayload → (chain_id now : ℕ) → Option DataValidator → ValidatePaymentPayloadArgs
  checking payload chain_id now validator = record {
    payload = payload;
    requirements = requirements;
    chain_id = chain_id;
    now = now;
    validate_fulfillment_data = validator;
  }

seventh : (a b c d e f g : Bool) → a && b && c && d && e && f && g ≡ true → b ≡ true
seventh true true c d e f g h = refl
seventh true false c d e f g h = h
seventh false b c d e f g h = cc

positive : (n : ℕ) → ltb 0 n ≡ true → 1 ≤ n
positive n h = ground arith

terms-Pulls :
    (requirements : EscrowPaymentRequirements) (buyer : String) (chain_id now : ℕ)
    (auth : BosonTokenAuth)
    → HasTerms (verifying requirements buyer chain_id now) auth now
    → Pulls requirements (now + requirements.max_timeout_seconds) auth
terms-Pulls requirements buyer chain_id now (BosonTokenAuth.erc3009 d)
      (v, (f, (to, (same, (after, (early, late)))))) =
    (same, (to, late))
terms-Pulls requirements buyer chain_id now (BosonTokenAuth.permit d)
      (v, (f, (to, (same, (early, late))))) =
    (same, (to, late))
terms-Pulls requirements buyer chain_id now (BosonTokenAuth.permit2 d)
      (token, (to, (same, (early, late)))) =
    (same, (token, (to, late)))

carried-AuthAccepted :
    (requirements : EscrowPaymentRequirements) (buyer : String) (chain_id now : ℕ)
    (strategy : TokenAuthStrategy) (o : Option BosonTokenAuth)
    → Carries (λ auth. HasTerms (verifying requirements buyer chain_id now) auth now) strategy o
    → AuthAccepted requirements (now + requirements.max_timeout_seconds) strategy o
carried-AuthAccepted requirements buyer chain_id now strategy none h = h
carried-AuthAccepted requirements buyer chain_id now strategy (some auth) (h, terms) =
    (sym h, terms-Pulls requirements buyer chain_id now auth terms)

module _ {W : Type 0} (config : X402bClientConfig W) (requirements : EscrowPaymentRequirements)
    (chain : Chain) (chain_id now : ℕ) (validator : Option DataValidator)
    (same_chain : parse_chain_id requirements.network ≡ returned chain_id)
    (distinct : DistinctKeys requirements.offer.full_offer)
    (signing : SignsBuilt
      (config.core_sdk requirements.escrow_address chain_id)
      chain.build_calldata)
    (signs_as : SignsAs config requirements chain chain_id)
    (echo : EchoesTerms (config.core_sdk requirements.escrow_address chain_id)) (started : 1 ≤ now)
    (clocks : (u : W) → Near requirements.max_timeout_seconds (config.now u / 1000) now)
    (agrees : Agrees config.accepts_data requirements.fulfillment validator) where
  abbrev IsValid : Type 0
  IsValid = escrow_payment_requirements_schema config.is_datetime requirements ≡ true

  schema_scheme : IsValid → requirements.scheme ≡ "escrow"
  unfolding escrow_payment_requirements_schema
  schema_scheme h = ground (arith, eq_iff requirements.scheme "escrow")

  schema_timeout : IsValid → 1 ≤ requirements.max_timeout_seconds
  unfolding escrow_payment_requirements_schema
  schema_timeout h = positive _ (seventh _ _ _ _ _ _ _ h)

  Assembled-Accepted :
      (payload : EscrowPaymentPayload)
      → IsValid
      → (made : Assembled config requirements chain_id payload)
      → Accepted chain (
          checking config requirements
            (payload_of config requirements made.args)
            chain_id
            now
            validator)
  unfolding resolve_fulfillment
  Assembled-Accepted payload valid made =
      let sdk = config.core_sdk requirements.escrow_address chain_id in
      let args = made.args in
      let (allowed, carried) =
        token_auth_for-Chooses config sdk requirements args.buyer _
          (signs_terms config sdk echo requirements args.buyer chain_id now (schema_timeout valid)
            started clocks)
          chain_id _ made.before made.after _ made.authorised in
      let m = made.meta_tx in
      let (signature, is_signature, recovered) =
        signs_as.recovers args.action m.nonce _ args.buyer made.asked made.answered m.before m.after
          m.signed made.address m.by_sdk in
      record {
        scheme = refl;
        requirements_scheme = schema_scheme valid;
        network = refl;
        full_offer = deep_equal_self requirements.offer.full_offer distinct;
        seller_sig = refl;
        action = pick_action-advertised config requirements args.action made.picked;
        strategy = allowed;
        calldata = record {
          action = args.action;
          is_action = commit_action-name args.action;
          calldata = calldata_of args.meta_tx;
          is_calldata =
              meta_tx-built config requirements sdk chain.build_calldata signing args.action
                args.buyer args.meta_tx m;
          function_name = refl;
          function_signature = refl;
        };
        signer = record {
          sender = subst (λ x. SameText args.buyer x.from) m.reshaped refl;
          signature = signature;
          is_signature = subst (λ x. encode_rsv x.sig ≡ some signature) m.reshaped is_signature;
          recovered = args.buyer;
          is_recovered =
              subst
                (λ x.
                  chain.recover_signer chain_id requirements.escrow_address x signature
                  ≡ returned args.buyer)
                m.reshaped recovered;
          signer = refl;
        };
        token_auth =
            carried-AuthAccepted requirements args.buyer chain_id now args.token_auth_strategy
              args.token_auth carried;
        fulfillment =
            resolve_for-SlotAccepted config.accepts_data args.action requirements.fulfillment
              validator config.fulfillment args.fulfillment agrees made.resolved;
      }

  build_payment-validate_payment_payload :
      (w w' : W) (payload : EscrowPaymentPayload)
      → IsValid
      → build_payment config requirements w ≡ (returned payload, w')
      → validate_payment_payload chain (checking config requirements payload chain_id now validator)
        ≡ ok
  build_payment-validate_payment_payload w w' payload valid h =
      let (parsed, made) = build_payment-Assembled config requirements w w' payload h in
      let made =
        subst (λ n. Assembled config requirements n payload) (same_id (sym made.chain ∙ same_chain))
          made in
      (validate_payment_payload_iff chain _).1 (
        subst (λ x. Accepted chain (checking config requirements x chain_id now validator))
          made.same (Assembled-Accepted payload valid made))
    where
      same_id : {a b : ℕ} → ◌≡◌ {A = Outcome ℕ} (returned a) (returned b) → a ≡ b
      same_id h = cc

  -- The header that `handle402` gives is the encoding of a payload that the server's validation
  -- accepts, for the same requirements, if these are for the server's chain and the offer's objects
  -- have distinct keys; core-sdk signs as the buyer's address, echoes the terms that it signs, and
  -- signs the calldata that the server's library builds; the server's clock is near the client's
  -- whenever the client reads its own; and the channel's validator accepts the data that its
  -- option's schema allows.
  pub handle_402-validate_payment_payload :
      (w w' : W) (header : String)
      → handle_402 config requirements w ≡ (returned header, w')
      → (payload : EscrowPaymentPayload) × (header ≡ config.encode payload)
        × (validate_payment_payload chain
              (checking config requirements payload chain_id now validator)
            ≡ ok)
  unfolding handle_402
  handle_402-validate_payment_payload w w' header h =
      elim (Bool-cases (escrow_payment_requirements_schema config.is_datetime requirements)) [
        | inl e ↦
            let (payload, u, built, same) =
              bind-eq-returned (build_payment config requirements) _ w (rw e at h) in
            (
              payload,
              sym (pure-eq (config.encode payload) header u w' same),
              build_payment-validate_payment_payload w u payload e built,
            )
        | inr e ↦ refused (rw e at h)
      ]
    where
      refused :
          ◌≡◌ {A = Outcome String × W} (thrown (error "ZodError"), w) (returned header, w')
          → (payload : EscrowPaymentPayload) × (header ≡ config.encode payload)
            × (validate_payment_payload chain
                  (checking config requirements payload chain_id now validator)
                ≡ ok)
      refused k = cc (ap (λ z. z.0) k)
