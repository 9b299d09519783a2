-- ===== src/Client/Accepted.antt =====
-- What the facilitator makes of an authorisation that the client signs.
use Prim.Native.Nat.{◌/◌}
use mathlib.Core.Path.{subst}
use x402b.Prelude.{
  ℕ, ◌+◌, ◌-◌, ◌≤◌, ◌<◌, String, List, Option, Bool, true, false, ◌≡◌, refl, ap, sym, ◌↔◌, ◌⊎◌,
  arith, Memᴰ, ◌==◌, nat_eq, if◌then◌else◌,
}
use x402b.Wire.{
  TokenAuthStrategy, strategy_eq, kind, EscrowPaymentRequirements, BosonTokenAuth, Erc3009AuthData,
  PermitAuthData, Permit2AuthData,
}
use x402b.Effects.{returned, bind-eq-returned, pure-eq, pure, throw, error}
use x402b.Facilitator.{ok}
use x402b.Facilitator.TokenAuth.{
  validate_deadline_window, VerifyTokenAuthSignatureArgs, check_terms,
}
use x402b.Facilitator.TokenAuth.Window.{validate_deadline_window_iff}
use x402b.Facilitator.TokenAuth.Signed.{IsLegacy, Within, HasTerms, check_terms_iff}
use x402b.Client.{
  CoreSdk, TokenDomainResolver, NonceReader, X402bClientConfig, SignedAuthorization, SignedPermit,
}
use x402b.Client.Chosen.{chosen_among-advertised, Signers, build_chosen-Built}
use x402b.Client.TokenAuth.{
  safety_margin_seconds, compute_token_auth_deadline, max, BuiltTokenAuth, sign_erc3009,
  sign_permit, sign_permit2, build_and_sign_token_auth, erc3009_of, permit_of, permit2_of, deadline,
  network_chain, read_nonce, unless_shifted,
}

-- The verifier's clock runs behind the signer's by at most 60 seconds, and by less than the timeout;
-- or it runs ahead, by less than what the timeout has beyond 60 seconds. All are in seconds.
abbrev pub Near : (timeout signer verifier : ℕ) → Type 0
Near timeout signer verifier =
    (signer ≤ verifier + 60)
    × (signer < verifier + timeout)
    × ((verifier ≤ signer) ⊎ (verifier + 60 < signer + timeout))

deadline-Within :
    (timeout signer verifier : ℕ)
    → 1 ≤ timeout
    → Within verifier (signer + max 1 timeout - safety_margin_seconds (max 1 timeout)) timeout
      ↔ Near timeout signer verifier
deadline-Within timeout signer verifier h = ground arith

-- A deadline that the client computes for a timeout of a second or more passes the facilitator's
-- window exactly when the facilitator's clock is behind the client's by at most 60 seconds, and by less
-- than the timeout, and is not ahead of it, or ahead by less than the timeout less 60 seconds.
pub compute_token_auth_deadline_iff :
    (timeout now_ms verifier : ℕ)
    → 1 ≤ timeout
    → (validate_deadline_window (compute_token_auth_deadline timeout now_ms) timeout verifier ≡ ok)
      ↔ Near timeout (now_ms / 1000) verifier
unfolding compute_token_auth_deadline
compute_token_auth_deadline_iff timeout now_ms verifier h =
    let window =
      validate_deadline_window_iff (compute_token_auth_deadline timeout now_ms) timeout verifier in
    let near = deadline-Within timeout (now_ms / 1000) verifier h in
    (λ k. near.0 (window.0 k), λ k. window.1 (near.1 k))

-- What core-sdk gives back: the times that it was given, and `v` in the legacy form.
pub record EchoesTerms {W : Type 0} (sdk : CoreSdk W) : Type 0 where
  pub echoes :
      (token name version amount : String) (after before : ℕ) (spender : String) (w w' : W)
      (r : SignedAuthorization)
      → sdk.sign_erc3009 token name version amount after before spender w ≡ (returned r, w')
      → (r.valid_after ≡ after) × (r.valid_before ≡ before) × IsLegacy r.v
  pub legacy_permit :
      (token name version amount : String) (until : ℕ) (spender : String) (w w' : W)
      (r : SignedPermit)
      → sdk.sign_permit token name version amount until spender w ≡ (returned r, w')
      → IsLegacy r.v

module _ (requirements : EscrowPaymentRequirements) (buyer : String) (chain_id now : ℕ) where
  -- What the facilitator compares with.
  abbrev pub verifying : VerifyTokenAuthSignatureArgs
  verifying = record {
    chain_id = chain_id;
    asset = requirements.asset;
    amount = requirements.amount;
    max_timeout_seconds = requirements.max_timeout_seconds;
    buyer = buyer;
    escrow_address = requirements.escrow_address;
  }

  -- A built authorisation that the facilitator's terms accept, of its strategy.
  pub record Accepted (built : BuiltTokenAuth) : Type 0 where
    pub same_kind : built.strategy ≡ kind built.token_auth
    pub accepted : check_terms verifying built.token_auth now ≡ ok

module _ {W : Type 0} (config : X402bClientConfig W) (sdk : CoreSdk W) (echo : EchoesTerms sdk)
    (requirements : EscrowPaymentRequirements) (buyer : String) (chain_id now : ℕ)
    (positive : 1 ≤ requirements.max_timeout_seconds) (started : 1 ≤ now)
    (clocks : (u : W) → Near requirements.max_timeout_seconds (config.now u / 1000) now) where
  deadline_lem :
      (u : W)
      → Within now (deadline config sdk requirements buyer u) requirements.max_timeout_seconds
  unfolding compute_token_auth_deadline
  deadline_lem u = (deadline-Within _ (config.now u / 1000) now positive).1 (clocks u)

  sign_erc3009-HasTerms :
      (resolver : TokenDomainResolver W) (w w' : W) (d : Erc3009AuthData)
      → sign_erc3009 config sdk requirements buyer resolver w ≡ (returned d, w')
      → HasTerms (verifying requirements buyer chain_id now) (BosonTokenAuth.erc3009 d) now
  unfolding sign_erc3009
  sign_erc3009-HasTerms resolver w w' d h =
      let (chain, u, p, h1) =
        bind-eq-returned (network_chain config sdk requirements buyer) _ w h in
      let (domain, u1, q, h2) = bind-eq-returned (resolver requirements.asset chain) _ u h1 in
      let (r, u2, signed, same) =
        bind-eq-returned
          (sdk.sign_erc3009 requirements.asset domain.name domain.version requirements.amount 0
            (deadline config sdk requirements buyer u1) requirements.escrow_address)
          _ u1 h2 in
      let (after, before, legacy) = echo.echoes _ _ _ _ _ _ _ u1 u2 r signed in
      subst
        (λ x. HasTerms (verifying requirements buyer chain_id now) (BosonTokenAuth.erc3009 x) now)
        (pure-eq (erc3009_of config sdk requirements buyer r) d u2 w' same)
        (
          legacy,
          (
            refl,
            (
              refl,
              (
                refl,
                (
                  omega arith,
                  subst (λ b. Within now b requirements.max_timeout_seconds) (sym before)
                      (deadline_lem u1),
                ),
              ),
            ),
          ),
        )

  unless_shifted-eq :
      (nonce until : ℕ) (signed : SignedPermit) (later : ℕ) (w w' : W) (d : PermitAuthData)
      → unless_shifted config sdk requirements buyer nonce until signed later w ≡ (returned d, w')
      → permit_of config sdk requirements buyer nonce until signed ≡ d
  unless_shifted-eq nonce until signed later w w' d h = of_test (nonce == later) h
    where
      of_test :
          (b : Bool)
          → (if b
                then pure (permit_of config sdk requirements buyer nonce until signed)
                else throw (error "UnsupportedTokenAuthError"))
              w
            ≡ (returned d, w')
          → permit_of config sdk requirements buyer nonce until signed ≡ d
      of_test true h = pure-eq (permit_of config sdk requirements buyer nonce until signed) d w w' h
      of_test false h = cc (ap (λ z. z.0) h)

  sign_permit-HasTerms :
      (resolver : TokenDomainResolver W) (reader : NonceReader W) (w w' : W) (d : PermitAuthData)
      → sign_permit config sdk requirements buyer resolver reader w ≡ (returned d, w')
      → HasTerms (verifying requirements buyer chain_id now) (BosonTokenAuth.permit d) now
  unfolding sign_permit
  sign_permit-HasTerms resolver reader w w' d h =
      let (chain, u, p, h1) =
        bind-eq-returned (network_chain config sdk requirements buyer) _ w h in
      let (domain, u1, q, h2) = bind-eq-returned (resolver requirements.asset chain) _ u h1 in
      let (nonce, u2, r, h3) =
        bind-eq-returned (read_nonce config sdk requirements buyer reader) _ u1 h2 in
      let (permit, u3, signed, h4) =
        bind-eq-returned
          (sdk.sign_permit requirements.asset domain.name domain.version requirements.amount
            (deadline config sdk requirements buyer u2) requirements.escrow_address)
          _ u2 h3 in
      let (later, u4, s, same) =
        bind-eq-returned (read_nonce config sdk requirements buyer reader) _ u3 h4 in
      let legacy = echo.legacy_permit _ _ _ _ _ _ u2 u3 permit signed in
      subst
        (λ x. HasTerms (verifying requirements buyer chain_id now) (BosonTokenAuth.permit x) now)
        (unless_shifted-eq nonce (deadline config sdk requirements buyer u2) permit later u4 w' d
          same)
        (legacy, (refl, (refl, (refl, deadline_lem u2))))

  sign_permit2-HasTerms :
      (w w' : W) (d : Permit2AuthData)
      → sign_permit2 config sdk requirements buyer w ≡ (returned d, w')
      → HasTerms (verifying requirements buyer chain_id now) (BosonTokenAuth.permit2 d) now
  unfolding sign_permit2
  sign_permit2-HasTerms w w' d h =
      let (nonce, u) = config.random_uint256 w in
      let (signature, u1, signed, same) =
        bind-eq-returned
          (sdk.sign_permit2 requirements.asset requirements.amount
            (deadline config sdk requirements buyer w) requirements.escrow_address
            (config.to_text nonce))
          _ u h in
      subst
        (λ x. HasTerms (verifying requirements buyer chain_id now) (BosonTokenAuth.permit2 x) now)
        (pure-eq
          (permit2_of config sdk requirements buyer nonce (deadline config sdk requirements buyer w)
            signature)
          d u1 w' same)
        (refl, (refl, (refl, deadline_lem w)))

  pub signs_terms :
      Signers config sdk requirements buyer
        (λ auth. HasTerms (verifying requirements buyer chain_id now) auth now)
  signs_terms = record {
    on_erc3009 = sign_erc3009-HasTerms;
    on_permit = sign_permit-HasTerms;
    on_permit2 = sign_permit2-HasTerms;
  }

  -- If core-sdk echoes the terms that it signs, and the clocks are near whenever the client reads
  -- its own, an authorisation that the client builds is of an advertised strategy, and the
  -- facilitator finds in it the terms of the requirements.
  pub build_and_sign_token_auth-Accepted :
      (resolver : Option (TokenDomainResolver W)) (reader : Option (NonceReader W))
      (advertised : List TokenAuthStrategy) (w w' : W) (built : BuiltTokenAuth)
      → build_and_sign_token_auth config sdk requirements buyer resolver reader advertised w
        ≡ (returned built, w')
      → Memᴰ built.strategy advertised × Accepted requirements buyer chain_id now built
  unfolding build_and_sign_token_auth
  build_and_sign_token_auth-Accepted resolver reader advertised w w' built h =
      let (chosen, same, terms) =
        build_chosen-Built config sdk requirements buyer _ signs_terms resolver reader _ w w' built
          h in
      (
        chosen_among-advertised config sdk requirements buyer resolver reader advertised
            built.strategy chosen,
        record {
          same_kind = same;
          accepted =
              (check_terms_iff (verifying requirements buyer chain_id now) built.token_auth now).1
                terms;
        },
      )
