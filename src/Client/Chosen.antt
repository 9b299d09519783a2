-- ===== src/Client/Chosen.antt =====
-- Which strategy the client authorises a payment with.
use mathlib.Core.Path.{subst}
use x402b.Prelude.{
  String, List, [], ◌∷◌, Option, none, some, Bool, true, false, ◌≡◌, refl, ap, sym, Memᴰ, ◌&&◌,
  find?-sound, includes, includes_iff_left, ℕ, Bool-cases, inl, inr,
}
use x402b.Wire.{
  TokenAuthStrategy, strategy_eq, kind, EscrowPaymentRequirements, BosonTokenAuth, Erc3009AuthData,
  PermitAuthData, Permit2AuthData,
}
use x402b.Effects.{Outcome, returned, thrown, bind-eq-returned, pure-eq, pure, error}
use x402b.Facilitator.Structural.Accepts.{FitsStrategy}
use x402b.Client.{CoreSdk, TokenDomainResolver, NonceReader, X402bClientConfig}
use x402b.Client.TokenAuth.{
  BuiltTokenAuth, chosen_among, strategy_is_available, build_chosen, build_and_sign_token_auth,
  strategy_preference, sign_erc3009, sign_permit, sign_permit2,
}
use x402b.Client.Payment.{token_auth_for, dispatch, forced_auth, with_token_auth, no_token_auth}

-- Nothing for the strategy none, and for another an authorisation of its kind, with a property.
abbrev pub Carries :
    (P : BosonTokenAuth → Type 0) → TokenAuthStrategy → Option BosonTokenAuth → Type 0
Carries P strategy none = strategy ≡ TokenAuthStrategy.none
Carries P strategy (some auth) = (strategy ≡ kind auth) × P auth

fits_kind : (auth : BosonTokenAuth) → FitsStrategy (kind auth) (some auth)
fits_kind (BosonTokenAuth.erc3009 d) = refl
fits_kind (BosonTokenAuth.permit d) = refl
fits_kind (BosonTokenAuth.permit2 d) = refl

pub Carries-FitsStrategy :
    (P : BosonTokenAuth → Type 0) (s : TokenAuthStrategy) (o : Option BosonTokenAuth)
    → Carries P s o
    → FitsStrategy s o
Carries-FitsStrategy P s none h = subst (λ x. FitsStrategy x none) (sym h) tt
Carries-FitsStrategy P s (some auth) (h, _) =
    subst (λ x. FitsStrategy x (some auth)) (sym h) (fits_kind auth)

module _ {W : Type 0} (config : X402bClientConfig W) (sdk : CoreSdk W)
    (requirements : EscrowPaymentRequirements) (buyer : String) where
  pub chosen_among-advertised :
      (resolver : Option (TokenDomainResolver W)) (reader : Option (NonceReader W))
      (advertised : List TokenAuthStrategy) (s : TokenAuthStrategy)
      → chosen_among config sdk requirements buyer resolver reader advertised ≡ some s
      → Memᴰ s advertised
  chosen_among-advertised resolver reader advertised s h =
      let (tests, m) =
        find?-sound
          (λ x.
            includes advertised x
            && strategy_is_available config sdk requirements buyer resolver reader x)
          strategy_preference s h in
      includes_iff_left advertised s
        (first_true _ (strategy_is_available config sdk requirements buyer resolver reader s) tests)
    where
      first_true : (a b : Bool) → a && b ≡ true → a ≡ true
      first_true true b h = refl
      first_true false b h = cc

  -- The three signers' results, each with a property of the authorisation.
  pub record Signers (P : BosonTokenAuth → Type 0) : Type 0 where
    pub on_erc3009 :
        (resolver : TokenDomainResolver W) (w w' : W) (d : Erc3009AuthData)
        → sign_erc3009 config sdk requirements buyer resolver w ≡ (returned d, w')
        → P (BosonTokenAuth.erc3009 d)
    pub on_permit :
        (resolver : TokenDomainResolver W) (reader : NonceReader W) (w w' : W) (d : PermitAuthData)
        → sign_permit config sdk requirements buyer resolver reader w ≡ (returned d, w')
        → P (BosonTokenAuth.permit d)
    pub on_permit2 :
        (w w' : W) (d : Permit2AuthData)
        → sign_permit2 config sdk requirements buyer w ≡ (returned d, w')
        → P (BosonTokenAuth.permit2 d)

  -- What is built has the chosen strategy, is of that kind, and was signed by its signer.
  abbrev pub Built :
      (P : BosonTokenAuth → Type 0) (o : Option TokenAuthStrategy) (built : BuiltTokenAuth) → Type 0
  Built P o built =
      (o ≡ some built.strategy) × (built.strategy ≡ kind built.token_auth) × P built.token_auth

  signed_as :
      (P : BosonTokenAuth → Type 0) (auth : BosonTokenAuth) (built : BuiltTokenAuth) (w w' : W)
      → P auth
      → pure (record { strategy = kind auth; token_auth = auth }) w ≡ (returned built, w')
      → Built P (some (kind auth)) built
  signed_as P auth built w w' good h =
      subst (λ b. Built P (some (kind auth)) b)
        (pure-eq (record { strategy = kind auth; token_auth = auth }) built w w' h)
        (refl, refl, good)

  pub build_chosen-Built :
      (P : BosonTokenAuth → Type 0) (signers : Signers P)
      (resolver : Option (TokenDomainResolver W)) (reader : Option (NonceReader W))
      (o : Option TokenAuthStrategy) (w w' : W) (built : BuiltTokenAuth)
      → build_chosen config sdk requirements buyer resolver reader o w ≡ (returned built, w')
      → Built P o built
  build_chosen-Built P signers resolver reader none w w' built h = cc (ap (λ z. z.0) h)
  build_chosen-Built P signers resolver reader (some TokenAuthStrategy.none) w w' built h =
      cc (ap (λ z. z.0) h)
  build_chosen-Built P signers none reader (some TokenAuthStrategy.erc3009) w w' built h =
      cc (ap (λ z. z.0) h)
  build_chosen-Built P signers (some resolver) reader (some TokenAuthStrategy.erc3009) w w' built
        h =
      let (d, u, signed, same) =
        bind-eq-returned (sign_erc3009 config sdk requirements buyer resolver) _ w h in
      signed_as P (BosonTokenAuth.erc3009 d) built u w' (signers.on_erc3009 resolver w u d signed)
        same
  build_chosen-Built P signers none reader (some TokenAuthStrategy.permit) w w' built h =
      cc (ap (λ z. z.0) h)
  build_chosen-Built P signers (some resolver) none (some TokenAuthStrategy.permit) w w' built h =
      cc (ap (λ z. z.0) h)
  build_chosen-Built P signers (some resolver) (some reader) (some TokenAuthStrategy.permit) w w'
        built h =
      let (d, u, signed, same) =
        bind-eq-returned (sign_permit config sdk requirements buyer resolver reader) _ w h in
      signed_as P (BosonTokenAuth.permit d) built u w'
        (signers.on_permit resolver reader w u d signed) same
  build_chosen-Built P signers resolver reader (some TokenAuthStrategy.permit2) w w' built h =
      let (d, u, signed, same) =
        bind-eq-returned (sign_permit2 config sdk requirements buyer) _ w h in
      signed_as P (BosonTokenAuth.permit2 d) built u w' (signers.on_permit2 w u d signed) same

  abbrev pub any_signed : Signers (λ auth. Unit)
  any_signed = record {
    on_erc3009 = λ resolver w w' d h. tt;
    on_permit = λ resolver reader w w' d h. tt;
    on_permit2 = λ w w' d h. tt;
  }

  only : (s t : TokenAuthStrategy) → Memᴰ s (t ∷ []) → s ≡ t
  only s t (Memᴰ.head p) = p
  only s t (Memᴰ.tail m) = elim m [ ]

  module _ (P : BosonTokenAuth → Type 0) (signers : Signers P) where
    abbrev Chooses : List TokenAuthStrategy → TokenAuthStrategy × Option BosonTokenAuth → Type 0
    Chooses advertised auth = Memᴰ auth.0 advertised × Carries P auth.0 auth.1

    dispatch-Chooses :
        (chain_id : ℕ) (advertised : List TokenAuthStrategy) (w w' : W)
        (auth : TokenAuthStrategy × Option BosonTokenAuth)
        → dispatch config requirements sdk buyer chain_id advertised w ≡ (returned auth, w')
        → Chooses advertised auth
    unfolding build_and_sign_token_auth
    dispatch-Chooses chain_id advertised w w' auth h =
        let (built, u, p, same) =
          bind-eq-returned
            (build_chosen config sdk requirements buyer config.token_domain_resolver
              (config.public_clients chain_id)
              (chosen_among config sdk requirements buyer config.token_domain_resolver
                (config.public_clients chain_id) advertised))
            (with_token_auth config requirements) w h in
        let (chosen, of_kind, good) = build_chosen-Built P signers _ _ _ w u built p in
        subst (Chooses advertised) (pure-eq (built.strategy, some built.token_auth) auth u w' same)
          (chosen_among-advertised _ _ advertised built.strategy chosen, (of_kind, good))

    abbrev Forces : TokenAuthStrategy → TokenAuthStrategy × Option BosonTokenAuth → Type 0
    Forces strategy auth = (auth.0 ≡ strategy) × Carries P auth.0 auth.1

    forced_auth-Forces :
        (chain_id : ℕ) (strategy : TokenAuthStrategy) (w w' : W)
        (auth : TokenAuthStrategy × Option BosonTokenAuth)
        → forced_auth config requirements sdk buyer chain_id strategy w ≡ (returned auth, w')
        → Forces strategy auth
    forced_auth-Forces chain_id TokenAuthStrategy.none w w' auth h =
        subst (Forces TokenAuthStrategy.none) (pure-eq no_token_auth auth w w' h) (refl, refl)
    forced_auth-Forces chain_id TokenAuthStrategy.erc3009 w w' auth h =
        let (m, f) = dispatch-Chooses chain_id _ w w' auth h in (only _ _ m, f)
    forced_auth-Forces chain_id TokenAuthStrategy.permit w w' auth h =
        let (m, f) = dispatch-Chooses chain_id _ w w' auth h in (only _ _ m, f)
    forced_auth-Forces chain_id TokenAuthStrategy.permit2 w w' auth h =
        let (m, f) = dispatch-Chooses chain_id _ w w' auth h in (only _ _ m, f)

    -- The strategy is one of the requirements', with the authorisation that it needs.
    pub token_auth_for-Chooses :
        (chain_id : ℕ) (forced : Option TokenAuthStrategy) (w w' : W)
        (auth : TokenAuthStrategy × Option BosonTokenAuth)
        → token_auth_for config requirements sdk buyer chain_id forced w ≡ (returned auth, w')
        → Memᴰ auth.0 requirements.token_auth_strategies × Carries P auth.0 auth.1
    token_auth_for-Chooses chain_id none w w' auth h = dispatch-Chooses chain_id _ w w' auth h
    token_auth_for-Chooses chain_id (some strategy) w w' auth h =
        elim (Bool-cases (includes requirements.token_auth_strategies strategy)) [
          | inl e ↦
              let (same, f) = forced_auth-Forces chain_id strategy w w' auth (rw e at h) in
              (
                subst (λ s. Memᴰ s requirements.token_auth_strategies) (sym same)
                    (includes_iff_left _ strategy e),
                f,
              )
          | inr e ↦ refused (rw e at h)
        ]
      where
        refused :
            ◌≡◌ {A = Outcome (TokenAuthStrategy × Option BosonTokenAuth) × W}
              (thrown (error "UnsupportedTokenAuthError"), w)
              (returned auth, w')
            → Chooses requirements.token_auth_strategies auth
        refused k = cc (ap (λ z. z.0) k)
