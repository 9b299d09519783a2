-- ===== src/Client/TokenAuth.antt =====
-- token-auth: the deadline of an authorisation, the choice of a strategy and the three signers.
use Prim.Native.Nat.{◌/◌}
use x402b.Prelude.{
  ℕ, ◌+◌, ◌-◌, String, List, [], ◌∷◌, Option, none, some, Bool, true, false, ◌&&◌, is_some, leb,
  if◌then◌else◌, find?, includes, ◌==◌, nat_eq,
}
use x402b.Wire.{
  TokenAuthStrategy, strategy_eq, EscrowPaymentRequirements, BosonTokenAuth, Erc3009AuthData,
  PermitAuthData, Permit2AuthData,
}
use x402b.Effects.{Eff, error, pure, throw, ◌>>=◌}
use x402b.Facilitator.Config.{TokenEip712Domain}
use x402b.Client.{
  CoreSdk, TokenDomainResolver, NonceReader, X402bClientConfig, SignedAuthorization, SignedPermit,
  parse_chain_id,
}

abbrev pub min : ℕ → ℕ → ℕ
min a b = if leb a b then a else b

abbrev pub max : ℕ → ℕ → ℕ
max a b = if leb a b then b else a

-- `TOKEN_AUTH_DEADLINE_SAFETY_MARGIN_SECONDS` is 60.
abbrev pub safety_margin_seconds : ℕ → ℕ
safety_margin_seconds timeout = min 60 (max 0 (timeout - 1))

-- `computeTokenAuthDeadline` at a time in milliseconds.
unfoldable pub compute_token_auth_deadline : (max_timeout_seconds now_ms : ℕ) → ℕ
compute_token_auth_deadline max_timeout_seconds now_ms =
    now_ms / 1000 + max 1 max_timeout_seconds - safety_margin_seconds (max 1 max_timeout_seconds)

pub record BuiltTokenAuth : Type 0 where
  pub strategy : TokenAuthStrategy
  pub token_auth : BosonTokenAuth

abbrev pub strategy_preference : List TokenAuthStrategy
strategy_preference =
    TokenAuthStrategy.erc3009 ∷ TokenAuthStrategy.permit2 ∷ TokenAuthStrategy.permit ∷ []

module _ {W : Type 0} (config : X402bClientConfig W) (sdk : CoreSdk W)
    (requirements : EscrowPaymentRequirements) (buyer : String) where
  abbrev pub deadline : W → ℕ
  deadline w = compute_token_auth_deadline requirements.max_timeout_seconds (config.now w)

  abbrev pub network_chain : Eff W ℕ
  network_chain w = (parse_chain_id requirements.network, w)

  abbrev pub erc3009_of : SignedAuthorization → Erc3009AuthData
  erc3009_of signed = record {
    from = buyer;
    to = requirements.escrow_address;
    value = requirements.amount;
    valid_after = signed.valid_after;
    valid_before = signed.valid_before;
    nonce = signed.nonce;
    v = signed.v;
    r = signed.r;
    s = signed.s;
  }

  abbrev pub sign_erc3009_at : TokenEip712Domain → Eff W Erc3009AuthData
  sign_erc3009_at domain w =
      (sdk.sign_erc3009 requirements.asset domain.name domain.version requirements.amount 0
            (deadline w) requirements.escrow_address
          >>= λ signed. pure (erc3009_of signed))
        w

  unfoldable pub sign_erc3009 : TokenDomainResolver W → Eff W Erc3009AuthData
  unfolding parse_chain_id compute_token_auth_deadline
  sign_erc3009 resolver = network_chain >>= λ chain_id.
      resolver requirements.asset chain_id >>= λ domain. sign_erc3009_at domain

  abbrev pub present : Option ℕ → Eff W ℕ
  present none = throw (error "UnsupportedTokenAuthError")
  present (some nonce) = pure nonce

  abbrev pub read_nonce : NonceReader W → Eff W ℕ
  read_nonce reader = reader requirements.asset buyer >>= present

  abbrev pub permit_of : ℕ → ℕ → SignedPermit → PermitAuthData
  permit_of nonce until signed = record {
    owner = buyer;
    spender = requirements.escrow_address;
    value = requirements.amount;
    deadline = until;
    nonce = config.to_text nonce;
    v = signed.v;
    r = signed.r;
    s = signed.s;
  }

  -- The nonce is to be the same before and after the signing.
  abbrev pub unless_shifted : ℕ → ℕ → SignedPermit → ℕ → Eff W PermitAuthData
  unless_shifted nonce until signed later =
      if nonce == later
      then pure (permit_of nonce until signed)
      else throw (error "UnsupportedTokenAuthError")

  abbrev pub sign_permit_at : NonceReader W → TokenEip712Domain → ℕ → Eff W PermitAuthData
  sign_permit_at reader domain nonce w =
      (sdk.sign_permit requirements.asset domain.name domain.version requirements.amount
            (deadline w) requirements.escrow_address
          >>= λ signed.
              read_nonce reader >>= λ later. unless_shifted nonce (deadline w) signed later)
        w

  unfoldable pub sign_permit : TokenDomainResolver W → NonceReader W → Eff W PermitAuthData
  unfolding parse_chain_id compute_token_auth_deadline
  sign_permit resolver reader = network_chain >>= λ chain_id.
      resolver requirements.asset chain_id >>= λ domain.
      read_nonce reader >>= λ nonce. sign_permit_at reader domain nonce

  abbrev pub permit2_of : ℕ → ℕ → String → Permit2AuthData
  permit2_of nonce until signature = record {
    permitted = record { token = requirements.asset; amount = requirements.amount };
    spender = requirements.escrow_address;
    nonce = config.to_text nonce;
    deadline = until;
    signature = signature;
  }

  unfoldable pub sign_permit2 : Eff W Permit2AuthData
  unfolding compute_token_auth_deadline
  sign_permit2 w =
      let (nonce, w') = config.random_uint256 w in
      (sdk.sign_permit2 requirements.asset requirements.amount (deadline w)
            requirements.escrow_address (config.to_text nonce)
          >>= λ signature. pure (permit2_of nonce (deadline w) signature))
        w'

  module _ (resolver : Option (TokenDomainResolver W)) (reader : Option (NonceReader W)) where
    abbrev pub strategy_is_available : TokenAuthStrategy → Bool
    strategy_is_available TokenAuthStrategy.erc3009 = is_some resolver
    strategy_is_available TokenAuthStrategy.permit = is_some resolver && is_some reader
    strategy_is_available TokenAuthStrategy.permit2 = true
    strategy_is_available TokenAuthStrategy.none = false

    abbrev pub chosen_among : List TokenAuthStrategy → Option TokenAuthStrategy
    chosen_among advertised =
        find? (λ s. includes advertised s && strategy_is_available s) strategy_preference

  abbrev pub build_erc3009 : Option (TokenDomainResolver W) → Eff W BuiltTokenAuth
  build_erc3009 none = throw (error "UnsupportedTokenAuthError")
  build_erc3009 (some resolver) = sign_erc3009 resolver >>= λ d.
      pure (record { strategy = TokenAuthStrategy.erc3009; token_auth = BosonTokenAuth.erc3009 d })

  abbrev pub build_permit :
      Option (TokenDomainResolver W) → Option (NonceReader W) → Eff W BuiltTokenAuth
  build_permit none reader = throw (error "UnsupportedTokenAuthError")
  build_permit (some resolver) none = throw (error "UnsupportedTokenAuthError")
  build_permit (some resolver) (some reader) = sign_permit resolver reader >>= λ d.
      pure (record { strategy = TokenAuthStrategy.permit; token_auth = BosonTokenAuth.permit d })

  abbrev pub build_permit2 : Eff W BuiltTokenAuth
  build_permit2 = sign_permit2 >>= λ d.
      pure (record { strategy = TokenAuthStrategy.permit2; token_auth = BosonTokenAuth.permit2 d })

  abbrev pub build_chosen :
      Option (TokenDomainResolver W)
      → Option (NonceReader W)
      → Option TokenAuthStrategy
      → Eff W BuiltTokenAuth
  build_chosen resolver reader none = throw (error "UnsupportedTokenAuthError")
  build_chosen resolver reader (some TokenAuthStrategy.none) =
      throw (error "UnsupportedTokenAuthError")
  build_chosen resolver reader (some TokenAuthStrategy.erc3009) = build_erc3009 resolver
  build_chosen resolver reader (some TokenAuthStrategy.permit) = build_permit resolver reader
  build_chosen resolver reader (some TokenAuthStrategy.permit2) = build_permit2

  -- `buildAndSignTokenAuth`, among the advertised strategies.
  unfoldable pub build_and_sign_token_auth :
      Option (TokenDomainResolver W)
      → Option (NonceReader W)
      → List TokenAuthStrategy
      → Eff W BuiltTokenAuth
  unfolding sign_erc3009 sign_permit sign_permit2
  build_and_sign_token_auth resolver reader advertised =
      build_chosen resolver reader (chosen_among resolver reader advertised)
