-- ===== src/Server/Payload/Rules/Terms.antt =====
-- The rules on the token authorization and on the fulfillment data.
use x402b.Prelude.{
  ℕ, ◌≤◌, String, Option, none, some, Bool, true, false, ◌≡◌, ◌≢◌, ◌↔◌, refl, ◌==◌, ◌!=◌, string_eq,
  SameText, find?,
}
use x402b.Json.{Fields}
use x402b.Wire.{
  BosonTokenAuth, TokenAuthStrategy, strategy_eq, strategy_beq_iff, kind, EscrowPaymentRequirements,
  FulfillmentRequirements, CarriedFulfillment, FulfillmentOption,
}
use x402b.Server.Payload.{
  Failure, refuse, ◌otherwise◌, Validation, valid, invalid, DataValidator, check_token_auth_terms,
  check_token_auth_of, is_required, advertised_options, check_data, check_carried_data,
  check_option, check_fulfillment_of,
}
use x402b.Server.Payload.Rules.Combine.{
  both_iff, check_same_iff, check_text_iff, check_deadline_iff, refuse_iff, refuse-not_iff,
}

module _ (requirements : EscrowPaymentRequirements) (horizon : ℕ) where
  -- The authorization is for the price, to the escrow contract, and expires by the horizon.
  abbrev pub Pulls : BosonTokenAuth → Type 0
  Pulls (BosonTokenAuth.erc3009 d) =
      (d.value ≡ requirements.amount)
      × (SameText d.to requirements.escrow_address × (d.valid_before ≤ horizon))
  Pulls (BosonTokenAuth.permit d) =
      (d.value ≡ requirements.amount)
      × (SameText d.spender requirements.escrow_address × (d.deadline ≤ horizon))
  Pulls (BosonTokenAuth.permit2 d) =
      (d.permitted.amount ≡ requirements.amount)
      × (SameText d.permitted.token requirements.asset
          × (SameText d.spender requirements.escrow_address × (d.deadline ≤ horizon)))

  -- There is an authorization, of the strategy's kind, unless the strategy is none.
  abbrev pub AuthAccepted : TokenAuthStrategy → Option BosonTokenAuth → Type 0
  AuthAccepted strategy none = strategy ≡ TokenAuthStrategy.none
  AuthAccepted strategy (some auth) = (kind auth ≡ strategy) × Pulls auth

  check_terms_iff :
      (auth : BosonTokenAuth)
      → (check_token_auth_terms requirements horizon auth ≡ none) ↔ Pulls auth
  unfolding check_token_auth_terms
  check_terms_iff (BosonTokenAuth.erc3009 d) =
      both_iff _ _ (check_same_iff _ _ _)
        (both_iff _ _ (check_text_iff _ _ _) (check_deadline_iff horizon d.valid_before _))
  check_terms_iff (BosonTokenAuth.permit d) =
      both_iff _ _ (check_same_iff _ _ _)
        (both_iff _ _ (check_text_iff _ _ _) (check_deadline_iff horizon d.deadline _))
  check_terms_iff (BosonTokenAuth.permit2 d) = both_iff _ _ (check_same_iff _ _ _) (
      both_iff _ _ (check_text_iff _ _ _)
        (both_iff _ _ (check_text_iff _ _ _) (check_deadline_iff horizon d.deadline _)))

  check_kind_iff :
      (strategy : TokenAuthStrategy) (auth : BosonTokenAuth) (f : Failure)
      → (refuse (kind auth != strategy) f otherwise check_token_auth_terms requirements horizon auth
          ≡ none)
        ↔ AuthAccepted strategy (some auth)
  check_kind_iff strategy auth f = both_iff _ _ (check_kind strategy auth f) (check_terms_iff auth)
    where
      check_kind :
          (strategy : TokenAuthStrategy) (auth : BosonTokenAuth) (f : Failure)
          → (refuse (kind auth != strategy) f ≡ none) ↔ (kind auth ≡ strategy)
      check_kind strategy auth f =
          let (go, back) = refuse-not_iff (kind auth == strategy) f in
          let (same, at) = strategy_beq_iff (kind auth) strategy in
          (λ h. same (go h), λ p. back (at p))

  kind_not_none : (auth : BosonTokenAuth) → kind auth ≢ TokenAuthStrategy.none
  kind_not_none (BosonTokenAuth.erc3009 d) p = cc
  kind_not_none (BosonTokenAuth.permit d) p = cc
  kind_not_none (BosonTokenAuth.permit2 d) p = cc

  pub check_token_auth_of_iff :
      (strategy : TokenAuthStrategy) (auth : Option BosonTokenAuth)
      → (check_token_auth_of requirements horizon strategy auth ≡ none) ↔ AuthAccepted strategy auth
  check_token_auth_of_iff TokenAuthStrategy.none none = (λ h. refl, λ h. refl)
  check_token_auth_of_iff TokenAuthStrategy.none (some auth) =
      (λ h. cc, λ (p, _). absurd (kind_not_none auth p))
  check_token_auth_of_iff TokenAuthStrategy.erc3009 none = (λ h. cc, λ h. cc)
  check_token_auth_of_iff TokenAuthStrategy.permit none = (λ h. cc, λ h. cc)
  check_token_auth_of_iff TokenAuthStrategy.permit2 none = (λ h. cc, λ h. cc)
  check_token_auth_of_iff TokenAuthStrategy.erc3009 (some auth) =
      check_kind_iff TokenAuthStrategy.erc3009 auth _
  check_token_auth_of_iff TokenAuthStrategy.permit (some auth) =
      check_kind_iff TokenAuthStrategy.permit auth _
  check_token_auth_of_iff TokenAuthStrategy.permit2 (some auth) =
      check_kind_iff TokenAuthStrategy.permit2 auth _

-- The channel's validator, where there is one, accepts the data.
abbrev pub DataFits : Option DataValidator → String → Option Fields → Type 0
DataFits none id d = Unit
DataFits (some validator) id d = validator id d ≡ valid

-- An atomic commit carries data that fit, and no other commit carries data.
abbrev pub CarriedAccepted : Bool → Option DataValidator → String → Option (Option Fields) → Type 0
CarriedAccepted true validator id none = ⊥
CarriedAccepted true validator id (some d) = DataFits validator id d
CarriedAccepted false validator id none = Unit
CarriedAccepted false validator id (some d) = ⊥

-- A fulfillment that is carried is of an advertised option; one is carried if it is required.
abbrev pub FulfillmentAccepted :
    Bool
    → Option FulfillmentRequirements
    → Option DataValidator
    → Option CarriedFulfillment
    → Type 0
FulfillmentAccepted atomic requirements validator none = is_required requirements ≡ false
FulfillmentAccepted atomic requirements validator (some carried) =
    (option : FulfillmentOption) × (find? (λ o. o.id == carried.option)
        (advertised_options requirements)
      ≡ some option)
    × CarriedAccepted atomic validator option.id carried.carried_data

check_data_iff :
    (validator : Option DataValidator) (id : String) (d : Option Fields)
    → (check_data validator id d ≡ none) ↔ DataFits validator id d
check_data_iff none id d = (λ h. tt, λ h. refl)
check_data_iff (some validator) id d = go (validator id d) refl
  where
    go :
        (v : Validation)
        → validator id d ≡ v
        → (check_data (some validator) id d ≡ none) ↔ (validator id d ≡ valid)
    go valid p = (λ h. p, λ h. rw p refl)
    go (invalid reason) p = (λ h. cc (rw p at h), λ h. cc)

check_carried_iff :
    (atomic : Bool) (validator : Option DataValidator) (id : String) (d : Option (Option Fields))
    → (check_carried_data atomic validator id d ≡ none) ↔ CarriedAccepted atomic validator id d
check_carried_iff true validator id none = (λ h. cc, λ h. absurd h)
check_carried_iff true validator id (some d) = check_data_iff validator id d
check_carried_iff false validator id none = (λ h. tt, λ h. refl)
check_carried_iff false validator id (some d) = (λ h. cc, λ h. absurd h)

check_option_iff :
    (atomic : Bool) (validator : Option DataValidator) (carried : CarriedFulfillment)
    (found : Option FulfillmentOption)
    → (check_option atomic validator carried found ≡ none) ↔ (
        (option : FulfillmentOption) × (found ≡ some option)
        × CarriedAccepted atomic validator option.id carried.carried_data)
check_option_iff atomic validator carried none = (λ h. cc, λ (o, p, a). cc)
check_option_iff atomic validator carried (some matched) = (
  λ h. (matched, refl, (check_carried_iff atomic validator matched.id carried.carried_data).0 h),
  λ (o, p, a).
      let same : matched ≡ o = cc in
      (check_carried_iff atomic validator matched.id carried.carried_data).1 (rw same a),
)

pub check_fulfillment_of_iff :
    (atomic : Bool) (requirements : Option FulfillmentRequirements)
    (validator : Option DataValidator) (carried : Option CarriedFulfillment)
    → (check_fulfillment_of atomic requirements validator carried ≡ none)
      ↔ FulfillmentAccepted atomic requirements validator carried
check_fulfillment_of_iff atomic requirements validator none =
    refuse_iff (is_required requirements) _
check_fulfillment_of_iff atomic requirements validator (some carried) =
    check_option_iff atomic validator carried _
