-- ===== src/Client/Fulfilled.antt =====
-- What the resource server makes of the fulfillment that the client chooses.
use mathlib.Core.Path.{subst}
use x402b.Prelude.{
  Option, none, some, Bool, true, ◌≡◌, refl, ap, sym, ◌∙◌, Memᴰ, ◌==◌, string_eq, Bool-cases, inl,
  inr, find?, find?-sound,
}
use x402b.Json.{Fields}
use x402b.Wire.{FulfillmentOption, FulfillmentRequirements}
use x402b.Effects.{Outcome, returned, thrown, error}
use x402b.Server.Payload.{
  CommitAction, create_offer_and_commit, create_offer_commit_and_redeem, DataValidator,
}
use x402b.Server.Payload.Rules.Terms.{DataFits, FulfillmentAccepted}
use x402b.Client.{FulfillmentConfig}
use x402b.Client.Choice.{
  commit_action_name, accept_data, accept_option, resolve_required, resolve_for, keep,
}
use x402b.Client.Payment.{fulfillment_slot}

-- What a schema, or its absence, allows as an option's data.
abbrev pub DataAllowed :
    ((schema : Fields) → Option Fields → Bool) → Option Fields → Option Fields → Type 0
DataAllowed accepts none d = d ≡ none
DataAllowed accepts (some schema) d = accepts schema d ≡ true

-- A channel's validator accepts the data that its option's schema allows.
abbrev pub Agrees :
    ((schema : Fields) → Option Fields → Bool)
    → Option FulfillmentRequirements
    → Option DataValidator
    → Type 0
Agrees accepts none validator = Unit
Agrees accepts (some f) validator =
    (o : FulfillmentOption) (d : Option Fields)
    → Memᴰ o f.options
    → DataAllowed accepts o.schema d
    → DataFits validator o.id d

-- The server takes the fulfillment that an action carries.
abbrev pub SlotAccepted :
    CommitAction
    → Option FulfillmentRequirements
    → Option DataValidator
    → Option FulfillmentConfig
    → Type 0
SlotAccepted action f validator chosen =
    FulfillmentAccepted (commit_action_name action == "boson-createOfferCommitAndRedeem") f
      validator (fulfillment_slot action chosen)

module _ (accepts : (schema : Fields) → Option Fields → Bool) where
  accept_data-DataAllowed :
      (chosen : FulfillmentConfig) (schema : Option Fields) (c : FulfillmentConfig)
      → accept_data accepts chosen schema ≡ returned c
      → (chosen ≡ c) × DataAllowed accepts schema c.chosen_data
  accept_data-DataAllowed chosen none c h = without chosen.chosen_data refl h
    where
      without :
          (d : Option Fields)
          → chosen.chosen_data ≡ d
          → ◌≡◌ {A = Outcome FulfillmentConfig}
              (elim d [
                | none ↦ returned chosen
                | some x ↦ thrown (error "FulfillmentValidationError")
              ])
              (returned c)
          → (chosen ≡ c) × (c.chosen_data ≡ none)
      without none p k =
          let same : chosen ≡ c = cc in (same, sym (ap (λ x. x.chosen_data) same) ∙ p)
      without (some x) p k = cc
  accept_data-DataAllowed chosen (some schema) c h =
      elim (Bool-cases (accepts schema chosen.chosen_data)) [
        | inl e ↦
            let k : ◌≡◌ {A = Outcome FulfillmentConfig} (returned chosen) (returned c) =
              rw e at h in
            let same : chosen ≡ c = cc in
            (same, subst (λ x. accepts schema x.chosen_data ≡ true) same e)
        | inr e ↦
            let k : ◌≡◌ {A = Outcome FulfillmentConfig}
                (thrown (error "FulfillmentValidationError")) (returned c) =
              rw e at h in
            cc
      ]

  keep-returned :
      (o : Outcome FulfillmentConfig) (f : Option FulfillmentConfig)
      → keep o ≡ returned f
      → (c : FulfillmentConfig) × (o ≡ returned c) × (some c ≡ f)
  keep-returned (returned c) f h = (c, refl, cc)
  keep-returned (thrown e) f h = cc

  -- The chosen option is an advertised one.
  accept_option-found :
      (chosen : FulfillmentConfig) (found : Option FulfillmentOption) (c : FulfillmentConfig)
      → accept_option accepts chosen found ≡ returned c
      → (o : FulfillmentOption) × (found ≡ some o)
        × (chosen ≡ c)
        × DataAllowed accepts o.schema c.chosen_data
  accept_option-found chosen none c h = cc
  accept_option-found chosen (some o) c h =
      let (same, allowed) = accept_data-DataAllowed chosen o.schema c h in (o, refl, same, allowed)

  slot-SlotAccepted :
      (action : CommitAction) (f : FulfillmentRequirements) (validator : Option DataValidator)
      (c : FulfillmentConfig) (o : FulfillmentOption)
      → find? (λ x. x.id == c.option) f.options ≡ some o
      → DataFits validator o.id c.chosen_data
      → SlotAccepted action (some f) validator (some c)
  slot-SlotAccepted create_offer_and_commit f validator c o found fits = (o, found, tt)
  slot-SlotAccepted create_offer_commit_and_redeem f validator c o found fits = (o, found, fits)

  resolve_required-SlotAccepted :
      (action : CommitAction) (f : FulfillmentRequirements) (validator : Option DataValidator)
      (chosen chose : Option FulfillmentConfig)
      → Agrees accepts (some f) validator
      → resolve_required accepts f.options chosen ≡ returned chose
      → SlotAccepted action (some f) validator chose
  resolve_required-SlotAccepted action f validator none chose agrees h = cc
  resolve_required-SlotAccepted action f validator (some chosen) chose agrees h =
      let (c, p, same) = keep-returned _ chose h in
      let (o, found, kept, allowed) = accept_option-found chosen _ c p in
      subst (SlotAccepted action (some f) validator) same (
        slot-SlotAccepted action f validator c o
          (subst (λ x. find? (λ y. y.id == x.option) f.options ≡ some o) kept found)
          (agrees o c.chosen_data (find?-sound _ _ o found).1 allowed))

  pub resolve_for-SlotAccepted :
      (action : CommitAction) (f : Option FulfillmentRequirements)
      (validator : Option DataValidator) (chosen chose : Option FulfillmentConfig)
      → Agrees accepts f validator
      → resolve_for accepts chosen f ≡ returned chose
      → SlotAccepted action f validator chose
  resolve_for-SlotAccepted action none validator chosen chose agrees h =
      let same : none ≡ chose = cc in subst (SlotAccepted action none validator) same refl
  resolve_for-SlotAccepted action (some f) validator chosen chose agrees h =
      elim (Bool-cases f.required) [
        | inl e ↦ resolve_required-SlotAccepted action f validator chosen chose agrees (rw e at h)
        | inr e ↦
            let k : ◌≡◌ {A = Outcome (Option FulfillmentConfig)} (returned none) (returned chose) =
              rw e at h in
            let same : none ≡ chose = cc in subst (SlotAccepted action (some f) validator) same e
      ]
