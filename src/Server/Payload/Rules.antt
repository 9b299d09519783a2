-- ===== src/Server/Payload/Rules.antt =====
-- What the payloads that `validatePaymentPayload` accepts satisfy.
pub mod Combine
pub mod Terms
pub mod Signed
use x402b.Prelude.{
  ℕ, ◌+◌, String, Option, none, some, Bool, true, not, ◌||◌, ◌≡◌, ◌↔◌, refl, ap, Eq, ◌==◌, ◌!=◌,
  string_eq, eq_iff, list_eq, SameText, same_text_iff, includes, List, Memᴰ, includes_iff_left,
  includes_of_mem, map, arith,
}
use x402b.Wire.{EscrowPaymentPayload, EscrowPaymentRequirements, strategy_eq}
use x402b.Server.Payload.{
  Failure, ok, failure, refuse, ◌otherwise◌, fail, first_failure, validate_payment_payload, Chain,
  result_of, ValidatePaymentPayloadArgs, check_calldata, check_signer, check_token_auth,
  check_fulfillment,
}
use x402b.Server.Payload.Offer.{deep_equal}
use x402b.Server.Payload.Rules.Combine.{both_iff, check_same_iff, refuse_iff, refuse-not_iff}
use x402b.Server.Payload.Rules.Signed.{
  SignsOffer, SignedByBuyer, check_calldata_iff, check_signer_iff,
}
use x402b.Server.Payload.Rules.Terms.{
  AuthAccepted, FulfillmentAccepted, check_token_auth_of_iff, check_fulfillment_of_iff,
}

-- All the rules.
pub record Accepted (chain : Chain) (args : ValidatePaymentPayloadArgs) : Type 0 where
  pub scheme : args.payload.scheme ≡ "escrow"
  pub requirements_scheme : args.requirements.scheme ≡ "escrow"
  pub network : args.payload.network ≡ args.requirements.network
  pub full_offer :
      deep_equal args.payload.payload.offer_ref.full_offer args.requirements.offer.full_offer ≡ true
  pub seller_sig : args.payload.payload.offer_ref.seller_sig ≡ args.requirements.offer.seller_sig
  pub action :
      Memᴰ args.payload.payload.action (map (λ entry. entry.id) args.requirements.actions.next)
  pub strategy :
      Memᴰ args.payload.payload.token_auth_strategy args.requirements.token_auth_strategies
  pub calldata : SignsOffer chain args.payload
  pub signer : SignedByBuyer chain args.chain_id args.payload args.requirements
  pub token_auth :
      AuthAccepted args.requirements
        (args.now + args.requirements.max_timeout_seconds)
        args.payload.payload.token_auth_strategy
        args.payload.payload.token_auth
  pub fulfillment :
      FulfillmentAccepted
        (args.payload.payload.action == "boson-createOfferCommitAndRedeem")
        args.requirements.fulfillment
        args.validate_fulfillment_data
        args.payload.fulfillment

refuse_scheme_iff :
    (a b : String) (f : Failure)
    → (refuse (a != "escrow" || (b != "escrow")) f ≡ none) ↔ ((a ≡ "escrow") × (b ≡ "escrow"))
refuse_scheme_iff a b f =
    ground
      (arith, refuse_iff (a != "escrow" || (b != "escrow")) f, eq_iff a "escrow", eq_iff b "escrow")

check_included_iff {ℓ} :
    {A : Type ℓ} ⦃e : Eq A⦄ (xs : List A) (a : A) (f : Failure)
    → (refuse (not (includes xs a)) f ≡ none) ↔ Memᴰ a xs
check_included_iff xs a f =
    let (go, back) = refuse-not_iff (includes xs a) f in
    (λ h. includes_iff_left xs a (go h), λ m. back (includes_of_mem xs a m))

ok_iff : (found : Option Failure) → (result_of found ≡ ok) ↔ (found ≡ none)
ok_iff none = (λ h. refl, λ h. refl)
ok_iff (some f) = (λ h. cc, λ h. cc)

module _ (chain : Chain) (args : ValidatePaymentPayloadArgs) where
  abbrev Rules : Type 0
  Rules =
      ((args.payload.scheme ≡ "escrow") × (args.requirements.scheme ≡ "escrow"))
      × ((args.payload.network ≡ args.requirements.network)
          × ((deep_equal args.payload.payload.offer_ref.full_offer
                  args.requirements.offer.full_offer
                ≡ true)
              × ((args.payload.payload.offer_ref.seller_sig ≡ args.requirements.offer.seller_sig)
                  × (Memᴰ args.payload.payload.action
                        (map (λ entry. entry.id) args.requirements.actions.next)
                      × (Memᴰ args.payload.payload.token_auth_strategy
                            args.requirements.token_auth_strategies
                          × (SignsOffer chain args.payload
                              × (SignedByBuyer chain args.chain_id args.payload args.requirements
                                  × (AuthAccepted args.requirements
                                        (args.now + args.requirements.max_timeout_seconds)
                                        args.payload.payload.token_auth_strategy
                                        args.payload.payload.token_auth
                                      × FulfillmentAccepted
                                          (args.payload.payload.action
                                            == "boson-createOfferCommitAndRedeem")
                                          args.requirements.fulfillment
                                          args.validate_fulfillment_data
                                          args.payload.fulfillment))))))))

  first_failure_iff : (first_failure chain args ≡ none) ↔ Rules
  unfolding first_failure check_token_auth check_fulfillment
  first_failure_iff = both_iff _ _ (refuse_scheme_iff _ _ _) (
      both_iff _ _ (check_same_iff _ _ _) (
        both_iff _ _ (refuse-not_iff _ _) (
          both_iff _ _ (check_same_iff _ _ _) (
            both_iff _ _ (check_included_iff _ _ _) (
              both_iff _ _ (check_included_iff _ _ _) (
                both_iff _ _ (check_calldata_iff chain args.payload) (
                  both_iff _ _ (check_signer_iff chain args.payload args.chain_id args.requirements)
                    (both_iff _ _
                      (check_token_auth_of_iff args.requirements
                        (args.now + args.requirements.max_timeout_seconds)
                        args.payload.payload.token_auth_strategy args.payload.payload.token_auth)
                      (check_fulfillment_of_iff
                        (args.payload.payload.action == "boson-createOfferCommitAndRedeem")
                        args.requirements.fulfillment args.validate_fulfillment_data
                        args.payload.fulfillment)))))))))

  Accepted-of_rules : Rules → Accepted chain args
  Accepted-of_rules
        (
          (scheme, requirements_scheme),
          (
            network,
            (offer, (sig, (action, (strategy, (calldata, (signer, (auth, fulfillment))))))),
          ),
        ) =
      record {
        scheme = scheme;
        requirements_scheme = requirements_scheme;
        network = network;
        full_offer = offer;
        seller_sig = sig;
        action = action;
        strategy = strategy;
        calldata = calldata;
        signer = signer;
        token_auth = auth;
        fulfillment = fulfillment;
      }

  rules_of_Accepted : Accepted chain args → Rules
  rules_of_Accepted a = (
    (a.scheme, a.requirements_scheme),
    (
      a.network,
      (
        a.full_offer,
        (
          a.seller_sig,
          (a.action, (a.strategy, (a.calldata, (a.signer, (a.token_auth, a.fulfillment))))),
        ),
      ),
    ),
  )

-- A payload is accepted exactly when it satisfies every rule: the scheme, the network, the seller's
-- offer and signature, an advertised action and strategy, the calldata that the offer gives, the
-- buyer's signature, the terms of the token authorization and the fulfillment data.
pub validate_payment_payload_iff :
    (chain : Chain) (args : ValidatePaymentPayloadArgs)
    → (validate_payment_payload chain args ≡ ok) ↔ Accepted chain args
unfolding validate_payment_payload
validate_payment_payload_iff chain args =
    let (go, back) = ok_iff (first_failure chain args) in
    let (rules, found) = first_failure_iff chain args in
    (
      λ h. Accepted-of_rules chain args (rules (go h)),
      λ a. back (found (rules_of_Accepted chain args a)),
    )
