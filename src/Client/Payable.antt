-- ===== src/Client/Payable.antt =====
-- What the facilitator makes of a payment that the client builds.
use mathlib.Core.Path.{subst}
use x402b.Prelude.{
  ℕ, String, List, [], ◌∷◌, map, some, Bool, true, false, ◌≡◌, refl, ap, sym, ◌∙◌, Memᴰ, ◌&&◌, ◌==◌,
  eq_iff, string_eq, Bool-cases, inl, inr,
}
use x402b.Json.{Fields}
use x402b.Wire.{
  EscrowPaymentRequirements, EscrowPaymentPayload, NextAction, BosonMetaTx, channel_eq,
}
use x402b.Wire.Schemas.{escrow_payment_payload_schema, escrow_payment_requirements_schema}
use x402b.Effects.{Outcome, returned}
use x402b.Server.Payload.{
  CommitAction, create_offer_and_commit, create_offer_commit_and_redeem, commit_action, splice,
  InnerActionCalldata,
}
use x402b.Facilitator.{ok, FacilitatorVerifyInput}
use x402b.Facilitator.Config.{FacilitatorConfig}
use x402b.Facilitator.Structural.Accepts.{FitsStrategy}
use x402b.Facilitator.Verify.{check_structure}
use x402b.Facilitator.Verify.Structure.{WellFormed, check_structure_iff}
use x402b.Client.{
  CoreSdk, SignedMetaTx, X402bClientConfig, RedeemMode, auto, commit_only, commit_and_redeem,
}
use x402b.Client.Choice.{
  commit_action_name, offers, any_offers, require_offered, pick_mode, pick_action,
}
use x402b.Client.Payment.{create_offer_and_commit_args, AssembleArgs, payload_of, build_payment}
use x402b.Client.Chosen.{token_auth_for-Chooses, any_signed, Carries-FitsStrategy}
use x402b.Client.Assembled.{MetaTxSigned, build_payment-Assembled}

any_offers-advertised :
    (action : CommitAction) (next : List NextAction)
    → any_offers action next ≡ true
    → Memᴰ (commit_action_name action) (map (λ entry. entry.id) next)
any_offers-advertised action [] h = cc
any_offers-advertised action (entry ∷ next) h = elim (Bool-cases (offers action entry)) [
  | inl e ↦ Memᴰ.head (first_equal entry.id (commit_action_name action) _ e)
  | inr e ↦ Memᴰ.tail (any_offers-advertised action next (rw e at h))
]
  where
    first_equal : (a b : String) (c : Bool) → a == b && c ≡ true → b ≡ a
    first_equal a b c h = sym ((eq_iff a b).0 (first (a == b) c h))
      where
        first : (x y : Bool) → x && y ≡ true → x ≡ true
        first true y k = refl
        first false y k = cc

require_offered-returned :
    (action chosen : CommitAction) (b : Bool)
    → require_offered action b ≡ returned chosen
    → (b ≡ true) × (action ≡ chosen)
require_offered-returned action chosen true h = (refl, cc)
require_offered-returned action chosen false h = cc

pick_mode-returned :
    (next : List NextAction) (mode : RedeemMode) (chosen : CommitAction)
    → pick_mode mode
        (any_offers create_offer_and_commit next)
        (any_offers create_offer_commit_and_redeem next)
      ≡ returned chosen
    → any_offers chosen next ≡ true
pick_mode-returned next commit_and_redeem chosen h =
    let (b, same) = require_offered-returned _ chosen _ h in
    subst (λ a. any_offers a next ≡ true) same b
pick_mode-returned next commit_only chosen h =
    let (b, same) = require_offered-returned _ chosen _ h in
    subst (λ a. any_offers a next ≡ true) same b
pick_mode-returned next auto chosen h =
    elim (Bool-cases (any_offers create_offer_and_commit next)) [
      | inl e ↦
          let same : ◌≡◌ {A = Outcome CommitAction} (returned create_offer_and_commit)
              (returned chosen) =
            rw e at h in
          let action : create_offer_and_commit ≡ chosen = cc in
          subst (λ a. any_offers a next ≡ true) action e
      | inr e ↦
          let (b, same) =
            require_offered-returned create_offer_commit_and_redeem chosen _ (rw e at h) in
          subst (λ a. any_offers a next ≡ true) same b
    ]

pub commit_action-name :
    (action : CommitAction) → commit_action (commit_action_name action) ≡ some action
commit_action-name create_offer_and_commit = refl
commit_action-name create_offer_commit_and_redeem = refl

-- What core-sdk signs for a commitment is the calldata that another party's library builds for the
-- same offer, buyer and seller's signature; the order of the arguments' fields does not matter.
pub record SignsBuilt {W : Type 0} (sdk : CoreSdk W)
    (build : CommitAction → Fields → Outcome InnerActionCalldata) : Type 0 where
  pub signs :
      (action : CommitAction) (nonce : String) (offer : Fields) (buyer seller_sig : String)
      (w w' : W) (signed : SignedMetaTx)
      → sdk.sign_commit action nonce (create_offer_and_commit_args offer buyer seller_sig) w
        ≡ (returned signed, w')
      → build action (splice offer buyer seller_sig)
        ≡ returned (record {
          function_name = signed.function_name;
          function_signature = signed.function_signature;
        })

-- The calldata that a meta-transaction carries.
abbrev pub calldata_of : BosonMetaTx → InnerActionCalldata
calldata_of m = record {
  function_name = m.function_name;
  function_signature = m.function_signature;
}

-- The buyer's payment, as the facilitator is asked about it.
abbrev pub asked : EscrowPaymentRequirements → EscrowPaymentPayload → FacilitatorVerifyInput
asked requirements payload = record {
  scheme = "escrow";
  network = requirements.network;
  payload = payload;
  requirements = requirements;
}

module _ {W : Type 0} (config : X402bClientConfig W)
    (requirements : EscrowPaymentRequirements) where
  pub pick_action-advertised :
      (action : CommitAction)
      → pick_action requirements config.policy.redeem_mode ≡ returned action
      → Memᴰ (commit_action_name action) (map (λ entry. entry.id) requirements.actions.next)
  unfolding pick_action
  pick_action-advertised action h =
      any_offers-advertised action _ (pick_mode-returned _ config.policy.redeem_mode action h)

  pub meta_tx-built :
      (sdk : CoreSdk W) (build : CommitAction → Fields → Outcome InnerActionCalldata)
      (signing : SignsBuilt sdk build) (action : CommitAction) (buyer : String) (m : BosonMetaTx)
      → MetaTxSigned config requirements sdk action buyer m
      → build action (splice requirements.offer.full_offer buyer requirements.offer.seller_sig)
        ≡ returned (calldata_of m)
  meta_tx-built sdk build signing action buyer m made =
      signing.signs action (config.to_text made.nonce) requirements.offer.full_offer buyer
        requirements.offer.seller_sig made.before made.after made.signed made.by_sdk
      ∙ ap (λ x. returned (calldata_of x)) made.reshaped

module _ {W V : Type 0} (config : X402bClientConfig W) (facilitator : FacilitatorConfig V)
    (requirements : EscrowPaymentRequirements)
    (signing : (chain_id : ℕ)
      → SignsBuilt
          (config.core_sdk requirements.escrow_address chain_id)
          facilitator.libraries.build_calldata)
    (supported : Memᴰ requirements.network facilitator.supported_networks)
    (valid : escrow_payment_requirements_schema facilitator.libraries.is_datetime requirements
      ≡ true) where
  assembled-WellFormed :
      (args : AssembleArgs)
      → Memᴰ (commit_action_name args.action) (map (λ entry. entry.id) requirements.actions.next)
      → Memᴰ args.token_auth_strategy requirements.token_auth_strategies
      → FitsStrategy args.token_auth_strategy args.token_auth
      → facilitator.libraries.build_calldata args.action
          (splice requirements.offer.full_offer args.buyer requirements.offer.seller_sig)
        ≡ returned (calldata_of args.meta_tx)
      → escrow_payment_payload_schema (payload_of config requirements args) ≡ true
      → WellFormed facilitator (asked requirements (payload_of config requirements args))
  assembled-WellFormed args advertised allowed fitting built parsed = record {
    supported = supported;
    payload_fits = parsed;
    requirements_fit = valid;
    scheme = refl;
    payload_scheme = refl;
    payload_network = refl;
    requirements_network = refl;
    advertised = advertised;
    same_offer = refl;
    same_seller_sig = refl;
    encodes_offer = record {
      action = args.action;
      is_action = commit_action-name args.action;
      expected = calldata_of args.meta_tx;
      built = built;
      same_name = refl;
      same_calldata = refl;
    };
    strategy_allowed = allowed;
    fits_strategy = fitting;
  }

  -- A payment that the client builds passes all of the facilitator's checks before it asks the
  -- chain, if the network is a supported one, the facilitator accepts the requirements as such, and
  -- core-sdk signs the calldata that the facilitator's library builds for the same offer.
  pub build_payment-check_structure :
      (w w' : W) (payload : EscrowPaymentPayload)
      → build_payment config requirements w ≡ (returned payload, w')
      → check_structure facilitator (asked requirements payload) ≡ ok
  build_payment-check_structure w w' payload h =
      let (chain_id, made) = build_payment-Assembled config requirements w w' payload h in
      let sdk = config.core_sdk requirements.escrow_address chain_id in
      let (allowed, carried) =
        token_auth_for-Chooses config sdk requirements made.args.buyer (λ auth. Unit)
          (any_signed config sdk requirements made.args.buyer) chain_id _ made.before made.after _
          made.authorised in
      (check_structure_iff facilitator (asked requirements payload)).1 (
        subst (λ x. WellFormed facilitator (asked requirements x)) made.same
          (assembled-WellFormed made.args
            (pick_action-advertised config requirements made.args.action made.picked) allowed
            (Carries-FitsStrategy _ _ _ carried)
            (meta_tx-built config requirements sdk facilitator.libraries.build_calldata
              (signing chain_id) made.args.action made.args.buyer made.args.meta_tx made.meta_tx)
            (subst (λ x. escrow_payment_payload_schema x ≡ true) (sym made.same) made.parses)))
