-- ===== src/Client/Choice.antt =====
-- action.ts, fulfillment.ts and the amount check of client.ts: what the buyer agrees to pay for.
use x402b.Prelude.{
  ℕ, String, List, [], ◌∷◌, Option, none, some, Bool, true, false, ◌&&◌, ◌==◌, string_eq, ltb,
  if◌then◌else◌, find?, includes,
}
use x402b.Json.{Fields}
use x402b.Wire.{
  ActionChannel, channel_eq, NextAction, EscrowPaymentRequirements, FulfillmentOption,
  FulfillmentRequirements,
}
use x402b.Effects.{Outcome, returned, thrown, error}
use x402b.Server.Payload.{CommitAction, create_offer_and_commit, create_offer_commit_and_redeem}
use x402b.Client.{
  RedeemMode, auto, commit_only, commit_and_redeem, FulfillmentConfig, X402bClientConfig,
}

-- `FLOW_A` and `FLOW_B`
abbrev pub commit_action_name : CommitAction → String
commit_action_name create_offer_and_commit = "boson-createOfferAndCommit"
commit_action_name create_offer_commit_and_redeem = "boson-createOfferCommitAndRedeem"

-- Whether an entry offers the action on the server channel.
abbrev pub offers : CommitAction → NextAction → Bool
offers action entry =
    entry.id == commit_action_name action && includes entry.channels ActionChannel.server

abbrev pub any_offers : CommitAction → List NextAction → Bool
any_offers action [] = false
any_offers action (entry ∷ next) =
    let rest = any_offers action next in if offers action entry then true else rest

abbrev pub require_offered : CommitAction → Bool → Outcome CommitAction
require_offered action offered =
    if offered then returned action else thrown (error "NoCompatibleActionError")

abbrev pub pick_mode : RedeemMode → (flow_a_offered flow_b_offered : Bool) → Outcome CommitAction
pick_mode commit_and_redeem a b = require_offered create_offer_commit_and_redeem b
pick_mode commit_only a b = require_offered create_offer_and_commit a
pick_mode auto a b =
    if a then returned create_offer_and_commit else require_offered create_offer_commit_and_redeem b

unfoldable pub pick_action : EscrowPaymentRequirements → RedeemMode → Outcome CommitAction
pick_action requirements mode =
    pick_mode mode (any_offers create_offer_and_commit requirements.actions.next)
      (any_offers create_offer_commit_and_redeem requirements.actions.next)

-- The selection of an option that is advertised, with data that its schema accepts.
abbrev pub accept_data :
    ((schema : Fields) → Option Fields → Bool)
    → FulfillmentConfig
    → Option Fields
    → Outcome FulfillmentConfig
accept_data accepts chosen none = elim chosen.chosen_data [
  | none ↦ returned chosen
  | some d ↦ thrown (error "FulfillmentValidationError")
]
accept_data accepts chosen (some schema) =
    if accepts schema chosen.chosen_data
    then returned chosen
    else thrown (error "FulfillmentValidationError")

abbrev pub accept_option :
    ((schema : Fields) → Option Fields → Bool)
    → FulfillmentConfig
    → Option FulfillmentOption
    → Outcome FulfillmentConfig
accept_option accepts chosen none = thrown (error "FulfillmentValidationError")
accept_option accepts chosen (some option) = accept_data accepts chosen option.schema

abbrev pub keep : Outcome FulfillmentConfig → Outcome (Option FulfillmentConfig)
keep (thrown e) = thrown e
keep (returned chosen) = returned (some chosen)

abbrev pub resolve_required :
    ((schema : Fields) → Option Fields → Bool)
    → List FulfillmentOption
    → Option FulfillmentConfig
    → Outcome (Option FulfillmentConfig)
resolve_required accepts options none = thrown (error "FulfillmentValidationError")
resolve_required accepts options (some chosen) =
    keep (accept_option accepts chosen (find? (λ o. o.id == chosen.option) options))

abbrev pub resolve_for :
    ((schema : Fields) → Option Fields → Bool)
    → Option FulfillmentConfig
    → Option FulfillmentRequirements
    → Outcome (Option FulfillmentConfig)
resolve_for accepts chosen none = returned none
resolve_for accepts chosen (some f) =
    if f.required then resolve_required accepts f.options chosen else returned none

unfoldable pub resolve_fulfillment :
    {W : Type 0}
    → X402bClientConfig W
    → EscrowPaymentRequirements
    → Outcome (Option FulfillmentConfig)
resolve_fulfillment config requirements =
    resolve_for config.accepts_data config.fulfillment requirements.fulfillment

abbrev pub within_max : Outcome ℕ → Outcome ℕ → Outcome (Unit {0})
within_max (thrown e) max = thrown e
within_max (returned amount) (thrown e) = thrown e
within_max (returned amount) (returned max) =
    if ltb max amount then thrown (error "MaxAmountExceededError") else returned tt

unfoldable pub enforce_max_amount :
    (String → Outcome ℕ) → String → Option String → Outcome (Unit {0})
enforce_max_amount big_int amount none = returned tt
enforce_max_amount big_int amount (some max) = within_max (big_int amount) (big_int max)
