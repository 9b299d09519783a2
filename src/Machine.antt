-- ===== src/Machine.antt =====
-- The exchange state machine: typescript/packages/core/src/state-machine/{states,action-ids,
-- transitions}.ts. The two protocol enums are the enums of `@bosonprotocol/core-sdk` that states.ts
-- lists; the tables keyed by state and by action are functions by clauses.
pub mod Diagram
pub mod Laws
pub mod Names
pub mod Progress
mod Tests
use x402b.Prelude.{
  ℕ, nat_beq, map, String, List, [], ◌∷◌, Option, none, some, Bool, true, false, Eq, ◌==◌, includes,
  ◌≡◌, ◌↔◌, arith, string_eq, eq_iff,
}

-- The names below that two enums share are told apart by their type.
pub data ExchangeState : Type 0 where
  cancelled committed completed disputed redeemed revoked : ExchangeState

pub data DisputeState : Type 0 where
  decided escalated refused resolved resolving retracted : DisputeState

-- The exchange states other than DISPUTED: `Exclude<ExchangeState, DISPUTED>`.
pub data PlainState : Type 0 where
  cancelled committed completed redeemed revoked : PlainState

pub data ClientState : Type 0 where
  pre_commit : ClientState
  in_dispute : DisputeState → ClientState
  plain : PlainState → ClientState

abbrev pub exchange_state : PlainState → ExchangeState
exchange_state PlainState.cancelled = ExchangeState.cancelled
exchange_state PlainState.committed = ExchangeState.committed
exchange_state PlainState.completed = ExchangeState.completed
exchange_state PlainState.redeemed = ExchangeState.redeemed
exchange_state PlainState.revoked = ExchangeState.revoked

abbrev state_index : ExchangeState → ℕ
state_index ExchangeState.cancelled = 0
state_index ExchangeState.committed = 1
state_index ExchangeState.completed = 2
state_index ExchangeState.disputed = 3
state_index ExchangeState.redeemed = 4
state_index ExchangeState.revoked = 5

abbrev pub state_beq : ExchangeState → ExchangeState → Bool
state_beq a b = nat_beq (state_index a) (state_index b)

pub state_beq_iff : (a b : ExchangeState) → (state_beq a b ≡ true) ↔ (a ≡ b)
state_beq_iff a b = ground arith

instance abbrev pub state_eq : Eq ExchangeState
state_eq = record { beq = state_beq; beq_iff = state_beq_iff }

abbrev dispute_index : DisputeState → ℕ
dispute_index decided = 0
dispute_index escalated = 1
dispute_index refused = 2
dispute_index resolved = 3
dispute_index resolving = 4
dispute_index retracted = 5

abbrev pub dispute_beq : DisputeState → DisputeState → Bool
dispute_beq a b = nat_beq (dispute_index a) (dispute_index b)

pub dispute_beq_iff : (a b : DisputeState) → (dispute_beq a b ≡ true) ↔ (a ≡ b)
dispute_beq_iff a b = ground arith

instance abbrev pub dispute_eq : Eq DisputeState
dispute_eq = record { beq = dispute_beq; beq_iff = dispute_beq_iff }

pub data ExchangeActionId : Type 0 where
  create_offer_and_commit create_offer_commit_and_redeem redeem cancel_voucher : ExchangeActionId
  revoke_voucher complete_exchange raise_dispute resolve_dispute : ExchangeActionId
  escalate_dispute retract_dispute : ExchangeActionId

pub data ActionId : Type 0 where
  on_exchange : ExchangeActionId → ActionId
  withdraw_funds : ActionId

-- The strings of `EXCHANGE_ACTION_IDS` and `ENTITY_ACTION_IDS`.
abbrev pub exchange_action_name : ExchangeActionId → String
exchange_action_name create_offer_and_commit = "boson-createOfferAndCommit"
exchange_action_name create_offer_commit_and_redeem = "boson-createOfferCommitAndRedeem"
exchange_action_name redeem = "boson-redeem"
exchange_action_name cancel_voucher = "boson-cancelVoucher"
exchange_action_name revoke_voucher = "boson-revokeVoucher"
exchange_action_name complete_exchange = "boson-completeExchange"
exchange_action_name raise_dispute = "boson-raiseDispute"
exchange_action_name resolve_dispute = "boson-resolveDispute"
exchange_action_name escalate_dispute = "boson-escalateDispute"
exchange_action_name retract_dispute = "boson-retractDispute"

abbrev pub action_name : ActionId → String
action_name (on_exchange a) = exchange_action_name a
action_name withdraw_funds = "boson-withdrawFunds"

-- `ACTION_IDS`
abbrev pub action_ids : List ActionId
action_ids =
    on_exchange create_offer_and_commit
    ∷ on_exchange create_offer_commit_and_redeem
    ∷ on_exchange redeem
    ∷ on_exchange cancel_voucher
    ∷ on_exchange revoke_voucher
    ∷ on_exchange complete_exchange
    ∷ on_exchange raise_dispute
    ∷ on_exchange resolve_dispute
    ∷ on_exchange escalate_dispute
    ∷ on_exchange retract_dispute
    ∷ withdraw_funds
    ∷ []

-- `ENTITY_ACTION_SET`
abbrev pub entity_action_set : List String
entity_action_set = "boson-withdrawFunds" ∷ []

unfoldable pub is_entity_keyed_action : String → Bool
is_entity_keyed_action action = includes entity_action_set action

pub record ActionPostState : Type 0 where
  pub exchange : ExchangeState
  pub dispute : Option DisputeState

unfoldable pub action_post_state : ExchangeActionId → ActionPostState
action_post_state create_offer_and_commit = record {
  exchange = ExchangeState.committed;
  dispute = none;
}
action_post_state create_offer_commit_and_redeem = record {
  exchange = ExchangeState.redeemed;
  dispute = none;
}
action_post_state redeem = record { exchange = ExchangeState.redeemed; dispute = none }
action_post_state cancel_voucher = record { exchange = ExchangeState.cancelled; dispute = none }
action_post_state revoke_voucher = record { exchange = ExchangeState.revoked; dispute = none }
action_post_state complete_exchange = record { exchange = ExchangeState.completed; dispute = none }
action_post_state raise_dispute = record {
  exchange = ExchangeState.disputed;
  dispute = some resolving;
}
action_post_state resolve_dispute = record {
  exchange = ExchangeState.disputed;
  dispute = some resolved;
}
action_post_state escalate_dispute = record {
  exchange = ExchangeState.disputed;
  dispute = some escalated;
}
action_post_state retract_dispute = record {
  exchange = ExchangeState.disputed;
  dispute = some retracted;
}

unfoldable pub action_facets : ActionId → String
action_facets (on_exchange create_offer_and_commit) = "ExchangeCommitFacet"
action_facets (on_exchange create_offer_commit_and_redeem) = "OrchestrationHandlerFacet2"
action_facets (on_exchange redeem) = "ExchangeHandlerFacet"
action_facets (on_exchange cancel_voucher) = "ExchangeHandlerFacet"
action_facets (on_exchange revoke_voucher) = "ExchangeHandlerFacet"
action_facets (on_exchange complete_exchange) = "ExchangeHandlerFacet"
action_facets (on_exchange raise_dispute) = "DisputeHandlerFacet"
action_facets (on_exchange resolve_dispute) = "DisputeHandlerFacet"
action_facets (on_exchange escalate_dispute) = "DisputeHandlerFacet"
action_facets (on_exchange retract_dispute) = "DisputeHandlerFacet"
action_facets withdraw_funds = "FundsHandlerFacet"

pub data Side : Type 0 where
  client server : Side

-- `Record<ExchangeState | PRE_COMMIT, readonly ActionId[]>`: a key is a state or none, which stands
-- for PRE_COMMIT.
abbrev pub ExchangeTransitions : Type 0
ExchangeTransitions = Option ExchangeState → List ActionId

abbrev pub DisputeTransitions : Type 0
DisputeTransitions = DisputeState → List ActionId

client_by_exchange : ExchangeTransitions
client_by_exchange none =
    on_exchange create_offer_and_commit ∷ on_exchange create_offer_commit_and_redeem ∷ []
client_by_exchange (some ExchangeState.committed) =
    on_exchange redeem ∷ on_exchange cancel_voucher ∷ []
client_by_exchange (some ExchangeState.redeemed) =
    on_exchange complete_exchange ∷ on_exchange raise_dispute ∷ []
client_by_exchange (some ExchangeState.disputed) = []
client_by_exchange (some ExchangeState.cancelled) = []
client_by_exchange (some ExchangeState.completed) = []
client_by_exchange (some ExchangeState.revoked) = []

client_by_dispute : DisputeTransitions
client_by_dispute resolving =
    on_exchange resolve_dispute ∷ on_exchange escalate_dispute ∷ on_exchange retract_dispute ∷ []
client_by_dispute escalated = []
client_by_dispute resolved = withdraw_funds ∷ []
client_by_dispute retracted = []
client_by_dispute decided = []
client_by_dispute refused = []

server_by_exchange : ExchangeTransitions
server_by_exchange none = []
server_by_exchange (some ExchangeState.committed) = on_exchange revoke_voucher ∷ []
server_by_exchange (some ExchangeState.redeemed) = []
server_by_exchange (some ExchangeState.disputed) = []
server_by_exchange (some ExchangeState.cancelled) = []
server_by_exchange (some ExchangeState.completed) = []
server_by_exchange (some ExchangeState.revoked) = []

server_by_dispute : DisputeTransitions
server_by_dispute resolving = on_exchange resolve_dispute ∷ []
server_by_dispute escalated = []
server_by_dispute resolved = withdraw_funds ∷ []
server_by_dispute retracted = []
server_by_dispute decided = []
server_by_dispute refused = []

lookup : ClientState → ExchangeTransitions → DisputeTransitions → List ActionId
lookup pre_commit by_exchange by_dispute = by_exchange none
lookup (in_dispute d) by_exchange by_dispute = by_dispute d
lookup (plain s) by_exchange by_dispute = by_exchange (some (exchange_state s))

unfoldable pub client_legal_actions : ClientState → List ActionId
unfolding lookup client_by_exchange client_by_dispute
client_legal_actions state = lookup state client_by_exchange client_by_dispute

unfoldable pub server_legal_actions : ClientState → List ActionId
unfolding lookup server_by_exchange server_by_dispute
server_legal_actions state = lookup state server_by_exchange server_by_dispute

unfoldable pub legal_actions : ClientState → Side → List ActionId
unfolding client_legal_actions server_legal_actions
legal_actions state client = client_legal_actions state
legal_actions state server = server_legal_actions state

-- Action ids are compared as the strings that they are.
unfoldable pub is_legal_transition : ClientState → ActionId → Side → Bool
unfolding legal_actions
is_legal_transition state action side =
    includes (map action_name (legal_actions state side)) (action_name action)
