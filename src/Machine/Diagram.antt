-- ===== src/Machine/Diagram.antt =====
-- The transition table of docs/boson-impl-04-state-machine-and-next-actions.md ("Action IDs"), as a
-- relation: one constructor for each row, and two for the mutual row.
use x402b.Prelude.{Option, none, some}
use x402b.Machine.{
  ExchangeState, DisputeState, PlainState, ClientState, pre_commit, in_dispute, plain,
  ExchangeActionId, ActionPostState, Side, client, server,
}

pub data Moves : Side → ExchangeActionId → ClientState → ClientState → Type 0 where
  commit :
      Moves client ExchangeActionId.create_offer_and_commit pre_commit (plain PlainState.committed)
  commit_and_redeem :
      Moves client ExchangeActionId.create_offer_commit_and_redeem pre_commit
        (plain PlainState.redeemed)
  redeem :
      Moves client ExchangeActionId.redeem (plain PlainState.committed) (plain PlainState.redeemed)
  cancel :
      Moves client ExchangeActionId.cancel_voucher
        (plain PlainState.committed)
        (plain PlainState.cancelled)
  revoke :
      Moves server ExchangeActionId.revoke_voucher
        (plain PlainState.committed)
        (plain PlainState.revoked)
  complete :
      Moves client ExchangeActionId.complete_exchange
        (plain PlainState.redeemed)
        (plain PlainState.completed)
  raise :
      Moves client ExchangeActionId.raise_dispute
        (plain PlainState.redeemed)
        (in_dispute DisputeState.resolving)
  resolve :
      (side : Side)
      → Moves side ExchangeActionId.resolve_dispute
          (in_dispute DisputeState.resolving)
          (in_dispute DisputeState.resolved)
  escalate :
      Moves client ExchangeActionId.escalate_dispute
        (in_dispute DisputeState.resolving)
        (in_dispute DisputeState.escalated)
  retract :
      Moves client ExchangeActionId.retract_dispute
        (in_dispute DisputeState.resolving)
        (in_dispute DisputeState.retracted)

-- The client state that a recorded post-state describes, if the pair is a possible one.
abbrev plain_state_of : ExchangeState → Option ClientState
plain_state_of ExchangeState.cancelled = some (plain PlainState.cancelled)
plain_state_of ExchangeState.committed = some (plain PlainState.committed)
plain_state_of ExchangeState.completed = some (plain PlainState.completed)
plain_state_of ExchangeState.redeemed = some (plain PlainState.redeemed)
plain_state_of ExchangeState.revoked = some (plain PlainState.revoked)
plain_state_of ExchangeState.disputed = none

abbrev disputed_state_of : ExchangeState → DisputeState → Option ClientState
disputed_state_of ExchangeState.disputed d = some (in_dispute d)
disputed_state_of _ d = none

abbrev state_of : ExchangeState → Option DisputeState → Option ClientState
state_of e none = plain_state_of e
state_of e (some d) = disputed_state_of e d

abbrev pub client_state_of : ActionPostState → Option ClientState
client_state_of p = state_of p.exchange p.dispute
