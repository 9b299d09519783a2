-- ===== src/Machine/Tests.antt =====
-- Runs of the tables, and the theorems at concrete inputs.
use x402b.Prelude.{true, some, List, [], ◌∷◌, ◌≡◌, refl, ◌↔◌, ◌⊎◌}
use x402b.Machine.{
  DisputeState, ClientState, pre_commit, in_dispute, ExchangeActionId, on_exchange, Side, client,
  server, action_post_state, legal_actions, is_legal_transition,
}
use x402b.Machine.Diagram.{Moves, client_state_of}
use x402b.Machine.Laws.{is_legal_transition_iff}
use x402b.Machine.Progress.{run, IsFinished, stuck_iff}

abbrev resolving : ClientState
resolving = in_dispute DisputeState.resolving

abbrev resolve : ExchangeActionId
resolve = ExchangeActionId.resolve_dispute

is_legal_transition_iff_example :
    (is_legal_transition resolving (on_exchange resolve) server ≡ true) ↔ (
      (t : ClientState) × Moves server resolve resolving t
      × (client_state_of (action_post_state resolve) ≡ some t))
is_legal_transition_iff_example = is_legal_transition_iff resolving resolve server

abbrev longest : List (ExchangeActionId × Side)
longest =
    (ExchangeActionId.create_offer_and_commit, client)
    ∷ (ExchangeActionId.redeem, client)
    ∷ (ExchangeActionId.raise_dispute, client)
    ∷ (resolve, server)
    ∷ []

run-longest : run pre_commit longest ≡ some (in_dispute DisputeState.resolved)
unfolding run is_legal_transition action_post_state
run-longest = refl

stuck_iff_example :
    ((legal_actions resolving client ≡ []) × (legal_actions resolving server ≡ []))
    ↔ (IsFinished resolving ⊎ (resolving ≡ in_dispute DisputeState.escalated))
stuck_iff_example = stuck_iff resolving
