-- ===== src/Machine/Progress.antt =====
-- Sequences of legal transitions: they are short, and where they can stop.
use x402b.Prelude.{
  ℕ, ◌+◌, ◌≤◌, ◌<◌, Option, none, some, List, [], ◌∷◌, ◌≡◌, refl, ◌↔◌, ◌⊎◌, inl, inr, arith,
  if◌then◌else◌, length, Bool-cases, Option-cases,
}
use x402b.Machine.{
  DisputeState, PlainState, ClientState, pre_commit, in_dispute, plain, ExchangeActionId,
  on_exchange, Side, client, server, action_post_state, legal_actions, is_legal_transition,
}
use x402b.Machine.Diagram.{Moves, client_state_of}
use x402b.Machine.Laws.{is_legal_transition_iff}

-- The state that the tables predict after a legal invocation; none if it is not legal.
advance : ClientState → ExchangeActionId → Side → Option ClientState
advance s a side =
    if is_legal_transition s (on_exchange a) side
    then client_state_of (action_post_state a)
    else none

unfoldable pub run : ClientState → List (ExchangeActionId × Side) → Option ClientState
unfolding advance
run s [] = some s
run s ((a, side) ∷ rest) = elim (advance s a side) [ some t ↦ run t rest | none ↦ none ]

advance-Moves :
    (s t : ClientState) (a : ExchangeActionId) (side : Side)
    → advance s a side ≡ some t
    → Moves side a s t
unfolding advance
advance-Moves s t a side h = elim (Bool-cases (is_legal_transition s (on_exchange a) side)) [
  | inr e ↦ ground arith
  | inl e ↦
      let (u, move, post) = (is_legal_transition_iff s a side).0 e in
      let same : u ≡ t = ground arith in rw (← same) move
]

-- The number of invocations that can still follow.
abbrev pub remaining : ClientState → ℕ
remaining pre_commit = 4
remaining (plain PlainState.committed) = 3
remaining (plain PlainState.redeemed) = 2
remaining (in_dispute DisputeState.resolving) = 1
remaining _ = 0

remaining-Moves :
    {s t : ClientState} {a : ExchangeActionId} {side : Side}
    → Moves side a s t
    → remaining t < remaining s
remaining-Moves Moves.commit = omega arith
remaining-Moves Moves.commit_and_redeem = omega arith
remaining-Moves Moves.redeem = omega arith
remaining-Moves Moves.cancel = omega arith
remaining-Moves Moves.revoke = omega arith
remaining-Moves Moves.complete = omega arith
remaining-Moves Moves.raise = omega arith
remaining-Moves (Moves.resolve side) = omega arith
remaining-Moves Moves.escalate = omega arith
remaining-Moves Moves.retract = omega arith

-- However the two parties alternate, the exchange-keyed actions that they legally invoke one after
-- another are at most as many as `remaining` gives for the first state: four from PRE_COMMIT.
run_bounded :
    (s t : ClientState) (steps : List (ExchangeActionId × Side))
    → run s steps ≡ some t
    → length steps + remaining t ≤ remaining s
unfolding run
run_bounded s t [] h = ground arith
run_bounded s t ((a, side) ∷ rest) h = elim (Option-cases (advance s a side)) [
  | inl e ↦ ground arith
  | inr (u, e) ↦
      omega
        (arith, remaining-Moves (advance-Moves s u a side e), run_bounded u t rest (ground arith))
]

abbrev pub IsFinished : ClientState → Type 0
IsFinished s =
    (s ≡ plain PlainState.cancelled)
    ⊎ (s ≡ plain PlainState.completed)
    ⊎ (s ≡ plain PlainState.revoked)
    ⊎ (s ≡ in_dispute DisputeState.retracted)
    ⊎ (s ≡ in_dispute DisputeState.decided)
    ⊎ (s ≡ in_dispute DisputeState.refused)

stuck_of_empty :
    (s : ClientState)
    → legal_actions s client ≡ []
    → legal_actions s server ≡ []
    → IsFinished s ⊎ (s ≡ in_dispute DisputeState.escalated)
unfolding legal_actions
stuck_of_empty (plain PlainState.cancelled) h k = inl (inl refl)
stuck_of_empty (plain PlainState.completed) h k = inl (inr (inl refl))
stuck_of_empty (plain PlainState.revoked) h k = inl (inr (inr (inl refl)))
stuck_of_empty (in_dispute DisputeState.retracted) h k = inl (inr (inr (inr (inl refl))))
stuck_of_empty (in_dispute DisputeState.decided) h k = inl (inr (inr (inr (inr (inl refl)))))
stuck_of_empty (in_dispute DisputeState.refused) h k = inl (inr (inr (inr (inr (inr refl)))))
stuck_of_empty (in_dispute DisputeState.escalated) h k = inr refl
stuck_of_empty s h k = cc

empty_of_stuck :
    (s : ClientState)
    → IsFinished s ⊎ (s ≡ in_dispute DisputeState.escalated)
    → (legal_actions s client ≡ []) × (legal_actions s server ≡ [])
unfolding legal_actions
empty_of_stuck s h = ground arith

-- Neither party has an action to invoke exactly when the exchange is over (cancelled, completed,
-- revoked, or its dispute retracted, decided or refused) or its dispute is with the resolver.
pub stuck_iff :
    (s : ClientState)
    → ((legal_actions s client ≡ []) × (legal_actions s server ≡ []))
      ↔ (IsFinished s ⊎ (s ≡ in_dispute DisputeState.escalated))
stuck_iff s = (λ h. stuck_of_empty s h.0 h.1, empty_of_stuck s)
