-- ===== src/Machine/Laws.antt =====
-- The transition tables against the diagram, and how the two parties share the actions.
use x402b.Prelude.{true, some, ◌≡◌, refl, ◌↔◌, ◌⊎◌, inl, inr, arith}
use x402b.Machine.{
  DisputeState, PlainState, ClientState, pre_commit, in_dispute, plain, ExchangeActionId, ActionId,
  on_exchange, withdraw_funds, Side, client, server, action_post_state, is_legal_transition,
}
use x402b.Machine.Diagram.{Moves, client_state_of}

abbrev Target : Side → ExchangeActionId → ClientState → Type 0
Target side a s =
    (t : ClientState) × Moves side a s t × (client_state_of (action_post_state a) ≡ some t)

none_when_resolved :
    (a : ExchangeActionId) (side : Side)
    → is_legal_transition (in_dispute DisputeState.resolved) (on_exchange a) side ≡ true
    → ⊥
unfolding is_legal_transition
none_when_resolved ExchangeActionId.redeem side h = ground arith
none_when_resolved a side h = ground arith

Moves_of_legal :
    (s : ClientState) (a : ExchangeActionId) (side : Side)
    → is_legal_transition s (on_exchange a) side ≡ true
    → Target side a s
unfolding is_legal_transition action_post_state
Moves_of_legal pre_commit ExchangeActionId.create_offer_and_commit client h =
    (_, Moves.commit, refl)
Moves_of_legal pre_commit ExchangeActionId.create_offer_commit_and_redeem client h =
    (_, Moves.commit_and_redeem, refl)
Moves_of_legal (plain PlainState.committed) ExchangeActionId.redeem client h =
    (_, Moves.redeem, refl)
Moves_of_legal (plain PlainState.committed) ExchangeActionId.cancel_voucher client h =
    (_, Moves.cancel, refl)
Moves_of_legal (plain PlainState.committed) ExchangeActionId.revoke_voucher server h =
    (_, Moves.revoke, refl)
Moves_of_legal (plain PlainState.redeemed) ExchangeActionId.complete_exchange client h =
    (_, Moves.complete, refl)
Moves_of_legal (plain PlainState.redeemed) ExchangeActionId.raise_dispute client h =
    (_, Moves.raise, refl)
Moves_of_legal (in_dispute DisputeState.resolving) ExchangeActionId.resolve_dispute side h =
    (_, Moves.resolve side, refl)
Moves_of_legal (in_dispute DisputeState.resolving) ExchangeActionId.escalate_dispute client h =
    (_, Moves.escalate, refl)
Moves_of_legal (in_dispute DisputeState.resolving) ExchangeActionId.retract_dispute client h =
    (_, Moves.retract, refl)
Moves_of_legal (in_dispute DisputeState.resolved) a side h = absurd (none_when_resolved a side h)
Moves_of_legal s a side h = ground arith

legal_of_Moves :
    {s t : ClientState} {a : ExchangeActionId} {side : Side}
    → Moves side a s t
    → is_legal_transition s (on_exchange a) side ≡ true
unfolding is_legal_transition
legal_of_Moves Moves.commit = refl
legal_of_Moves Moves.commit_and_redeem = refl
legal_of_Moves Moves.redeem = refl
legal_of_Moves Moves.cancel = refl
legal_of_Moves Moves.revoke = refl
legal_of_Moves Moves.complete = refl
legal_of_Moves Moves.raise = refl
legal_of_Moves (Moves.resolve client) = refl
legal_of_Moves (Moves.resolve server) = refl
legal_of_Moves Moves.escalate = refl
legal_of_Moves Moves.retract = refl

-- A side may invoke an exchange-keyed action in a state exactly when the documented diagram has an
-- edge for that side and action out of the state, and such an edge leads to the state that the
-- post-state table records for the action.
pub is_legal_transition_iff :
    (s : ClientState) (a : ExchangeActionId) (side : Side)
    → (is_legal_transition s (on_exchange a) side ≡ true)
      ↔ ((t : ClientState) × Moves side a s t × (client_state_of (action_post_state a) ≡ some t))
is_legal_transition_iff s a side = (Moves_of_legal s a side, λ m. legal_of_Moves m.1)

abbrev MutualAt : ClientState → ActionId → Type 0
MutualAt s a =
    ((s ≡ in_dispute DisputeState.resolving) × (a ≡ on_exchange ExchangeActionId.resolve_dispute))
    ⊎ ((s ≡ in_dispute DisputeState.resolved) × (a ≡ withdraw_funds))

no_client_revoke : {s t : ClientState} → Moves client ExchangeActionId.revoke_voucher s t → ⊥
no_client_revoke m = elim m [ ]

mutual_of_Moves :
    {s t u : ClientState} {a : ExchangeActionId}
    → Moves server a s t
    → Moves client a s u
    → MutualAt s (on_exchange a)
mutual_of_Moves Moves.revoke m = absurd (no_client_revoke m)
mutual_of_Moves (Moves.resolve _) m = inl (refl, refl)

mutual_of_legal :
    (s : ClientState) (a : ActionId)
    → is_legal_transition s a client ≡ true
    → is_legal_transition s a server ≡ true
    → MutualAt s a
unfolding is_legal_transition
mutual_of_legal s (on_exchange a) h k =
    mutual_of_Moves (Moves_of_legal s a server k).1 (Moves_of_legal s a client h).1
mutual_of_legal (in_dispute DisputeState.resolved) withdraw_funds h k = inr (refl, refl)
mutual_of_legal (in_dispute DisputeState.resolving) withdraw_funds h k = cc
mutual_of_legal pre_commit withdraw_funds h k = cc
mutual_of_legal s withdraw_funds h k = ground arith

-- Buyer and seller may both invoke an action in one state exactly in two cases: resolveDispute while
-- the dispute is RESOLVING, and withdrawFunds once it is RESOLVED.
mutual_actions_iff :
    (s : ClientState) (a : ActionId)
    → ((is_legal_transition s a client ≡ true) × (is_legal_transition s a server ≡ true)) ↔ (
        ((s ≡ in_dispute DisputeState.resolving)
          × (a ≡ on_exchange ExchangeActionId.resolve_dispute))
        ⊎ ((s ≡ in_dispute DisputeState.resolved) × (a ≡ withdraw_funds)))
unfolding is_legal_transition
mutual_actions_iff s a = (
  λ h. mutual_of_legal s a h.0 h.1,
  λ m. elim m [ inl (p, q) ↦ rw (p, q) (refl, refl) | inr (p, q) ↦ rw (p, q) (refl, refl) ],
)
