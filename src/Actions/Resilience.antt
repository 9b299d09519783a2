-- ===== src/Actions/Resilience.antt =====
-- The buyer's guarantee against an uncooperative seller.
use x402b.Prelude.{
  ◌≢◌, String, List, [], ◌∷◌, some, true, false, ◌≡◌, refl, ◌==◌, string_eq, ◌⊎◌, inl, inr, All,
}
use x402b.Machine.{
  DisputeState, PlainState, ExchangeActionId, ActionId, on_exchange, withdraw_funds,
  client_legal_actions,
}
use x402b.Wire.{channel_eq, NextAction, EnvelopeState, EscrowNextActions}
use x402b.Actions.{
  ChannelRegistry, DeriveDecorations, to_client_state, derive_next_actions,
  has_buyer_onchain_fallback,
}
use x402b.Actions.Envelope.{IsEntryFor, EntriesFor, derive_next_actions_total}

-- The two actions of the buyer that need somebody else's signature or no exchange.
abbrev pub IsExempt : NextAction → Type 0
IsExempt entry = (entry.id ≡ "boson-resolveDispute") ⊎ (entry.id ≡ "boson-withdrawFunds")

entry_resilient :
    (registry : ChannelRegistry) (decorations : DeriveDecorations) (id : ActionId)
    (entry : NextAction)
    → (id ≢ on_exchange ExchangeActionId.revoke_voucher)
    → IsEntryFor registry decorations id entry
    → (has_buyer_onchain_fallback entry ≡ true) ⊎ IsExempt entry
unfolding has_buyer_onchain_fallback
entry_resilient registry decorations withdraw_funds entry n e = inr (inr e.named)
entry_resilient registry decorations (on_exchange ExchangeActionId.resolve_dispute) entry n e =
    inr (inl e.named)
entry_resilient registry decorations (on_exchange ExchangeActionId.revoke_voucher) entry n e =
    absurd (n refl)
entry_resilient registry decorations (on_exchange a) entry n e = inl (rw (e.named, e.onchain) refl)

entries_resilient :
    (registry : ChannelRegistry) (decorations : DeriveDecorations) (ids : List ActionId)
    (entries : List NextAction)
    → All (λ id. id ≢ on_exchange ExchangeActionId.revoke_voucher) ids
    → EntriesFor registry decorations ids entries
    → All (λ entry. (has_buyer_onchain_fallback entry ≡ true) ⊎ IsExempt entry) entries
entries_resilient registry decorations [] [] n e = tt
entries_resilient registry decorations [] (x ∷ xs) n e = absurd e
entries_resilient registry decorations (id ∷ ids) [] n e = absurd e
entries_resilient registry decorations (id ∷ ids) (x ∷ xs) n e = (
  entry_resilient registry decorations id x n.0 e.0,
  entries_resilient registry decorations ids xs n.1 e.1,
)

no_revoke :
    (state : EnvelopeState)
    → All
        (λ id. id ≢ on_exchange ExchangeActionId.revoke_voucher)
        (client_legal_actions (to_client_state state))
unfolding client_legal_actions to_client_state
no_revoke (EnvelopeState.plain PlainState.committed) = (λ e. cc, (λ e. cc, tt))
no_revoke (EnvelopeState.plain PlainState.redeemed) = (λ e. cc, (λ e. cc, tt))
no_revoke (EnvelopeState.disputed DisputeState.resolving) = (λ e. cc, (λ e. cc, (λ e. cc, tt)))
no_revoke (EnvelopeState.disputed DisputeState.resolved) = (λ e. cc, tt)
no_revoke (EnvelopeState.plain s) = tt
no_revoke (EnvelopeState.disputed d) = tt

-- Whatever the exchange's state, every action that a derived envelope offers the buyer can be carried
-- through on-chain without the seller, by `hasBuyerOnchainFallback`, but for the mutual
-- resolveDispute and for withdrawFunds; the registry need only have an escrow address.
derive_next_actions-resilient :
    (exchange_id : String) (state : EnvelopeState) (registry : ChannelRegistry)
    (decorations : DeriveDecorations) (envelope : EscrowNextActions)
    → (registry.escrow == "") ≡ false
    → derive_next_actions exchange_id state registry decorations ≡ some envelope
    → All (λ entry. (has_buyer_onchain_fallback entry ≡ true) ⊎ IsExempt entry) envelope.next
derive_next_actions-resilient exchange_id state registry decorations envelope h d =
    let (e, p, entries, _, _, _) =
      derive_next_actions_total exchange_id state registry decorations h in
    let same : e ≡ envelope = cc in
    rw (← same) (entries_resilient registry decorations _ e.next (no_revoke state) entries)
