-- ===== src/Actions/Tests.antt =====
-- Envelopes of concrete sellers, and the theorems at them.
use x402b.Prelude.{[], ◌∷◌, none, some, ◌≡◌, refl, string_eq}
use x402b.Machine.{DisputeState, PlainState, ExchangeActionId, on_exchange, client_legal_actions}
use x402b.Wire.{ActionChannel, channel_eq, EnvelopeState, EscrowNextActions}
use x402b.Actions.{
  ChannelRegistry, DeriveDecorations, channels_for, build_entry, build_fallback, to_client_state,
  derive_next_actions,
}
use x402b.Actions.Envelope.{EntriesFor, derive_next_actions_total}

abbrev seller : ChannelRegistry
seller = record {
  channels =
      ActionChannel.server ∷ ActionChannel.facilitator ∷ ActionChannel.server ∷ ActionChannel.mcp
      ∷ [];
  endpoints = ("boson-resolveDispute", "https://seller.example/x402B/dispute/resolve") ∷ [];
  xmtp = none;
  mcp = some "boson://seller/1";
  escrow = "0xD1";
}

abbrev no_decorations : DeriveDecorations
no_decorations = record { deadlines = [] }

abbrev resolving : EnvelopeState
resolving = EnvelopeState.disputed DisputeState.resolving

-- The duplicate `server` and the missing endpoint of `escalate` are dropped; `onchain` is added.
channels_tests :
    (channels_for seller (on_exchange ExchangeActionId.resolve_dispute)
      ≡ ActionChannel.server ∷ ActionChannel.facilitator ∷ ActionChannel.mcp ∷ ActionChannel.onchain
        ∷ [])
    × (channels_for seller (on_exchange ExchangeActionId.escalate_dispute)
        ≡ ActionChannel.facilitator ∷ ActionChannel.mcp ∷ ActionChannel.onchain ∷ [])
unfolding channels_for
channels_tests = (refl, refl)

derive_next_actions_total_example :
    (envelope : EscrowNextActions) × (derive_next_actions "7" resolving seller no_decorations
      ≡ some envelope)
    × EntriesFor seller no_decorations
        (client_legal_actions (to_client_state resolving))
        envelope.next
    × (envelope.exchange_id ≡ "7")
    × (envelope.state ≡ resolving)
    × (envelope.fallback
        ≡ some (build_fallback seller (client_legal_actions (to_client_state resolving))))
derive_next_actions_total_example =
    derive_next_actions_total "7" resolving seller no_decorations refl

abbrev committed : EscrowNextActions
committed = record {
  exchange_id = "7";
  state = EnvelopeState.plain PlainState.committed;
  next =
      record {
        id = "boson-redeem";
        channels = ActionChannel.facilitator ∷ ActionChannel.mcp ∷ ActionChannel.onchain ∷ [];
        endpoints = none;
        deadline = none;
      }
      ∷ record {
        id = "boson-cancelVoucher";
        channels = ActionChannel.facilitator ∷ ActionChannel.mcp ∷ ActionChannel.onchain ∷ [];
        endpoints = none;
        deadline = none;
      }
      ∷ [];
  fallback = some (
      build_fallback seller
        (client_legal_actions (to_client_state (EnvelopeState.plain PlainState.committed))));
}

committed_lem :
    derive_next_actions "7" (EnvelopeState.plain PlainState.committed) seller no_decorations
    ≡ some committed
unfolding derive_next_actions client_legal_actions channels_for build_entry
committed_lem = refl
