-- ===== src/Actions.antt =====
-- The `nextActions` envelope builder: typescript/packages/actions/src/{derive,onchain-hints}.ts and
-- registry/{index,buyer-fallback}.ts. An action without a usable channel makes `buildEnvelope`
-- throw: the result is then none.
pub mod Channels
pub mod Envelope
pub mod Facets
pub mod Resilience
mod Tests
use x402b.Prelude.{
  String, List, [], ◌∷◌, ◌++◌, map, Option, none, some, Bool, true, false, not, ◌&&◌, ◌≡◌, ◌==◌,
  ◌!=◌, string_eq, includes, is_some, if◌then◌else◌, Dict, get, put, has,
}
use x402b.Machine.{
  ClientState, pre_commit, in_dispute, plain, ActionId, action_name, action_facets,
  client_legal_actions,
}
use x402b.Wire.{
  ActionChannel, channel_eq, NextAction, OnchainHints, ActionsFallback, ActionsEnvelope,
  EnvelopeState, EscrowNextActions, TokenAuthStrategy, strategy_name,
}

pub record ChannelRegistry : Type 0 where
  pub channels : List ActionChannel
  pub endpoints : Dict String
  pub xmtp : Option String
  pub mcp : Option String
  pub escrow : String

-- `DeriveDecorations.deadlines`; absent decorations are the empty ones.
pub record DeriveDecorations : Type 0 where
  pub deadlines : Dict String

-- onchain-hints.ts

abbrev pub meta_tx_facet : String
meta_tx_facet = "MetaTransactionsHandlerFacet"

abbrev pub meta_tx_entrypoints : Dict String
meta_tx_entrypoints =
    ("none", "executeMetaTransaction")
    ∷ ("erc3009", "executeMetaTransactionWithTokenTransferAuthorization")
    ∷ ("permit", "executeMetaTransactionWithTokenTransferAuthorization")
    ∷ ("permit2", "executeMetaTransactionWithTokenTransferAuthorization")
    ∷ []

facets_from : Dict String → List ActionId → Dict String
facets_from out [] = out
facets_from out (id ∷ ids) = facets_from (put out (action_name id) (action_facets id)) ids

unfoldable pub action_facets_for : List ActionId → Dict String
unfolding facets_from
action_facets_for ids = facets_from [] ids

unfoldable pub build_onchain_hints : String → List ActionId → OnchainHints
build_onchain_hints escrow ids = record {
  escrow = escrow;
  meta_tx_facet = meta_tx_facet;
  meta_tx_entrypoints = meta_tx_entrypoints;
  action_facets = action_facets_for ids;
}

-- derive.ts

unfoldable pub build_fallback : ChannelRegistry → List ActionId → ActionsFallback
unfolding build_onchain_hints
build_fallback registry ids = record {
  xmtp = registry.xmtp;
  mcp = registry.mcp;
  onchain_hints = some (build_onchain_hints registry.escrow ids);
}

unfoldable pub effective_channels : ChannelRegistry → List ActionChannel
effective_channels registry =
    if includes registry.channels ActionChannel.onchain
    then registry.channels
    else registry.channels ++ ActionChannel.onchain ∷ []

-- Every action has a facet, so the test `ACTION_FACETS[actionId] !== undefined` always passes.
unfoldable pub is_usable_channel : ActionChannel → ActionId → ChannelRegistry → Option String → Bool
is_usable_channel ActionChannel.server id registry endpoint = is_some endpoint
is_usable_channel ActionChannel.mcp id registry endpoint = is_some registry.mcp
is_usable_channel ActionChannel.xmtp id registry endpoint = is_some registry.xmtp
is_usable_channel ActionChannel.onchain id registry endpoint = registry.escrow != ""
is_usable_channel ActionChannel.facilitator id registry endpoint = true

-- The `filter` of `buildEnvelope`, with its set `seen` of the channels kept so far.
filter_channels :
    (ActionChannel → Bool) → List ActionChannel → List ActionChannel → List ActionChannel
filter_channels usable seen [] = []
filter_channels usable seen (c ∷ cs) =
    let kept = c ∷ filter_channels usable (c ∷ seen) cs in
    let skipped = filter_channels usable seen cs in
    if includes seen c then skipped else if usable c then kept else skipped

unfoldable pub channels_for : ChannelRegistry → ActionId → List ActionChannel
unfolding filter_channels effective_channels is_usable_channel
channels_for registry id =
    filter_channels (λ c. is_usable_channel c id registry (get registry.endpoints (action_name id)))
      [] (effective_channels registry)

-- `{ server: serverEndpoint }`, if there is one.
abbrev pub server_endpoint : Option String → Option (Dict String)
server_endpoint none = none
server_endpoint (some url) = some (("server", url) ∷ [])

abbrev pub entry_of :
    ChannelRegistry → DeriveDecorations → ActionId → List ActionChannel → NextAction
entry_of registry decorations id channels = record {
  id = action_name id;
  channels = channels;
  endpoints = server_endpoint (get registry.endpoints (action_name id));
  deadline = get decorations.deadlines (action_name id);
}

-- The callback of the `map`: none where it throws.
unfoldable pub build_entry : ChannelRegistry → DeriveDecorations → ActionId → Option NextAction
build_entry registry decorations id = elim (channels_for registry id) [
  | [] ↦ none
  | c ∷ cs ↦ some (entry_of registry decorations id (c ∷ cs))
]

unfoldable pub build_entries :
    ChannelRegistry → DeriveDecorations → List ActionId → Option (List NextAction)
build_entries registry decorations [] = some []
build_entries registry decorations (id ∷ ids) = elim (build_entry registry decorations id) [
  | none ↦ none
  | some entry ↦ elim (build_entries registry decorations ids) [
    | none ↦ none
    | some entries ↦ some (entry ∷ entries)
  ]
]

-- The ids of the entries are the ids that were asked for, in order.
unfoldable pub build_envelope :
    List ActionId → ChannelRegistry → DeriveDecorations → Option ActionsEnvelope
unfolding build_entries
build_envelope ids registry decorations = elim (build_entries registry decorations ids) [
  | none ↦ none
  | some next ↦ some (record { next = next; fallback = some (build_fallback registry ids) })
]

unfoldable pub to_client_state : EnvelopeState → ClientState
to_client_state (EnvelopeState.plain s) = plain s
to_client_state (EnvelopeState.disputed d) = in_dispute d

unfoldable pub derive_initial_next_actions :
    ChannelRegistry → DeriveDecorations → Option ActionsEnvelope
unfolding build_envelope
derive_initial_next_actions registry decorations =
    build_envelope (client_legal_actions pre_commit) registry decorations

unfoldable pub derive_next_actions :
    String → EnvelopeState → ChannelRegistry → DeriveDecorations → Option EscrowNextActions
unfolding build_envelope to_client_state
derive_next_actions exchange_id state registry decorations =
    elim (build_envelope (client_legal_actions (to_client_state state)) registry decorations) [
      | none ↦ none
      | some inner ↦ some (record {
        exchange_id = exchange_id;
        state = state;
        next = inner.next;
        fallback = inner.fallback;
      })
    ]

-- registry/buyer-fallback.ts

abbrev pub buyer_onchain_fallback : Dict Bool
buyer_onchain_fallback =
    ("boson-createOfferAndCommit", true)
    ∷ ("boson-createOfferCommitAndRedeem", true)
    ∷ ("boson-redeem", true)
    ∷ ("boson-cancelVoucher", true)
    ∷ ("boson-completeExchange", true)
    ∷ ("boson-raiseDispute", true)
    ∷ ("boson-escalateDispute", true)
    ∷ ("boson-retractDispute", true)
    ∷ ("boson-resolveDispute", false)
    ∷ ("boson-revokeVoucher", false)
    ∷ []

unfoldable pub is_buyer_onchain_resilient : String → Bool
is_buyer_onchain_resilient id = elim (get buyer_onchain_fallback id) [ some b ↦ b | none ↦ false ]

unfoldable pub has_buyer_onchain_fallback : NextAction → Bool
unfolding is_buyer_onchain_resilient
has_buyer_onchain_fallback entry =
    if not (is_buyer_onchain_resilient entry.id)
    then false
    else includes entry.channels ActionChannel.onchain
