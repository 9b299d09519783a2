-- ===== src/Server/Endpoints/Emit.antt =====
-- No channel of an emitted envelope is dead.
use x402b.Prelude.{
  Option-cases, String, List, [], ◌∷◌, map, Option, none, some, true, ◌≡◌, refl, string_eq, All,
  includes, get, is_some, arith, inl, inr,
}
use x402b.Machine.{ActionId, action_name, client_legal_actions}
use x402b.Wire.{ActionChannel, channel_eq, NextAction, EnvelopeState, EscrowNextActions}
use x402b.Actions.{
  entry_of, server_endpoint, ChannelRegistry, DeriveDecorations, is_usable_channel, channels_for,
  build_entry, build_entries, build_envelope, to_client_state, derive_next_actions,
}
use x402b.Actions.Channels.{channels_for_lem}
use x402b.Server.Endpoints.{endpoint, stamp_entry, stamp_facilitator_endpoints, emit_next_actions}
use x402b.Server.Endpoints.Stamp.{stamp_entry_lem}

-- The two HTTP channels of an entry come with their endpoint.
pub record IsReachable (entry : NextAction) : Type 0 where
  pub server :
      includes entry.channels ActionChannel.server ≡ true
      → is_some (endpoint entry.endpoints "server") ≡ true
  pub facilitator :
      includes entry.channels ActionChannel.facilitator ≡ true
      → is_some (endpoint entry.endpoints "facilitator") ≡ true

abbrev HasServer : NextAction → Type 0
HasServer entry =
    includes entry.channels ActionChannel.server ≡ true
    → is_some (endpoint entry.endpoints "server") ≡ true

stamp_entry-IsReachable :
    (url : String) (entry : NextAction) → HasServer entry → IsReachable (stamp_entry url entry)
stamp_entry-IsReachable url entry h =
    let (_, channels, _, ends, _) = stamp_entry_lem url entry in
    record {
      server = λ s. ground (arith, ends "server", h (rw (← channels) s), channels);
      facilitator = λ f. ground (arith, ends "facilitator", channels);
    }

module _ (registry : ChannelRegistry) (decorations : DeriveDecorations) where
  server_endpoint_some :
      (url : Option String)
      → is_some url ≡ true
      → is_some (endpoint (server_endpoint url) "server") ≡ true
  server_endpoint_some none h = h
  server_endpoint_some (some url) h = refl

  entry_of-HasServer :
      (id : ActionId) (cs : List ActionChannel)
      → channels_for registry id ≡ cs
      → HasServer (entry_of registry decorations id cs)
  unfolding is_usable_channel
  entry_of-HasServer id cs p s =
      server_endpoint_some (get registry.endpoints (action_name id))
        (ground (arith, (channels_for_lem registry id).0 ActionChannel.server, rw (← p) at s))

  build_entry-HasServer :
      (id : ActionId) (entry : NextAction)
      → build_entry registry decorations id ≡ some entry
      → HasServer entry
  unfolding build_entry
  build_entry-HasServer id entry h = go (channels_for registry id) refl
    where
      none≢some : ◌≡◌ {A = Option NextAction} none (some entry) → HasServer entry
      none≢some q = cc

      go : (cs : List ActionChannel) → channels_for registry id ≡ cs → HasServer entry
      go [] p = none≢some (rw (p, build_entry) at h)
      go (c ∷ cs) p =
          let q : some (entry_of registry decorations id (c ∷ cs)) ≡ some entry =
            rw (p, build_entry) at h in
          let same : entry_of registry decorations id (c ∷ cs) ≡ entry = cc in
          rw (← same) (entry_of-HasServer id (c ∷ cs) p)

  build_entries-HasServer :
      (ids : List ActionId) (entries : List NextAction)
      → build_entries registry decorations ids ≡ some entries
      → All HasServer entries
  unfolding build_entries
  build_entries-HasServer [] [] h = tt
  build_entries-HasServer [] (e ∷ es) h = cc
  build_entries-HasServer (id ∷ ids) entries h =
      elim (Option-cases (build_entry registry decorations id)) [
        | inl p ↦ cc (rw (p, build_entries) at h)
        | inr (e, p) ↦ elim (Option-cases (build_entries registry decorations ids)) [
          | inl ps ↦ cc (rw (p, ps, build_entries) at h)
          | inr (es, ps) ↦
              let q : some (e ∷ es) ≡ some entries = rw (p, ps, build_entries) at h in
              let same : e ∷ es ≡ entries = cc in
              rw (← same) (build_entry-HasServer id e p, build_entries-HasServer ids es ps)
        ]
      ]

map_stamp-IsReachable :
    (url : String) (entries : List NextAction)
    → All HasServer entries
    → All IsReachable (map (stamp_entry url) entries)
map_stamp-IsReachable url [] h = tt
map_stamp-IsReachable url (e ∷ es) (h, hs) =
    (stamp_entry-IsReachable url e h, map_stamp-IsReachable url es hs)

-- In every envelope that a handler emits with the facilitator's URL, each entry that advertises the
-- server or the facilitator carries that channel's endpoint.
pub emit_next_actions-IsReachable :
    (exchange_id : String) (state : EnvelopeState) (registry : ChannelRegistry) (url : String)
    (envelope : EscrowNextActions)
    → emit_next_actions exchange_id state registry (some url) ≡ some envelope
    → All IsReachable envelope.next
unfolding emit_next_actions derive_next_actions build_envelope stamp_facilitator_endpoints
emit_next_actions-IsReachable exchange_id state registry url envelope h =
    elim (Option-cases (
      build_entries registry (record { deadlines = [] })
        (client_legal_actions (to_client_state state)))) [
          | inl p ↦ absurd (ground (arith, p))
          | inr (es, p) ↦
              let same : map (stamp_entry url) es ≡ envelope.next = ground (arith, p) in
              rw (← same) (map_stamp-IsReachable url es (build_entries-HasServer registry _ _ es p))
        ]
