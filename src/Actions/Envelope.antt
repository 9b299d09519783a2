-- ===== src/Actions/Envelope.antt =====
-- What a derived envelope holds.
use x402b.Prelude.{
  sym, String, List, [], ◌∷◌, some, true, false, ◌≡◌, refl, ◌==◌, string_eq, includes, get, arith,
}
use x402b.Machine.{ActionId, action_name, client_legal_actions}
use x402b.Wire.{ActionChannel, channel_eq, NextAction, EnvelopeState, EscrowNextActions}
use x402b.Actions.{
  ChannelRegistry, DeriveDecorations, channels_for, entry_of, build_entry, build_entries,
  build_fallback, to_client_state, derive_next_actions,
}
use x402b.Actions.Channels.{channels_for-onchain}

-- What holds of the entry that is built for an action.
pub record IsEntryFor (registry : ChannelRegistry) (decorations : DeriveDecorations) (id : ActionId)
    (entry : NextAction) : Type 0 where
  pub named : entry.id ≡ action_name id
  pub channelled : entry.channels ≡ channels_for registry id
  pub timed : entry.deadline ≡ get decorations.deadlines (action_name id)
  pub onchain : includes entry.channels ActionChannel.onchain ≡ true

-- The entries are those of the actions, one for each, in order.
abbrev pub EntriesFor :
    ChannelRegistry → DeriveDecorations → List ActionId → List NextAction → Type 0
EntriesFor registry decorations [] [] = Unit
EntriesFor registry decorations [] (e ∷ es) = ⊥
EntriesFor registry decorations (id ∷ ids) [] = ⊥
EntriesFor registry decorations (id ∷ ids) (e ∷ es) =
    IsEntryFor registry decorations id e × EntriesFor registry decorations ids es

module _ (registry : ChannelRegistry) (decorations : DeriveDecorations) where
  build_entry_total :
      (id : ActionId)
      → (registry.escrow == "") ≡ false
      → (entry : NextAction) × (build_entry registry decorations id ≡ some entry)
        × IsEntryFor registry decorations id entry
  unfolding build_entry
  build_entry_total id h = go (channels_for registry id) refl (channels_for-onchain registry id h)
    where
      go :
          (cs : List ActionChannel)
          → channels_for registry id ≡ cs
          → includes (channels_for registry id) ActionChannel.onchain ≡ true
          → (entry : NextAction) × (build_entry registry decorations id ≡ some entry)
            × IsEntryFor registry decorations id entry
      go [] p o = cc
      go (c ∷ cs) p o = (
        entry_of registry decorations id (c ∷ cs),
        rw (p, build_entry),
        record { named = refl; channelled = sym p; timed = refl; onchain = rw p at o },
      )

  build_entries_total :
      (ids : List ActionId)
      → (registry.escrow == "") ≡ false
      → (entries : List NextAction) × (build_entries registry decorations ids ≡ some entries)
        × EntriesFor registry decorations ids entries
  unfolding build_entries
  build_entries_total [] h = ([], refl, tt)
  build_entries_total (id ∷ ids) h =
      let (e, p, q) = build_entry_total id h in
      let (es, ps, qs) = build_entries_total ids h in (e ∷ es, rw (p, build_entries, ps), (q, qs))

-- For a registry with an escrow address, deriving the envelope of any state never throws: it lists
-- exactly the client's legal actions of the state, in order, each with its channels and deadline and
-- reachable on-chain; and it repeats the exchange id and state, with the fallback built for those
-- actions.
pub derive_next_actions_total :
    (exchange_id : String) (state : EnvelopeState) (registry : ChannelRegistry)
    (decorations : DeriveDecorations)
    → (registry.escrow == "") ≡ false
    → (envelope : EscrowNextActions) × (derive_next_actions exchange_id state registry decorations
        ≡ some envelope)
      × EntriesFor registry decorations (client_legal_actions (to_client_state state)) envelope.next
      × (envelope.exchange_id ≡ exchange_id)
      × (envelope.state ≡ state)
      × (envelope.fallback
          ≡ some (build_fallback registry (client_legal_actions (to_client_state state))))
unfolding derive_next_actions
derive_next_actions_total exchange_id state registry decorations h =
    let ids = client_legal_actions (to_client_state state) in
    let (es, p, q) = build_entries_total registry decorations ids h in
    (
      record {
        exchange_id = exchange_id;
        state = state;
        next = es;
        fallback = some (build_fallback registry ids);
      },
      ground (arith, p),
      q,
      refl,
      refl,
      refl,
    )
