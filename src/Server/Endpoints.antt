-- ===== src/Server/Endpoints.antt =====
-- internal/facilitator-endpoints.ts and handlers/next-actions.ts: the facilitator's URL in the
-- entries that advertise its channel. `encodeURIComponent` leaves the action ids as they are.
pub mod Stamp
pub mod Emit
mod Tests
use Prim.Native.Char.{Char, code}
use Prim.Native.String.{◌++◌ as append}
use x402b.Prelude.{
  String, List, [], ◌∷◌, map, Option, none, some, Bool, true, false, not, ◌&&◌, ◌==◌, string_eq,
  nat_eq, includes, if◌then◌else◌, Dict, get, put, is_some,
}
use x402b.Wire.{ActionChannel, channel_eq, NextAction, EnvelopeState, EscrowNextActions}
use x402b.Actions.{ChannelRegistry, DeriveDecorations, derive_next_actions}

abbrev commit_action_ids : List String
commit_action_ids = "boson-createOfferAndCommit" ∷ "boson-createOfferCommitAndRedeem" ∷ []

-- `url.replace(/\/+$/, "")`
unfoldable pub strip_slashes : String → String
strip_slashes String.[] = ""
strip_slashes (String.◌∷◌ c s) =
    let rest = strip_slashes s in if code c == b'/' && rest == "" then "" else String.◌∷◌ c rest

infixr 65 ◌<>◌
abbrev ◌<>◌ : String → String → String
a <> b = append a b

unfoldable pub facilitator_endpoint_for : String → String → String
unfolding strip_slashes
facilitator_endpoint_for action_id facilitator_url =
    let base = strip_slashes facilitator_url in
    if includes commit_action_ids action_id
    then base <> "/settle"
    else base <> ("/perform-action?action=" <> action_id)

-- `entry.endpoints?.[k]`
abbrev pub endpoint : Option (Dict String) → String → Option String
endpoint none k = none
endpoint (some m) k = get m k

-- `{ ...entry.endpoints }`
abbrev spread : Option (Dict String) → Dict String
spread none = []
spread (some m) = m

unfoldable pub stamp_entry : String → NextAction → NextAction
stamp_entry facilitator_url entry =
    if not (includes entry.channels ActionChannel.facilitator)
    then entry
    else if is_some (endpoint entry.endpoints "facilitator")
    then entry
    else record entry {
      endpoints = some (
          put (spread entry.endpoints) "facilitator"
            (facilitator_endpoint_for entry.id facilitator_url));
    }

unfoldable pub stamp_facilitator_endpoints : List NextAction → String → List NextAction
unfolding stamp_entry
stamp_facilitator_endpoints next facilitator_url = map (stamp_entry facilitator_url) next

unfoldable pub stamp_envelope : Option String → EscrowNextActions → EscrowNextActions
stamp_envelope none derived = derived
stamp_envelope (some url) derived = record derived {
  next = stamp_facilitator_endpoints derived.next url;
}

-- none where `deriveNextActions` throws.
unfoldable pub emit_next_actions :
    String → EnvelopeState → ChannelRegistry → Option String → Option EscrowNextActions
unfolding stamp_envelope
emit_next_actions exchange_id state registry facilitator_url =
    elim (derive_next_actions exchange_id state registry (record { deadlines = [] })) [
      | none ↦ none
      | some derived ↦ some (stamp_envelope facilitator_url derived)
    ]
