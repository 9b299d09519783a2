-- ===== src/Server/Endpoints/Stamp.antt =====
-- What stamping the facilitator's endpoint changes.
use x402b.Prelude.{
  String, List, Option, none, some, Bool, true, false, ◌≡◌, refl, ◌==◌, string_eq, not, ◌&&◌,
  includes, if◌then◌else◌, get, get-put, is_some, arith, eq_iff,
}
use x402b.Wire.{ActionChannel, channel_eq, NextAction}
use x402b.Server.Endpoints.{facilitator_endpoint_for, endpoint, spread, stamp_entry}

-- The endpoint that an entry has after stamping.
abbrev stamped : String → NextAction → String → Option String
stamped url entry k =
    if (includes entry.channels ActionChannel.facilitator && (k == "facilitator"))
      && not (is_some (endpoint entry.endpoints "facilitator"))
    then some (facilitator_endpoint_for entry.id url)
    else endpoint entry.endpoints k

get-spread : (m : Option (List (String × String))) (k : String) → get (spread m) k ≡ endpoint m k
get-spread none k = refl
get-spread (some m) k = refl

pub endpoint-stamp_entry :
    (url : String) (entry : NextAction) (k : String)
    → endpoint (stamp_entry url entry).endpoints k ≡ stamped url entry k
unfolding stamp_entry
endpoint-stamp_entry url entry k = ground (
  arith,
  eq_iff k "facilitator",
  eq_iff "facilitator" k,
  get-spread entry.endpoints k,
  get-put (spread entry.endpoints) "facilitator" k (facilitator_endpoint_for entry.id url),
)

stamp_entry_kept :
    (url : String) (entry : NextAction)
    → ((stamp_entry url entry).id ≡ entry.id)
      × ((stamp_entry url entry).channels ≡ entry.channels)
      × ((stamp_entry url entry).deadline ≡ entry.deadline)
unfolding stamp_entry
stamp_entry_kept url entry = (ground arith, ground arith, ground arith)

stamp_entry_fixed :
    (url : String) (entry : NextAction)
    → (includes entry.channels ActionChannel.facilitator
        && not (is_some (endpoint entry.endpoints "facilitator")))
      ≡ false
    → stamp_entry url entry ≡ entry
unfolding stamp_entry
stamp_entry_fixed url entry h = ground arith

unstamped :
    (advertised : Bool) (old : Option String) (new : String)
    → (advertised
        && not (
            is_some (
              if (advertised && ◌==◌ {A = String} "facilitator" "facilitator") && not (is_some old)
              then some new
              else old)))
      ≡ false
unstamped true none new = refl
unstamped true (some url) new = refl
unstamped false old new = refl

-- Stamping an entry keeps its id, channels and deadline. Of its endpoints it changes one at most: an
-- entry that advertises the facilitator and has no endpoint for it gets the facilitator's URL for the
-- action. Stamping once more changes nothing.
pub stamp_entry_lem :
    (url : String) (entry : NextAction)
    → ((stamp_entry url entry).id ≡ entry.id)
      × ((stamp_entry url entry).channels ≡ entry.channels)
      × ((stamp_entry url entry).deadline ≡ entry.deadline)
      × ((k : String)
          → endpoint (stamp_entry url entry).endpoints k ≡ (
              if (includes entry.channels ActionChannel.facilitator && (k == "facilitator"))
                && not (is_some (endpoint entry.endpoints "facilitator"))
              then some (facilitator_endpoint_for entry.id url)
              else endpoint entry.endpoints k))
      × (stamp_entry url (stamp_entry url entry) ≡ stamp_entry url entry)
stamp_entry_lem url entry =
    let kept = stamp_entry_kept url entry in
    (
      kept.0,
      kept.1,
      kept.2,
      endpoint-stamp_entry url entry,
      stamp_entry_fixed url (stamp_entry url entry) (
          rw (kept.1, endpoint-stamp_entry url entry "facilitator")
            (unstamped (includes entry.channels ActionChannel.facilitator)
              (endpoint entry.endpoints "facilitator") (facilitator_endpoint_for entry.id url))),
    )
