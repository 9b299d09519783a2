-- ===== src/Fetch/Read.antt =====
-- What wrap.ts reads of JSON: findEscrowAccept (core/src/schemes/escrow/accepts.ts), the target of the
-- fallback and the facilitator's confirmation. An entry whose parts have other shapes than the
-- schema's is one that `handle402` has refused before its parts are read here.
pub mod Fields
pub mod Targets
use x402b.Prelude.{String, Option, none, some, Bool, true, false, ◌==◌, string_eq, if◌then◌else◌}
use x402b.Json.{Json, Items, get_field}
use x402b.Server.Payload.{CommitAction, commit_action}

abbrev pub field_of : Json → String → Option Json
field_of (Json.obj f) k = get_field f k
field_of _ k = none

abbrev pub text_of : Option Json → Option String
text_of (some (Json.str s)) = some s
text_of _ = none

abbrev pub has_text : String → Option Json → Bool
has_text t (some (Json.str s)) = s == t
has_text t _ = false

-- `scheme === "escrow"` of an object.
abbrev pub is_escrow : Json → Bool
is_escrow entry = has_text "escrow" (field_of entry "scheme")

abbrev pub find_item : (Json → Bool) → Items → Option Json
find_item p Items.nil = none
find_item p (Items.cons x xs) = if p x then some x else find_item p xs

abbrev pub escrow_among : Option Json → Option Json
escrow_among (some (Json.arr entries)) = find_item is_escrow entries
escrow_among _ = none

unfoldable pub find_escrow_accept : Json → Option Json
find_escrow_accept body = escrow_among (field_of body "accepts")

abbrev pub item_texts : String → Items → Bool
item_texts t Items.nil = false
item_texts t (Items.cons x xs) = if has_text t (some x) then true else item_texts t xs

-- `xs.includes(t)`
abbrev pub lists_text : String → Option Json → Bool
lists_text t (some (Json.arr xs)) = item_texts t xs
lists_text t _ = false

-- A commit action with the URL of its facilitator.
abbrev pub CommitTarget : Type 0
CommitTarget = CommitAction × String

abbrev pub target_at : Bool → Option CommitAction → Option String → Option CommitTarget
target_at true (some action) (some url) = some (action, url)
target_at _ _ _ = none

abbrev pub nested : Option Json → String → Option Json
nested none k = none
nested (some v) k = field_of v k

abbrev pub action_at : Option String → Option CommitAction
action_at none = none
action_at (some id) = commit_action id

-- The test on an entry of `next`, with what is read of it.
abbrev pub facilitator_target : Json → Option CommitTarget
facilitator_target entry =
    target_at (lists_text "facilitator" (field_of entry "channels"))
      (action_at (text_of (field_of entry "id")))
      (text_of (nested (field_of entry "endpoints") "facilitator"))

abbrev pub first_target : Items → Option CommitTarget
first_target Items.nil = none
first_target (Items.cons x xs) = elim (facilitator_target x) [
  | none ↦ first_target xs
  | some target ↦ some target
]

abbrev pub target_in : Option Json → Option CommitTarget
target_in (some (Json.arr next)) = first_target next
target_in _ = none

-- The network and the first commit entry that the facilitator takes.
abbrev pub with_network : Option String → Option CommitTarget → Option (String × CommitTarget)
with_network (some network) (some target) = some (network, target)
with_network _ _ = none

unfoldable pub fallback_target : Json → Option (String × CommitTarget)
fallback_target requirements =
    if is_escrow requirements
    then with_network (text_of (field_of requirements "network"))
        (target_in (nested (field_of requirements "actions") "next"))
    else none

pub record Fallback : Type 0 where
  pub action_id : CommitAction
  pub exchange_id : String
  pub tx_hash : String

abbrev pub is_true : Option Json → Bool
is_true (some (Json.bool b)) = b
is_true _ = false

abbrev pub fallback_with : CommitAction → Option String → Option String → Option Fallback
fallback_with action (some exchange_id) (some tx_hash) =
    some (record { action_id = action; exchange_id = exchange_id; tx_hash = tx_hash })
fallback_with action _ _ = none

abbrev pub read_settled : CommitAction → Json → Option Fallback
read_settled action body =
    if is_true (field_of body "ok")
    then fallback_with action (text_of (field_of body "exchangeId"))
        (text_of (field_of body "txHash"))
    else none
