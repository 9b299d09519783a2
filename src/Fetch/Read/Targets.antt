-- ===== src/Fetch/Read/Targets.antt =====
-- Which commit entry of a challenge the fallback takes.
use x402b.Prelude.{
  String, Option, none, some, Bool, true, false, ◌≡◌, refl, ap, ◌∙◌, string_eq, ◌↔◌, if◌then◌else◌,
  arith,
}
use x402b.Json.{Json, Items}
use x402b.Server.Payload.{
  CommitAction, create_offer_and_commit, create_offer_commit_and_redeem, commit_action,
}
use x402b.Fetch.Read.{
  field_of, text_of, is_escrow, nested, lists_text, target_at, CommitTarget, facilitator_target,
  first_target, target_in, with_network, fallback_target, action_at,
}
use x402b.Fetch.Read.Fields.{
  Has, In, field_of-Has, Has-field_of, text_of-str, nested-some, has_text_iff, lists_text-In,
  In-lists_text,
}

abbrev pub id_of : CommitAction → String
id_of create_offer_and_commit = "boson-createOfferAndCommit"
id_of create_offer_commit_and_redeem = "boson-createOfferCommitAndRedeem"

-- An entry of a commit action, which lists the facilitator's channel and has its endpoint.
pub record Targets (entry : Json) (action : CommitAction) (url : String) : Type 0 where
  pub has_id : Has entry "id" (Json.str (id_of action))
  pub channels : Items
  pub has_channels : Has entry "channels" (Json.arr channels)
  pub lists : In (Json.str "facilitator") channels
  pub endpoints : Json
  pub has_endpoints : Has entry "endpoints" endpoints
  pub has_url : Has endpoints "facilitator" (Json.str url)

-- The first of the entries that is one of those.
pub data First (action : CommitAction) (url : String) : Items → Type 0 where
  here : (x : Json) (xs : Items) → Targets x action url → First action url (Items.cons x xs)
  later :
      (x : Json) (xs : Items)
      → ((a : CommitAction) (u : String) → ¬ (Targets x a u))
      → First action url xs
      → First action url (Items.cons x xs)

-- A challenge of the escrow scheme, with its network and the first such entry of `actions.next`.
pub record FallsBack (challenge : Json) (network : String) (action : CommitAction) (url : String)
    : Type 0 where
  pub has_scheme : Has challenge "scheme" (Json.str "escrow")
  pub has_network : Has challenge "network" (Json.str network)
  pub actions : Json
  pub has_actions : Has challenge "actions" actions
  pub next : Items
  pub has_next : Has actions "next" (Json.arr next)
  pub first : First action url next

commit_action_iff : (id : String) (a : CommitAction) → (commit_action id ≡ some a) ↔ (id ≡ id_of a)
commit_action_iff id create_offer_and_commit =
    ground (arith, string_eq.beq_iff id "boson-createOfferAndCommit")
commit_action_iff id create_offer_commit_and_redeem = (
  λ h. ground (
    arith,
    string_eq.beq_iff id "boson-createOfferAndCommit",
    string_eq.beq_iff id "boson-createOfferCommitAndRedeem",
  ),
  λ p. rw p refl,
)

target_at-parts :
    (b : Bool) (action : Option CommitAction) (url : Option String) (a : CommitAction) (u : String)
    → target_at b action url ≡ some (a, u)
    → (b ≡ true) × (action ≡ some a) × (url ≡ some u)
target_at-parts true (some action) (some url) a u h =
    let same : ◌≡◌ {A = CommitTarget} (action, url) (a, u) = cc in
    (refl, ap (λ z. some z.0) same, ap (λ z. some z.1) same)
target_at-parts false action url a u h = cc
target_at-parts true none url a u h = cc
target_at-parts true (some action) none a u h = cc

action_at-id : (o : Option String) (a : CommitAction) → action_at o ≡ some a → o ≡ some (id_of a)
action_at-id none a h = cc
action_at-id (some id) a h = ap (λ x. some x) ((commit_action_iff id a).0 h)

facilitator_target-Targets :
    (entry : Json) (a : CommitAction) (u : String)
    → facilitator_target entry ≡ some (a, u)
    → Targets entry a u
facilitator_target-Targets entry a u h =
    let (lists, acts, at) = target_at-parts _ _ _ a u h in
    let (channels, c, m) = lists_text-In "facilitator" (field_of entry "channels") lists in
    let id = text_of-str (field_of entry "id") (id_of a) (action_at-id _ a acts) in
    let (endpoints, e, url) =
      nested-some (field_of entry "endpoints") "facilitator" (Json.str u) (text_of-str _ u at) in
    record {
      has_id = field_of-Has entry "id" _ id;
      channels = channels;
      has_channels = field_of-Has entry "channels" _ c;
      lists = m;
      endpoints = endpoints;
      has_endpoints = field_of-Has entry "endpoints" _ e;
      has_url = url;
    }

Targets-facilitator_target :
    (entry : Json) (a : CommitAction) (u : String)
    → Targets entry a u
    → facilitator_target entry ≡ some (a, u)
Targets-facilitator_target entry a u t =
    let lists : lists_text "facilitator" (field_of entry "channels") ≡ true =
      In-lists_text "facilitator" _ t.channels (Has-field_of entry "channels" _ t.has_channels)
        t.lists in
    let id : field_of entry "id" ≡ some (Json.str (id_of a)) = Has-field_of entry "id" _ t.has_id in
    let e : field_of entry "endpoints" ≡ some t.endpoints =
      Has-field_of entry "endpoints" _ t.has_endpoints in
    let url : field_of t.endpoints "facilitator" ≡ some (Json.str u) =
      Has-field_of t.endpoints "facilitator" _ t.has_url in
    rw (lists, id, e, url, (commit_action_iff (id_of a) a).1 refl) refl

first_target-First :
    (xs : Items) (a : CommitAction) (u : String) → first_target xs ≡ some (a, u) → First a u xs
first_target-First Items.nil a u h = cc
first_target-First (Items.cons x xs) a u h =
    of_entry (first_target-First xs a u) (facilitator_target x) refl h
  where
    of_entry :
        (first_target xs ≡ some (a, u) → First a u xs)
        → (o : Option CommitTarget) → facilitator_target x ≡ o
        → ◌≡◌ {A = Option CommitTarget}
            (elim o [ none ↦ first_target xs | some target ↦ some target ])
            (some (a, u))
        → First a u (Items.cons x xs)
    of_entry rest (some target) p k = First.here x xs (facilitator_target-Targets x a u (p ∙ k))
    of_entry rest none p k =
        First.later x xs (λ b v t. cc (p, Targets-facilitator_target x b v t)) (rest k)

First-first_target :
    (xs : Items) (a : CommitAction) (u : String) → First a u xs → first_target xs ≡ some (a, u)
First-first_target Items.nil a u m = elim m [ ]
First-first_target (Items.cons x xs) a u (First.here y rest t) =
    ap {A = Option CommitTarget} {B = Option CommitTarget}
      (λ o. elim o [ none ↦ first_target xs | some target ↦ some target ])
      (Targets-facilitator_target x a u t)
First-first_target (Items.cons x xs) a u (First.later y rest none_here f) =
    of_entry (First-first_target xs a u f) (facilitator_target x) refl
  where
    of_entry :
        first_target xs ≡ some (a, u)
        → (o : Option CommitTarget) → facilitator_target x ≡ o
        → ◌≡◌ {A = Option CommitTarget}
            (elim o [ none ↦ first_target xs | some target ↦ some target ])
            (some (a, u))
    of_entry rest_first (some (b, v)) p =
        absurd (none_here b v (facilitator_target-Targets x b v p))
    of_entry rest_first none p = rest_first

with_network-parts :
    (n : Option String) (t : Option CommitTarget) (network : String) (target : CommitTarget)
    → with_network n t ≡ some (network, target)
    → (n ≡ some network) × (t ≡ some target)
with_network-parts (some n) (some t) network target h =
    let same : ◌≡◌ {A = String × CommitTarget} (n, t) (network, target) = cc in
    (ap (λ z. some z.0) same, ap (λ z. some z.1) same)
with_network-parts none t network target h = cc
with_network-parts (some n) none network target h = cc

target_in-arr :
    (o : Option Json) (target : CommitTarget)
    → target_in o ≡ some target
    → (xs : Items) × (o ≡ some (Json.arr xs)) × (first_target xs ≡ some target)
target_in-arr (some (Json.arr xs)) target h = (xs, refl, h)
target_in-arr _ target h = cc

-- The fallback has a network, an action and a URL exactly when the challenge is of the escrow scheme
-- with that network, and the first entry of its `actions.next` that is of a commit action, lists the
-- facilitator's channel and has an endpoint for it, is of that action and has that URL. Whether the
-- client would choose that entry is not asked.
pub fallback_target_iff :
    (challenge : Json) (network : String) (action : CommitAction) (url : String)
    → (fallback_target challenge ≡ some (network, (action, url)))
      ↔ FallsBack challenge network action url
unfolding fallback_target
fallback_target_iff challenge network action url = (
  λ h. of_test (is_escrow challenge) refl h,
  λ f.
      let scheme : is_escrow challenge ≡ true =
        (has_text_iff "escrow" (field_of challenge "scheme")).1
          (Has-field_of challenge "scheme" _ f.has_scheme) in
      let n : field_of challenge "network" ≡ some (Json.str network) =
        Has-field_of challenge "network" _ f.has_network in
      let acts : field_of challenge "actions" ≡ some f.actions =
        Has-field_of challenge "actions" _ f.has_actions in
      let next : field_of f.actions "next" ≡ some (Json.arr f.next) =
        Has-field_of f.actions "next" _ f.has_next in
      rw (scheme, n, acts, next, First-first_target f.next action url f.first) refl,
)
  where
    of_test :
        (b : Bool)
        → is_escrow challenge ≡ b
        → (if b
            then with_network
                (text_of (field_of challenge "network"))
                (target_in (nested (field_of challenge "actions") "next"))
            else none)
          ≡ some (network, (action, url))
        → FallsBack challenge network action url
    of_test false p k = cc
    of_test true p k =
        let (n, t) = with_network-parts _ _ network (action, url) k in
        let (xs, q, first) = target_in-arr _ (action, url) t in
        let (actions, acts, next) =
          nested-some (field_of challenge "actions") "next" (Json.arr xs) q in
        record {
          has_scheme =
              field_of-Has challenge "scheme" _
                ((has_text_iff "escrow" (field_of challenge "scheme")).0 p);
          has_network = field_of-Has challenge "network" _ (text_of-str _ network n);
          actions = actions;
          has_actions = field_of-Has challenge "actions" _ acts;
          next = xs;
          has_next = next;
          first = first_target-First xs action url first;
        }
