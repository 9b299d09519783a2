-- ===== src/Server/HttpClient/Guards.antt =====
-- The shapes of the facilitator's answers, and what passes for one.
use x402b.Prelude.{
  ℕ, Dict, String, Option, none, some, [], ◌∷◌, Bool, true, false, ◌&&◌, ◌≡◌, refl, ap, sym, ◌∙◌,
  ◌≤◌, ◌==◌, nat_eq, Dict, ℕ, if◌then◌else◌, ◌↔◌, ◌⊎◌, inl, inr, Bool-cases,
}
use x402b.Json.{Json}
use x402b.Effects.{Raised, Outcome, returned, thrown}
use x402b.Facilitator.{FacilitatorSettleInput}
use x402b.Server.HttpClient.{
  judge, field_of, is_string, is_bool, is_failure_branch, is_settle_result, Transport,
  CreateFacilitatorClientOptions, post_settle, FetchReply, failed, response, judge, read_body,
  answer, post_once, post, post_request, idempotency_key_header,
}
use x402b.Server.HttpClient.Attempts.{post-Tried}

abbrev pub HasString : Json → String → Type 0
HasString v k = (s : String) × (field_of v k ≡ some (Json.str s))

-- `{ ok: false, code, reason }`
abbrev pub IsRefusal : Json → Type 0
IsRefusal v = (field_of v "ok" ≡ some (Json.bool false)) × HasString v "code" × HasString v "reason"

-- `{ ok: true, exchangeId, txHash }` or a refusal.
abbrev pub IsSettleAnswer : Json → Type 0
IsSettleAnswer v =
    ((field_of v "ok" ≡ some (Json.bool true)) × HasString v "exchangeId" × HasString v "txHash")
    ⊎ IsRefusal v

is_string_iff : (o : Option Json) → (is_string o ≡ true) ↔ ((s : String) × (o ≡ some (Json.str s)))
is_string_iff none = (λ h. cc, λ (s, h). cc)
is_string_iff (some (Json.str s)) = (λ h. (s, refl), λ h. refl)
is_string_iff (some Json.null) = (λ h. cc, λ (s, h). cc)
is_string_iff (some (Json.bool b)) = (λ h. cc, λ (s, h). cc)
is_string_iff (some (Json.num n)) = (λ h. cc, λ (s, h). cc)
is_string_iff (some (Json.arr xs)) = (λ h. cc, λ (s, h). cc)
is_string_iff (some (Json.obj f)) = (λ h. cc, λ (s, h). cc)

is_bool_iff : (b : Bool) (o : Option Json) → (is_bool b o ≡ true) ↔ (o ≡ some (Json.bool b))
is_bool_iff true none = (λ h. cc, λ h. cc)
is_bool_iff false none = (λ h. cc, λ h. cc)
is_bool_iff true (some (Json.bool true)) = (λ h. refl, λ h. refl)
is_bool_iff true (some (Json.bool false)) = (λ h. cc, λ h. cc)
is_bool_iff false (some (Json.bool true)) = (λ h. cc, λ h. cc)
is_bool_iff false (some (Json.bool false)) = (λ h. refl, λ h. refl)
is_bool_iff true (some (Json.str s)) = (λ h. cc, λ h. cc)
is_bool_iff false (some (Json.str s)) = (λ h. cc, λ h. cc)
is_bool_iff true (some Json.null) = (λ h. cc, λ h. cc)
is_bool_iff false (some Json.null) = (λ h. cc, λ h. cc)
is_bool_iff true (some (Json.num n)) = (λ h. cc, λ h. cc)
is_bool_iff false (some (Json.num n)) = (λ h. cc, λ h. cc)
is_bool_iff true (some (Json.arr xs)) = (λ h. cc, λ h. cc)
is_bool_iff false (some (Json.arr xs)) = (λ h. cc, λ h. cc)
is_bool_iff true (some (Json.obj f)) = (λ h. cc, λ h. cc)
is_bool_iff false (some (Json.obj f)) = (λ h. cc, λ h. cc)

both_true_iff : (a b : Bool) → (a && b ≡ true) ↔ ((a ≡ true) × (b ≡ true))
both_true_iff true b = (λ h. (refl, h), λ (p, q). q)
both_true_iff false b = (λ h. cc, λ (p, q). p)

is_failure_branch_iff : (v : Json) → (is_failure_branch v ≡ true) ↔ IsRefusal v
unfolding is_failure_branch
is_failure_branch_iff v = (
  λ h.
      let (ab, c) = (both_true_iff _ (is_string (field_of v "reason"))).0 h in
      let (a, b) = (both_true_iff (is_bool false (field_of v "ok")) _).0 ab in
      ((is_bool_iff false _).0 a, (is_string_iff _).0 b, (is_string_iff _).0 c),
  λ (a, b, c). (both_true_iff _ (is_string (field_of v "reason"))).1 (
    (both_true_iff (is_bool false (field_of v "ok")) (is_string (field_of v "code"))).1
        ((is_bool_iff false _).1 a, (is_string_iff _).1 b),
    (is_string_iff _).1 c,
  ),
)

is_settle_result-IsSettleAnswer : (v : Json) → is_settle_result v ≡ true → IsSettleAnswer v
unfolding is_settle_result
is_settle_result-IsSettleAnswer v h = elim (Bool-cases (is_bool true (field_of v "ok"))) [
  | inl e ↦
      let both : is_string (field_of v "exchangeId") && is_string (field_of v "txHash") ≡ true =
        rw e at h in
      let (b, c) = (both_true_iff (is_string (field_of v "exchangeId")) _).0 both in
      inl ((is_bool_iff true _).0 e, (is_string_iff _).0 b, (is_string_iff _).0 c)
  | inr e ↦
      let refused : is_failure_branch v ≡ true = rw e at h in
      inr ((is_failure_branch_iff v).0 refused)
]

-- Inversion of a value that is given under a test.
returned_if :
    (b : Bool) (v j : Json) (e : Raised)
    → ◌≡◌ {A = Outcome Json} (if b then returned v else thrown e) (returned j)
    → (b ≡ true) × (v ≡ j)
returned_if true v j e h = (refl, cc)
returned_if false v j e h = cc

module _ {W : Type 0} (transport : Transport W) (opts : CreateFacilitatorClientOptions) where
  module _ (path body : String) (validate : Json → Bool) (extra : Dict String) where
    judge-valid :
        (is_ok : Bool) (status : ℕ) (text : String) (o : Outcome Json) (j : Json)
        → judge transport opts path body validate extra is_ok status text o ≡ returned j
        → validate j ≡ true
    judge-valid is_ok status text (thrown e) j h = cc
    judge-valid true status text (returned v) j h =
        let (valid, same) = returned_if (validate v) v j _ h in ap validate (sym same) ∙ valid
    judge-valid false status text (returned v) j h =
        let (tests, same) =
          returned_if (status == 400 && is_failure_branch v && validate v) v j _ h in
        let (first, valid) = (both_true_iff _ (validate v)).0 tests in
        ap validate (sym same) ∙ valid

    read_body-valid :
        (is_ok : Bool) (status : ℕ) (o : Outcome String) (j : Json)
        → read_body transport opts path body validate extra is_ok status o ≡ returned j
        → validate j ≡ true
    read_body-valid is_ok status (thrown e) j h = cc
    read_body-valid is_ok status (returned text) j h = judge-valid is_ok status text _ j h

    answer-valid :
        (reply : FetchReply) (j : Json)
        → answer transport opts path body validate extra reply ≡ returned j
        → validate j ≡ true
    answer-valid (failed true) j h = cc
    answer-valid (failed false) j h = cc
    answer-valid (response is_ok status text) j h = read_body-valid is_ok status text j h

    post_once-valid :
        (w : W) (j : Json)
        → (post_once transport opts path body validate extra w).0 ≡ returned j
        → validate j ≡ true
    unfolding post_once
    post_once-valid w j h =
        answer-valid (transport.fetch (post_request transport opts path body validate extra) w).0 j
          h

    post-valid :
        (w w' : W) (j : Json)
        → 1 ≤ opts.retry.attempts
        → post transport opts path body validate extra w ≡ (returned j, w')
        → validate j ≡ true
    post-valid w w' j n h =
        let t = post-Tried transport opts path body validate extra w n in
        post_once-valid _ j (ap (λ r. r.0) (sym t.answered ∙ h))

  -- A settlement that the client answers with a value has the shape of a result: an exchange id and
  -- a transaction's hash, or a code and a reason. Any other body is thrown as an error.
  pub post_settle-IsSettleAnswer :
      (input : FacilitatorSettleInput) (w w' : W) (j : Json)
      → 1 ≤ opts.retry.attempts
      → post_settle transport opts input w ≡ (returned j, w')
      → IsSettleAnswer j
  unfolding post_settle
  post_settle-IsSettleAnswer input w w' j n h = is_settle_result-IsSettleAnswer j (
      post-valid "/settle" (transport.stringify_input input) is_settle_result
        ((idempotency_key_header, (transport.idempotency_key w).0) ∷ [])
        (transport.idempotency_key w).1 w' j n h)
