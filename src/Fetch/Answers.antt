-- ===== src/Fetch/Answers.antt =====
-- Which entry of a 402 answer is paid, and which answers of a facilitator confirm a settlement.
use mathlib.Core.Path.{subst}
use x402b.Prelude.{
  ◌≤◌, ◌<◌, String, Option, none, some, Bool, true, false, ◌≡◌, refl, ap, sym, string_eq,
  if◌then◌else◌, arith, ltb, leb, ◌&&◌,
}
use x402b.Json.{Json, Items}
use x402b.Server.Payload.{CommitAction}
use x402b.Effects.{Outcome, returned, thrown}
use x402b.Fetch.{Response, extract_escrow_entry, read_settle_answer}
use x402b.Fetch.Read.{
  field_of, is_escrow, find_item, escrow_among, find_escrow_accept, is_true, Fallback, read_settled,
  fallback_with,
}
use x402b.Fetch.Read.Fields.{Has, field_of-Has, text_of-str, has_text_iff, is_true-bool}

-- The first entry of the escrow scheme.
pub data FirstEscrow (entry : Json) : Items → Type 0 where
  here :
      (xs : Items)
      → Has entry "scheme" (Json.str "escrow")
      → FirstEscrow entry (Items.cons entry xs)
  later :
      (x : Json) (xs : Items)
      → ¬ (Has x "scheme" (Json.str "escrow"))
      → FirstEscrow entry xs
      → FirstEscrow entry (Items.cons x xs)

-- A 402, whose body lists the entry first among the `accepts` of the escrow scheme.
pub record Challenges (r : Response) (entry : Json) : Type 0 where
  pub is_402 : r.status ≡ 402
  pub body : Json
  pub has_body : r.json ≡ returned body
  pub accepts : Items
  pub has_accepts : Has body "accepts" (Json.arr accepts)
  pub first : FirstEscrow entry accepts

is_escrow-Has : (x : Json) → is_escrow x ≡ true → Has x "scheme" (Json.str "escrow")
is_escrow-Has x h = field_of-Has x "scheme" _ ((has_text_iff "escrow" (field_of x "scheme")).0 h)

Has-is_escrow : (x : Json) → Has x "scheme" (Json.str "escrow") → is_escrow x ≡ true
Has-is_escrow x h = (has_text_iff "escrow" (field_of x "scheme")).1 (rw (h.is_object) h.has_field)

find_item-FirstEscrow :
    (xs : Items) (entry : Json) → find_item is_escrow xs ≡ some entry → FirstEscrow entry xs
find_item-FirstEscrow Items.nil entry h = cc
find_item-FirstEscrow (Items.cons x xs) entry h =
    of_test (find_item-FirstEscrow xs entry) (is_escrow x) refl h
  where
    of_test :
        (find_item is_escrow xs ≡ some entry → FirstEscrow entry xs)
        → (b : Bool) → is_escrow x ≡ b
        → ◌≡◌ {A = Option Json} (if b then some x else find_item is_escrow xs) (some entry)
        → FirstEscrow entry (Items.cons x xs)
    of_test rest true p k =
        let same : x ≡ entry = cc in
        subst (λ y. FirstEscrow y (Items.cons x xs)) same (FirstEscrow.here xs (is_escrow-Has x p))
    of_test rest false p k = FirstEscrow.later x xs (λ h. cc (p, Has-is_escrow x h)) (rest k)

among-arr :
    (o : Option Json) (entry : Json)
    → escrow_among o ≡ some entry
    → (xs : Items) × (o ≡ some (Json.arr xs)) × FirstEscrow entry xs
among-arr (some (Json.arr xs)) entry h = (xs, refl, find_item-FirstEscrow xs entry h)
among-arr _ entry h = cc

pub extract_escrow_entry-Challenges :
    (r : Response) (entry : Json)
    → r.status ≡ 402
    → extract_escrow_entry r ≡ some entry
    → Challenges r entry
unfolding extract_escrow_entry find_escrow_accept
extract_escrow_entry-Challenges r entry s h = of_body r.json refl h
  where
    of_body :
        (o : Outcome Json)
        → r.json ≡ o
        → ◌≡◌ {A = Option Json}
            (elim o [ returned body ↦ find_escrow_accept body | thrown e ↦ none ])
            (some entry)
        → Challenges r entry
    of_body (thrown e) p k = cc
    of_body (returned body) p k =
        let (xs, q, first) = among-arr (field_of body "accepts") entry k in
        record {
          is_402 = s;
          body = body;
          has_body = p;
          accepts = xs;
          has_accepts = field_of-Has body "accepts" _ q;
          first = first;
        }

-- An answer with a status of success and a body that is `ok`, with an exchange and a transaction.
pub record Confirms (answer : Response) (exchange_id tx_hash : String) : Type 0 where
  pub from_200 : 200 ≤ answer.status
  pub below_300 : answer.status < 300
  pub body : Json
  pub has_body : answer.json ≡ returned body
  pub is_ok : Has body "ok" (Json.bool true)
  pub has_exchange : Has body "exchangeId" (Json.str exchange_id)
  pub has_hash : Has body "txHash" (Json.str tx_hash)

fallback_with-parts :
    (action : CommitAction) (e t : Option String) (found : Fallback)
    → fallback_with action e t ≡ some found
    → (found.action_id ≡ action) × (e ≡ some found.exchange_id) × (t ≡ some found.tx_hash)
fallback_with-parts action (some e) (some t) found h =
    let same : record { action_id = action; exchange_id = e; tx_hash = t } ≡ found = cc in
    (
      ap (λ x. x.action_id) (sym same),
      ap (λ x. some x.exchange_id) same,
      ap (λ x. some x.tx_hash) same,
    )
fallback_with-parts action none t found h = cc
fallback_with-parts action (some e) none found h = cc

test_passed :
    {A : Type 0} (b : Bool) (o : Option A) (a : A)
    → (if b then o else none) ≡ some a
    → (b ≡ true) × (o ≡ some a)
test_passed true o a h = (refl, h)
test_passed false o a h = cc

pub read_settle_answer-Confirms :
    (action : CommitAction) (answer : Response) (found : Fallback)
    → read_settle_answer action answer ≡ some found
    → (found.action_id ≡ action) × Confirms answer found.exchange_id found.tx_hash
unfolding read_settle_answer
read_settle_answer-Confirms action answer found h =
    let (at, k) = test_passed (leb 200 answer.status && ltb answer.status 300) _ found h in
    of_body at answer.json refl k
  where
    of_body :
        (leb 200 answer.status && ltb answer.status 300) ≡ true
        → (o : Outcome Json) → answer.json ≡ o
        → ◌≡◌ {A = Option Fallback}
            (elim o [ returned body ↦ read_settled action body | thrown e ↦ none ])
            (some found)
        → (found.action_id ≡ action) × Confirms answer found.exchange_id found.tx_hash
    of_body at (thrown e) p k = cc
    of_body at (returned body) p k =
        let (ok, read) = test_passed (is_true (field_of body "ok")) _ found k in
        let (same, e, t) = fallback_with-parts action _ _ found read in
        (
          same,
          record {
            from_200 = ground arith;
            below_300 = ground arith;
            body = body;
            has_body = p;
            is_ok = field_of-Has body "ok" _ (is_true-bool _ ok);
            has_exchange = field_of-Has body "exchangeId" _ (text_of-str _ _ e);
            has_hash = field_of-Has body "txHash" _ (text_of-str _ _ t);
          },
        )
