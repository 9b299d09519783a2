-- ===== src/Facilitator/Calldata/Matching.antt =====
-- Which meta-transactions are an action on a key: perform-action/action-calldata.ts.
use x402b.Prelude.{
  ℕ, String, List, [], ◌∷◌, Option, none, some, Bool, true, false, ◌≡◌, ◌↔◌, ◌≤◌, refl, arith, ◌!=◌,
  string_eq, nat_eq, nat_beq_iff, ltb, if◌then◌else◌,
}
use x402b.Effects.{Outcome, returned, thrown}
use x402b.Machine.{ActionId}
use x402b.Wire.{BosonMetaTx}
use x402b.Wire.Patterns.{is_decimal_uint}
use x402b.Facilitator.{invalid_payload, ok}
use x402b.Facilitator.Config.{
  Libraries, DecodedValue, DecodedCall, bigint, hex, hexes, bigints, other, reject_if,
}
use x402b.Facilitator.Structural.{decimal_value}
use x402b.Facilitator.Structural.Accepts.{both_iff, equal_texts_iff}
use x402b.Facilitator.Calldata.{
  ActionFunction, uint256_max, parse_uint256, match_key, match_decoded, match_parsed,
  match_function, validate_perform_exchange_action_meta_tx, validate_perform_entity_action_meta_tx,
  post_commit_exchange_function, entity_action_function,
}

-- A text is a key exactly when it is a decimal numeral of a 256-bit number, which is the key.
pub parse_uint256_iff :
    (text : String) (n : ℕ)
    → (parse_uint256 text ≡ some n)
      ↔ ((is_decimal_uint text ≡ true) × (decimal_value 0 text ≡ n) × (n ≤ uint256_max))
unfolding parse_uint256
parse_uint256_iff text n = go (is_decimal_uint text) (decimal_value 0 text) uint256_max
  where
    go :
        (b : Bool) (m top : ℕ)
        → ((if b then if ltb top m then none else some m else none) ≡ some n)
          ↔ ((b ≡ true) × (m ≡ n) × (n ≤ top))
    go true m top = ground arith
    go false m top = ground arith

module _ (lib : Libraries) where
  -- The meta-transaction names the function, and its calldata decodes to a call of it whose first
  -- argument is the number of the key.
  pub record Calls (function : Option ActionFunction) (key : String) (m : BosonMetaTx)
      : Type 0 where
    pub expected : ActionFunction
    pub is_function : function ≡ some expected
    pub named : m.function_name ≡ expected.signature
    pub number : ℕ
    pub is_number : parse_uint256 key ≡ some number
    pub rest : List DecodedValue
    pub decoded :
        lib.decode_function_data m.function_signature
        ≡ returned (record { function_name = expected.name; args = bigint number ∷ rest })

  match_key-ok :
      (key : ℕ) (args : List DecodedValue)
      → match_key key args ≡ ok
      → (rest : List DecodedValue) × (args ≡ bigint key ∷ rest)
  match_key-ok key [] h = cc
  match_key-ok key (bigint n ∷ rest) h =
      let same : n ≡ key = ground (arith, nat_beq_iff n key) in (rest, λ i. bigint (same i) ∷ rest)
  match_key-ok key (hex s ∷ rest) h = cc
  match_key-ok key (hexes s ∷ rest) h = cc
  match_key-ok key (bigints s ∷ rest) h = cc
  match_key-ok key (other ∷ rest) h = cc

  match_key_self : (key : ℕ) (rest : List DecodedValue) → match_key key (bigint key ∷ rest) ≡ ok
  match_key_self key rest = ground (arith, nat_beq_iff key key)

  match_decoded-ok :
      (expected : ActionFunction) (key : ℕ) (o : Outcome DecodedCall)
      → match_decoded expected key o ≡ ok
      → (rest : List DecodedValue) × (o
          ≡ returned (record { function_name = expected.name; args = bigint key ∷ rest }))
  match_decoded-ok expected key (thrown e) h = cc
  match_decoded-ok expected key (returned call) h =
      let (name, matched) =
        (both_iff (reject_if (call.function_name != expected.name) invalid_payload)
            (match_key key call.args)
            (equal_texts_iff call.function_name expected.name invalid_payload)
            ((λ x. x), (λ x. x))).0
          h in
      let (rest, same) = match_key-ok key call.args matched in
      (rest, λ i. returned (record { function_name = name i; args = same i }))

  match_parsed-ok :
      (expected : ActionFunction) (m : BosonMetaTx) (o : Option ℕ)
      → match_parsed lib expected m o ≡ ok
      → (n : ℕ) × (rest : List DecodedValue) × (o ≡ some n)
        × (lib.decode_function_data m.function_signature
            ≡ returned (record { function_name = expected.name; args = bigint n ∷ rest }))
  match_parsed-ok expected m none h = cc
  match_parsed-ok expected m (some n) h =
      let (rest, p) = match_decoded-ok expected n _ h in (n, rest, refl, p)

  match_function-ok :
      (function : Option ActionFunction) (key : String) (m : BosonMetaTx)
      → match_function lib function key m ≡ ok
      → Calls function key m
  match_function-ok none key m h = cc
  match_function-ok (some expected) key m h =
      let (named, matched) =
        (both_iff (reject_if (m.function_name != expected.signature) invalid_payload)
            (match_parsed lib expected m (parse_uint256 key))
            (equal_texts_iff m.function_name expected.signature invalid_payload)
            ((λ x. x), (λ x. x))).0
          h in
      let (n, rest, p, q) = match_parsed-ok expected m _ matched in
      record {
        expected = expected;
        is_function = refl;
        named = named;
        number = n;
        is_number = p;
        rest = rest;
        decoded = q;
      }

  match_function-of_Calls :
      (function : Option ActionFunction) (key : String) (m : BosonMetaTx)
      → Calls function key m
      → match_function lib function key m ≡ ok
  match_function-of_Calls function key m c = rw c.is_function (
      (both_iff (reject_if (m.function_name != c.expected.signature) invalid_payload)
          (match_parsed lib c.expected m (parse_uint256 key))
          (equal_texts_iff m.function_name c.expected.signature invalid_payload)
          ((λ x. x), (λ x. x))).1
        (
          c.named,
          rw c.is_number (
              rw c.decoded (
                (both_iff (reject_if (c.expected.name != c.expected.name) invalid_payload)
                    (match_key c.number (bigint c.number ∷ c.rest))
                    (equal_texts_iff c.expected.name c.expected.name invalid_payload)
                    ((λ x. x), (λ x. x))).1
                  (refl, match_key_self c.number c.rest))),
        ))

  -- The check on an action on an exchange passes exactly when the action is a post-commit one on
  -- exchanges, the meta-transaction names its function, the key is the numeral of a 256-bit number,
  -- and the calldata decodes to a call of that function with that number first.
  pub validate_perform_exchange_iff :
      (action : ActionId) (key : String) (m : BosonMetaTx)
      → (validate_perform_exchange_action_meta_tx lib action key m ≡ ok)
        ↔ Calls (post_commit_exchange_function action) key m
  unfolding validate_perform_exchange_action_meta_tx
  validate_perform_exchange_iff action key m = (
    match_function-ok (post_commit_exchange_function action) key m,
    match_function-of_Calls (post_commit_exchange_function action) key m,
  )

  pub validate_perform_entity_iff :
      (action : ActionId) (key : String) (m : BosonMetaTx)
      → (validate_perform_entity_action_meta_tx lib action key m ≡ ok)
        ↔ Calls (entity_action_function action) key m
  unfolding validate_perform_entity_action_meta_tx
  validate_perform_entity_iff action key m = (
    match_function-ok (entity_action_function action) key m,
    match_function-of_Calls (entity_action_function action) key m,
  )
