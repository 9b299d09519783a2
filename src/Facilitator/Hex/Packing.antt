-- ===== src/Facilitator/Hex/Packing.antt =====
-- Unpacking a packed signature.
use Prim.Native.Char.{Char, code}
use Prim.Native.String.{◌++◌ as append}
use Prim.Native.String.append.{nil as nil_clause, cons as cons_clause}
use mathlib.Core.Path.{subst}
use text.Mathlib.TextEquality.{Char-path}
use x402b.Prelude.{
  ℕ, zero, suc, ◌+◌, ◌<◌, String, Option, none, some, Bool, true, false, ◌&&◌, ◌==◌, nat_eq, ◌≡◌,
  refl, ap, sym, ◌∙◌, arith, if◌then◌else◌, Bool-cases, inl, inr, ◌⊎◌, ◌≢◌, nat_beq, nat_beq_iff,
}
use x402b.Wire.Patterns.{is_hex32, count_chars, after_prefix, holds_of, every, is_hex_digit}
use x402b.Server.Payload.{pad_start}
use x402b.Facilitator.Hex.{
  drop, take, to_string_16, pack_rsv, parse_int_16, unpack_signature, unpack_hex, without_0x,
  Unpacked,
}

abbrev byte : ℕ → String
byte v = pad_start 2 (to_string_16 v)

abbrev is_value : ℕ → Option ℕ → Bool
is_value v none = false
is_value v (some n) = n == v

abbrev test : ℕ → Bool
test v = is_value v (parse_int_16 (take 2 (byte v))) && (count_chars (byte v) == 2)

abbrev all_below : ℕ → Bool
all_below zero = true
all_below (suc n) = test n && all_below n

all_bytes : all_below 256 ≡ true
unfolding parse_int_16 to_string_16 pad_start
all_bytes = refl

both_true : (a b : Bool) → a && b ≡ true → (a ≡ true) × (b ≡ true)
both_true true b h = (refl, h)
both_true false b h = cc

is_value-some : (v : ℕ) (o : Option ℕ) → is_value v o ≡ true → o ≡ some v
is_value-some v none h = cc
is_value-some v (some n) h = ap some ((nat_beq_iff n v).0 h)

nat_cases : (v n : ℕ) → (v ≡ n) ⊎ (v ≢ n)
nat_cases v n = elim (Bool-cases (nat_beq v n)) [
  | inl e ↦ inl ((nat_beq_iff v n).0 e)
  | inr e ↦ inr (λ same. ground (arith, nat_beq_iff v n))
]

all_below-test : (n v : ℕ) → v < n → all_below n ≡ true → test v ≡ true
all_below-test zero v h k = ground arith
all_below-test (suc n) v h k = elim (nat_cases v n) [
  | inl e ↦ subst (λ x. test x ≡ true) (sym e) (both_true (test n) (all_below n) k).0
  | inr e ↦ all_below-test n v (omega arith) (both_true (test n) (all_below n) k).1
]

-- The two digits of a byte give its value again.
record IsByte (v : ℕ) : Type 0 where
  value : parse_int_16 (take 2 (byte v)) ≡ some v
  width : count_chars (byte v) ≡ 2

byte_lem : (v : ℕ) → v < 256 → IsByte v
byte_lem v h =
    let (a, b) = both_true _ (count_chars (byte v) == 2) (all_below-test 256 v h all_bytes) in
    record { value = is_value-some v _ a; width = (nat_beq_iff _ 2).0 b }

nil-append : (t : String) → append "" t ≡ t
nil-append t = λ i. nil_clause t i

cons-append : (c : Char) (s t : String) → append (String.◌∷◌ c s) t ≡ String.◌∷◌ c (append s t)
cons-append c s t = λ i. cons_clause c s t i

count_chars-append : (s t : String) → count_chars (append s t) ≡ count_chars s + count_chars t
count_chars-append String.[] t = ap count_chars (nil-append t) ∙ (omega arith)
count_chars-append (String.◌∷◌ c s) t =
    let h = count_chars-append s t in ap count_chars (cons-append c s t) ∙ (omega arith)

take-append : (s t : String) (n : ℕ) → count_chars s ≡ n → take n (append s t) ≡ s
take-append String.[] t zero h = refl
take-append String.[] t (suc n) h = ground arith
take-append (String.◌∷◌ c s) t zero h = ground arith
take-append (String.◌∷◌ c s) t (suc n) h =
    ap (take (suc n)) (cons-append c s t)
    ∙ ap (λ x. String.◌∷◌ c x) (take-append s t n (omega arith))

drop-append : (s t : String) (n : ℕ) → count_chars s ≡ n → drop n (append s t) ≡ t
drop-append String.[] t zero h = nil-append t
drop-append String.[] t (suc n) h = ground arith
drop-append (String.◌∷◌ c s) t zero h = ground arith
drop-append (String.◌∷◌ c s) t (suc n) h =
    ap (drop (suc n)) (cons-append c s t) ∙ drop-append s t n (omega arith)

after_prefix-append : (p s t : String) → after_prefix p s ≡ some t → s ≡ append p t
after_prefix-append String.[] s t h = let same : s ≡ t = cc in same ∙ sym (nil-append t)
after_prefix-append (String.◌∷◌ c p) String.[] t h = cc
after_prefix-append (String.◌∷◌ c p) (String.◌∷◌ d s) t h = elim (Bool-cases (code c == code d)) [
  | inl e ↦
      let rest : s ≡ append p t = after_prefix-append p s t (rw e at h) in
      let same : d ≡ c = sym (Char-path c d ((nat_beq_iff (code c) (code d)).0 e)) in
      (λ i. String.◌∷◌ (same i) (rest i)) ∙ sym (cons-append c p t)
  | inr e ↦ let no : ◌≡◌ {A = Option String} none (some t) = rw e at h in cc
]

pub prefix_0x : (t : String) → append "0x" t ≡ String.◌∷◌ "0" (String.◌∷◌ "x" t)
prefix_0x t =
    cons-append "0" "x" t
    ∙ ap (λ x. String.◌∷◌ "0" x) (cons-append "x" "" t ∙ ap (λ x. String.◌∷◌ "x" x) (nil-append t))

after_0x : (t : String) → after_prefix "0x" (append "0x" t) ≡ some t
after_0x t = ap (after_prefix "0x") (prefix_0x t)

pub drop_0x : (t : String) → drop 2 (append "0x" t) ≡ t
drop_0x t = ap (drop 2) (prefix_0x t)

suc_add : (m n : ℕ) → suc m + n ≡ suc (m + n)
suc_add m n = omega arith

drop-empty : (n : ℕ) → drop n "" ≡ ""
drop-empty zero = refl
drop-empty (suc n) = refl

drop_more : (m n : ℕ) (s : String) → drop (m + n) s ≡ drop n (drop m s)
drop_more zero n s = ap (λ k. drop k s) (omega arith)
drop_more (suc m) n String.[] = ap (λ k. drop k "") (suc_add m n) ∙ sym (drop-empty n)
drop_more (suc m) n (String.◌∷◌ c s) =
    ap (λ k. drop k (String.◌∷◌ c s)) (suc_add m n) ∙ drop_more m n s

-- A word is its prefix and 64 digits.
pub record IsWord (s : String) : Type 0 where
  pub digits : String
  pub is_word : s ≡ append "0x" digits
  pub width : count_chars digits ≡ 64

pub is_hex32-IsWord : (s : String) → is_hex32 s ≡ true → IsWord s
unfolding is_hex32
is_hex32-IsWord s h = of_rest (after_prefix "0x" s) refl h
  where
    of_rest :
        (o : Option String)
        → after_prefix "0x" s ≡ o
        → holds_of o (λ t. every is_hex_digit t && (count_chars t == 64)) ≡ true
        → IsWord s
    of_rest none p h = cc
    of_rest (some t) p h = record {
      digits = t;
      is_word = after_prefix-append "0x" s t p;
      width = (nat_beq_iff _ 64).0 (both_true (every is_hex_digit t) _ h).1;
    }

if_equal : (m n : ℕ) → m ≡ n → (u : Unpacked) → (if m == n then some u else none) ≡ some u
if_equal m n h u = of_test (nat_beq m n) ((nat_beq_iff m n).1 h)
  where
    of_test : (b : Bool) → b ≡ true → (if b then some u else none) ≡ some u
    of_test true k = refl
    of_test false k = cc

unpack_0x : (t : String) → unpack_signature (append "0x" t) ≡ unpack_hex t
unfolding unpack_signature
unpack_0x t = ap (λ o. unpack_hex (without_0x o (append "0x" t))) (after_0x t)

unpack_digits :
    (t u p : String) (v : ℕ)
    → count_chars t ≡ 64
    → count_chars u ≡ 64
    → count_chars p ≡ 2
    → parse_int_16 (take 2 p) ≡ some v
    → unpack_hex (append t (append u p))
      ≡ some (record { r = append "0x" t; s = append "0x" u; v = some v })
unpack_digits t u p v ht hu hp hv =
    let width : count_chars (append t (append u p)) ≡ 130 =
      count_chars-append t (append u p) ∙ (let h = count_chars-append u p in omega arith) in
    let after_r : drop 64 (append t (append u p)) ≡ append u p = drop-append t (append u p) 64 ht in
    let after_s : drop 128 (append t (append u p)) ≡ p =
      drop_more 64 64 (append t (append u p)) ∙ ap (drop 64) after_r ∙ drop-append u p 64 hu in
    if_equal (count_chars (append t (append u p))) 130 width _ ∙ (λ i. some (record {
      r = append "0x" (take-append t (append u p) 64 ht i);
      s = append "0x" ((ap (take 64) after_r ∙ take-append u p 64 hu) i);
      v = (ap (λ x. parse_int_16 (take 2 x)) after_s ∙ hv) i;
    }))

-- Unpacking a signature that was packed from two 32-byte words and a byte gives them back.
pub unpack_signature-pack_rsv :
    (r s : String) (v : ℕ)
    → is_hex32 r ≡ true
    → is_hex32 s ≡ true
    → v < 256
    → unpack_signature (pack_rsv r s v) ≡ some (record { r = r; s = s; v = some v })
unfolding unpack_signature pack_rsv
unpack_signature-pack_rsv r s v hr hs hv =
    let a = is_hex32-IsWord r hr in
    let b = is_hex32-IsWord s hs in
    let w = byte_lem v hv in
    let dr : drop 2 r ≡ a.digits = ap (drop 2) a.is_word ∙ drop_0x a.digits in
    let ds : drop 2 s ≡ b.digits = ap (drop 2) b.is_word ∙ drop_0x b.digits in
    let packed : pack_rsv r s v ≡ append "0x" (append a.digits (append b.digits (byte v))) =
      λ i. append "0x" (append (dr i) (append (ds i) (byte v))) in
    ap unpack_signature packed
    ∙ unpack_0x (append a.digits (append b.digits (byte v)))
    ∙ unpack_digits a.digits b.digits (byte v) v a.width b.width w.width w.value
    ∙ (λ i. some (record { r = sym a.is_word i; s = sym b.is_word i; v = some v }))
