-- ===== src/Facilitator/Hex/Encoding.antt =====
-- The server's encoding of a signature and the facilitator's.
use Prim.Native.String.{◌++◌ as append}
use mathlib.Core.Path.{subst}
use x402b.Prelude.{
  suc, ◌-◌, arith, none, ℕ, String, Option, some, true, ◌≡◌, refl, ap, sym, ◌∙◌, ◌⊎◌, inl, inr,
}
use x402b.Wire.{Sig}
use x402b.Wire.Patterns.{is_hex32, count_chars}
use x402b.Server.Payload.{encode_rsv, pad_start, strip_0x, recovery_byte, string_length, zeros}
use x402b.Facilitator.Hex.{drop, pack_rsv, to_string_16}
use x402b.Facilitator.Hex.Packing.{is_hex32-IsWord, prefix_0x, drop_0x}

string_length_lem : (s : String) → string_length s ≡ count_chars s
string_length_lem String.[] = refl
string_length_lem (String.◌∷◌ c s) = ap suc (string_length_lem s)

strip-append : (t : String) → strip_0x (append "0x" t) ≡ t
unfolding strip_0x
strip-append t = ap strip_0x (prefix_0x t)

pad_start-full : (s : String) → count_chars s ≡ 64 → pad_start 64 s ≡ s
unfolding pad_start
pad_start-full s h =
    let same = string_length_lem s in
    let none_left : 64 - string_length s ≡ 0 = omega arith in ap (λ n. zeros n s) none_left

stripped : (s : String) → is_hex32 s ≡ true → pad_start 64 (strip_0x s) ≡ drop 2 s
stripped s h =
    let w = is_hex32-IsWord s h in
    let bare : strip_0x s ≡ w.digits = ap strip_0x w.is_word ∙ strip-append w.digits in
    ap (pad_start 64) bare
    ∙ pad_start-full w.digits w.width
    ∙ sym (ap (drop 2) w.is_word ∙ drop_0x w.digits)

bytes :
    (recovery_byte 27 ≡ some (pad_start 2 (to_string_16 27)))
    × (recovery_byte 28 ≡ some (pad_start 2 (to_string_16 28)))
unfolding recovery_byte pad_start to_string_16
bytes = (refl, refl)

byte_of : (v : ℕ) → (v ≡ 27) ⊎ (v ≡ 28) → recovery_byte v ≡ some (pad_start 2 (to_string_16 v))
byte_of v (inl h) =
    subst (λ n. recovery_byte n ≡ some (pad_start 2 (to_string_16 n))) (sym h) bytes.0
byte_of v (inr h) =
    subst (λ n. recovery_byte n ≡ some (pad_start 2 (to_string_16 n))) (sym h) bytes.1

abbrev with_byte : String → String → Option String → Option String
with_byte r s o = elim o [ none ↦ none | some v ↦ some (append "0x" (append r (append s v))) ]

-- On a signature of two 32-byte words with the legacy `v`, the server's encoding for the recovery is
-- the facilitator's packing.
encode_rsv-pack_rsv :
    (sig : Sig)
    → is_hex32 sig.r ≡ true
    → is_hex32 sig.s ≡ true
    → (sig.v ≡ 27) ⊎ (sig.v ≡ 28)
    → encode_rsv sig ≡ some (pack_rsv sig.r sig.s sig.v)
unfolding encode_rsv pack_rsv
encode_rsv-pack_rsv sig hr hs hv =
    ap (with_byte (pad_start 64 (strip_0x sig.r)) (pad_start 64 (strip_0x sig.s)))
      (byte_of sig.v hv)
    ∙ (λ i. some (
        append "0x" (
          append (stripped sig.r hr i)
            (append (stripped sig.s hs i) (pad_start 2 (to_string_16 sig.v))))))
