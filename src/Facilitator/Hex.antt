-- ===== src/Facilitator/Hex.antt =====
-- Signatures as hexadecimal text: packRsv of verify/meta-tx-signature.ts, and packSignature and
-- unpackSignature of internal/token-auth-lift.ts.
mod Tests
pub mod Packing
pub mod Encoding
use Prim.Native.Nat.{◌/◌, ◌%◌}
use Prim.Native.Char.{code}
use Prim.Native.String.{◌++◌ as append}
use x402b.Prelude.{
  ℕ, zero, suc, ◌+◌, ◌-◌, ◌*◌, String, Option, none, some, Bool, true, false, ◌==◌, nat_eq, ltb,
  ◌&&◌, if◌then◌else◌,
}
use x402b.Wire.Patterns.{is_hex_digit, every, count_chars, after_prefix, is_between}
use x402b.Server.Payload.{pad_start}

-- `s.slice(n)`
abbrev pub drop : ℕ → String → String
drop zero s = s
drop (suc n) String.[] = ""
drop (suc n) (String.◌∷◌ c s) = drop n s

-- `s.slice(0, n)`
abbrev pub take : ℕ → String → String
take zero s = ""
take (suc n) String.[] = ""
take (suc n) (String.◌∷◌ c s) = String.◌∷◌ c (take n s)

abbrev hex_char : ℕ → String → String
hex_char d s = append (take 1 (drop d "0123456789abcdef")) s

-- The base-16 digits of a number, before those that are written; a number's own digits are fewer
-- than the number and 1.
hex_digits : ℕ → ℕ → String → String
hex_digits zero n s = s
hex_digits (suc fuel) n s =
    let longer = hex_char (n % 16) s in
    let rest = hex_digits fuel (n / 16) longer in if n / 16 == 0 then longer else rest

-- `n.toString(16)`
unfoldable pub to_string_16 : ℕ → String
unfolding hex_digits
to_string_16 n = hex_digits (suc n) n ""

-- The packing of `packRsv` and `packSignature`.
unfoldable pub pack_rsv : String → String → ℕ → String
unfolding to_string_16 pad_start
pack_rsv r s v = append "0x" (append (drop 2 r) (append (drop 2 s) (pad_start 2 (to_string_16 v))))

abbrev hex_value : ℕ → ℕ
hex_value c =
    if is_between b'a' b'f' c then c - 87 else if is_between b'A' b'F' c then c - 55 else c - b'0'

abbrev value_16 : ℕ → String → ℕ
value_16 n String.[] = n
value_16 n (String.◌∷◌ c s) = value_16 (16 * n + hex_value (code c)) s

-- `parseInt(s, 16)` of hexadecimal digits; elsewhere it is not a number here.
unfoldable pub parse_int_16 : String → Option ℕ
parse_int_16 s = if every is_hex_digit s && ltb 0 (count_chars s) then some (value_16 0 s) else none

pub record Unpacked : Type 0 where
  pub r : String
  pub s : String
  pub v : Option ℕ

abbrev pub without_0x : Option String → String → String
without_0x none sig = sig
without_0x (some hex) sig = hex

abbrev pub unpack_hex : String → Option Unpacked
unpack_hex hex =
    if count_chars hex == 130
    then some (record {
      r = append "0x" (take 64 hex);
      s = append "0x" (take 64 (drop 64 hex));
      v = parse_int_16 (take 2 (drop 128 hex));
    })
    else none

-- `unpackSignature`, which throws unless there are 65 bytes.
unfoldable pub unpack_signature : String → Option Unpacked
unfolding parse_int_16
unpack_signature sig = unpack_hex (without_0x (after_prefix "0x" sig) sig)
