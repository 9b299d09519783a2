-- ===== src/Wire/Patterns.antt =====
-- core/src/schemes/escrow/validators.ts: the patterns of the scalar fields.
use Prim.Native.Char.{code}
use x402b.Prelude.{
  ℕ, suc, String, Bool, true, false, ◌&&◌, ◌||◌, ◌==◌, nat_eq, string_eq, leb, ltb, if◌then◌else◌,
  Option, none, some,
}

abbrev pub is_between : ℕ → ℕ → ℕ → Bool
is_between low high c = leb low c && leb c high

abbrev pub every : (ℕ → Bool) → String → Bool
every p String.[] = true
every p (String.◌∷◌ c s) = p (code c) && every p s

abbrev pub count_chars : String → ℕ
count_chars String.[] = 0
count_chars (String.◌∷◌ c s) = suc (count_chars s)

abbrev pub is_digit : ℕ → Bool
is_digit c = is_between b'0' b'9' c

abbrev pub is_hex_digit : ℕ → Bool
is_hex_digit c = is_between b'a' b'f' c || is_between b'A' b'F' c || is_digit c

-- The text after a prefix, where it has that prefix.
abbrev pub after_prefix : String → String → Option String
after_prefix String.[] s = some s
after_prefix (String.◌∷◌ c p) String.[] = none
after_prefix (String.◌∷◌ c p) (String.◌∷◌ d s) =
    let rest = after_prefix p s in if code c == code d then rest else none

abbrev pub holds_of : Option String → (String → Bool) → Bool
holds_of none p = false
holds_of (some s) p = p s

-- `HEX_BYTES`
unfoldable pub is_hex_bytes : String → Bool
is_hex_bytes s = holds_of (after_prefix "0x" s) (λ t. every is_hex_digit t)

-- `HEX`
unfoldable pub is_hex : String → Bool
is_hex s = holds_of (after_prefix "0x" s) (λ t. every is_hex_digit t && ltb 0 (count_chars t))

-- `HEX32`
unfoldable pub is_hex32 : String → Bool
is_hex32 s = holds_of (after_prefix "0x" s) (λ t. every is_hex_digit t && (count_chars t == 64))

-- `ADDRESS`
unfoldable pub is_address : String → Bool
is_address s = holds_of (after_prefix "0x" s) (λ t. every is_hex_digit t && (count_chars t == 40))

-- A digit that is not 0, then digits.
abbrev pub is_positive : String → Bool
is_positive String.[] = false
is_positive (String.◌∷◌ c s) = is_between b'1' b'9' (code c) && every is_digit s

-- `DECIMAL_UINT`
unfoldable pub is_decimal_uint : String → Bool
is_decimal_uint s = s == "0" || is_positive s

-- `EVM_NETWORK`
unfoldable pub is_evm_network : String → Bool
is_evm_network s = holds_of (after_prefix "eip155:" s) is_positive
