-- ===== src/Facilitator/Hex/Tests.antt =====
-- Runs of the packing, and the theorems there.
use x402b.Facilitator.Hex.Packing.{unpack_signature-pack_rsv}
use x402b.Wire.Patterns.{is_hex32}
use x402b.Prelude.{arith, some, true, String, ◌≡◌, refl}
use x402b.Facilitator.Hex.{unpack_signature, to_string_16, parse_int_16, pack_rsv}

digits : (to_string_16 27 ≡ "1b") × (to_string_16 0 ≡ "0") × (to_string_16 0xbeef ≡ "beef")
unfolding to_string_16
digits = (refl, refl, refl)

values : (parse_int_16 "1B" ≡ some 27) × (pack_rsv "0x12" "0x34" 28 ≡ "0x12341c")
unfolding parse_int_16 pack_rsv
values = (refl, refl)

abbrev word : String
word = "0x0100000000000000000000000000000000000000000000000000000000000000"

is_word : is_hex32 word ≡ true
unfolding is_hex32
is_word = refl

unpack_signature-pack_rsv_example :
    unpack_signature (pack_rsv word word 28) ≡ some (record { r = word; s = word; v = some 28 })
unpack_signature-pack_rsv_example =
    unpack_signature-pack_rsv word word 28 is_word is_word (omega arith)
