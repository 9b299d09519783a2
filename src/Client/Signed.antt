-- ===== src/Client/Signed.antt =====
-- What withdraw.ts and post-commit.ts share: the numbers that a caller may pass, and the
-- meta-transaction that core-sdk's signature makes. The text of a number is a parameter.
use Prim.Native.String.{◌++◌ as append}
use x402b.Prelude.{ℕ, String, Bool, true, false}
use x402b.Wire.{BosonMetaTx}
use x402b.Client.{SignedMetaTx}

-- A text, a bigint, or a number, which may be no integer.
pub data BigNumberish : Type 0 where
  text : String → BigNumberish
  bigint : (below_zero : Bool) → (size : ℕ) → BigNumberish
  number : (is_integer below_zero : Bool) → (size : ℕ) → BigNumberish

module _ (to_text : ℕ → String) where
  -- `String(a)`
  abbrev pub string_of : BigNumberish → String
  string_of (text value) = value
  string_of (bigint false size) = to_text size
  string_of (bigint true size) = append "-" (to_text size)
  string_of (number b false size) = to_text size
  string_of (number b true size) = append "-" (to_text size)

  abbrev pub meta_tx_of : String → ℕ → SignedMetaTx → BosonMetaTx
  meta_tx_of from nonce signed = record {
    from = from;
    nonce = to_text nonce;
    function_name = signed.function_name;
    function_signature = signed.function_signature;
    sig = record { v = signed.v; r = signed.r; s = signed.s };
  }
