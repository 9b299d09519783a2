-- ===== src/Prelude/Text.antt =====
-- `toLowerCase()`, on the letters A to Z: the program lowers hexadecimal text. The lowered text is
-- given by its code points.
use Prim.Native.Nat.{ℕ, ◌+◌}
use Prim.Native.Char.{code}
use Prim.Native.String.{String}
use mathlib.Core.Path.{◌≡◌}
use mathlib.Core.Logic.{◌↔◌}
use mathlib.Core.Bool.{Bool, true, ◌&&◌}
use mathlib.Core.List.{List, [], ◌∷◌}
use x402b.Prelude.Tests.{leb, if◌then◌else◌}
use x402b.Prelude.Equality.{◌==◌, nat_eq, list_eq}

abbrev lower_code : ℕ → ℕ
lower_code c = if leb b'A' c && leb c b'Z' then c + 32 else c

unfoldable pub to_lower_case : String → List ℕ
to_lower_case String.[] = []
to_lower_case (String.◌∷◌ c s) = lower_code (code c) ∷ to_lower_case s

-- `a.toLowerCase() === b.toLowerCase()`
unfoldable pub same_text : String → String → Bool
unfolding to_lower_case
same_text a b = to_lower_case a == to_lower_case b

-- Two texts that differ in letter case alone.
abbrev pub SameText : String → String → Type 0
SameText a b = to_lower_case a ≡ to_lower_case b

pub same_text_iff : (a b : String) → (same_text a b ≡ true) ↔ SameText a b
unfolding same_text
same_text_iff a b = list_eq.beq_iff (to_lower_case a) (to_lower_case b)
