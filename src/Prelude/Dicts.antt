-- ===== src/Prelude/Dicts.antt =====
-- Objects and `Map`s keyed by strings, as association lists in insertion order.
use Prim.Native.String.{String}
use mathlib.Core.Path.{◌≡◌, refl}
use mathlib.Core.Bool.{Bool}
use mathlib.Core.Option.{Option, none, some}
use mathlib.Core.List.{List, [], ◌∷◌}
use native.Mathlib.Omega.{arith}
use text.Mathlib.TextEquality.{eq_iff}
use x402b.Prelude.Tests.{if◌then◌else◌, is_some}
use x402b.Prelude.Equality.{◌==◌, string_eq}

abbrev pub Dict {ℓ} : Type ℓ → Type ℓ
Dict V = List (String × V)

module _ {ℓ} {V : Type ℓ} where
  -- `m.get(k)`, `o[k]`
  abbrev pub get : Dict V → String → Option V
  get [] k = none
  get ((j, v) ∷ m) k = if j == k then some v else get m k

  -- `m.has(k)`
  abbrev pub has : Dict V → String → Bool
  has m k = is_some (get m k)

  -- `m.set(k, v)`: a key that is there keeps its place.
  unfoldable pub put : Dict V → String → V → Dict V
  put [] k v = (k, v) ∷ []
  put ((j, w) ∷ m) k v = if j == k then (j, v) ∷ m else (j, w) ∷ put m k v

  -- `m.delete(k)`
  unfoldable pub remove : Dict V → String → Dict V
  remove [] k = []
  remove ((j, w) ∷ m) k = if j == k then remove m k else (j, w) ∷ remove m k

  abbrev pub keys : Dict V → List String
  keys [] = []
  keys ((k, v) ∷ m) = k ∷ keys m

  abbrev pub values : Dict V → List V
  values [] = []
  values ((k, v) ∷ m) = v ∷ values m

  pub get-put :
      (m : Dict V) (k j : String) (v : V) → get (put m k v) j ≡ (if k == j then some v else get m j)
  unfolding put
  get-put [] k j v = refl
  get-put ((i, w) ∷ m) k j v = ground (arith, eq_iff k j, eq_iff i k, eq_iff i j, get-put m k j v)

  pub get-remove :
      (m : Dict V) (k j : String) → get (remove m k) j ≡ (if k == j then none else get m j)
  unfolding remove
  get-remove [] k j = ground arith
  get-remove ((i, w) ∷ m) k j = ground (arith, eq_iff k j, eq_iff i k, eq_iff i j, get-remove m k j)

  pub get-put_self : (m : Dict V) (k : String) (v : V) → get (put m k v) k ≡ some v
  get-put_self m k v = ground (arith, get-put m k k v, eq_iff k k)

  pub get-remove_self : (m : Dict V) (k : String) → get (remove m k) k ≡ none
  get-remove_self m k = ground (arith, get-remove m k k, eq_iff k k)
