-- ===== src/Prelude/Lists.antt =====
-- The array methods that the program uses, and predicates over lists.
use Prim.Native.Nat.{ℕ, suc, ◌+◌}
use mathlib.Core.Path.{◌≡◌, refl, sym}
use mathlib.Core.Logic.{inl, inr}
use mathlib.Core.Bool.{Bool, true, false, ◌&&◌, ◌||◌}
use mathlib.Core.Option.{Option, none, some}
use mathlib.Core.List.{List, [], ◌∷◌, ◌++◌, Memᴰ}
use native.Mathlib.Omega.{arith}
use x402b.Prelude.Tests.{if◌then◌else◌, Bool-cases}
use x402b.Prelude.Equality.{Eq, ◌==◌}

module _ {ℓ} {A : Type ℓ} where
  abbrev pub length : List A → ℕ
  length [] = 0
  length (x ∷ xs) = suc (length xs)

  -- `xs.find(p)`
  abbrev pub find? : (A → Bool) → List A → Option A
  find? p [] = none
  find? p (x ∷ xs) = if p x then some x else find? p xs

  abbrev pub all : (A → Bool) → List A → Bool
  all p [] = true
  all p (x ∷ xs) = p x && all p xs

  abbrev pub All {κ} : (A → Type κ) → List A → Type κ
  All P [] = Unit
  All P (x ∷ xs) = P x × All P xs

  pub length-append : (xs ys : List A) → length (xs ++ ys) ≡ length xs + length ys
  length-append [] ys = omega arith
  length-append (x ∷ xs) ys = omega (arith, length-append xs ys)

  pub All-of_mem {κ} : (P : A → Type κ) (xs : List A) → ((x : A) → Memᴰ x xs → P x) → All P xs
  All-of_mem P [] h = tt
  All-of_mem P (x ∷ xs) h = (h x (Memᴰ.head refl), All-of_mem P xs (λ y m. h y (Memᴰ.tail m)))

  pub All-append {κ} : (P : A → Type κ) (xs ys : List A) → All P xs → All P ys → All P (xs ++ ys)
  All-append P [] ys h k = k
  All-append P (x ∷ xs) ys h k = (h.0, All-append P xs ys h.1 k)

  pub find?-sound :
      (p : A → Bool) (xs : List A) (a : A) → find? p xs ≡ some a → (p a ≡ true) × Memᴰ a xs
  find?-sound p [] a h = cc
  find?-sound p (x ∷ xs) a h = elim (Bool-cases (p x)) [
    | inl e ↦ let same : x ≡ a = ground arith in ((rw (← same) e), Memᴰ.head (sym same))
    | inr e ↦ let (q, m) = find?-sound p xs a (ground arith) in (q, Memᴰ.tail m)
  ]

module _ {ℓ} {A : Type ℓ} ⦃e : Eq A⦄ where
  -- `xs.includes(a)`
  abbrev pub includes : List A → A → Bool
  includes [] a = false
  includes (x ∷ xs) a = x == a || includes xs a

  pub includes_iff_left : (xs : List A) (a : A) → includes xs a ≡ true → Memᴰ a xs
  includes_iff_left [] a h = cc
  includes_iff_left (x ∷ xs) a h = elim (Bool-cases (x == a)) [
    | inl p ↦ Memᴰ.head (sym ((e.beq_iff x a).0 p))
    | inr p ↦ Memᴰ.tail (includes_iff_left xs a (ground arith))
  ]

  pub includes_of_mem : (xs : List A) (a : A) → Memᴰ a xs → includes xs a ≡ true
  includes_of_mem [] a m = elim m [ ]
  includes_of_mem (x ∷ xs) a (Memᴰ.head p) = ground (arith, e.beq_iff x a)
  includes_of_mem (x ∷ xs) a (Memᴰ.tail m) = ground (arith, includes_of_mem xs a m)

  pub includes-append :
      (xs ys : List A) (a : A) → includes (xs ++ ys) a ≡ (includes xs a || includes ys a)
  includes-append [] ys a = refl
  includes-append (x ∷ xs) ys a = ground (arith, includes-append xs ys a)

  -- No element occurs twice.
  abbrev pub IsUnique : List A → Type 0
  IsUnique [] = Unit
  IsUnique (x ∷ xs) = (includes xs x ≡ false) × IsUnique xs
