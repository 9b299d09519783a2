-- ===== src/Server/Payload/Reflexive.antt =====
-- An offer that has distinct keys is deeply equal to itself.
use x402b.Prelude.{
  ℕ, String, Option, none, some, true, false, ◌≡◌, refl, ap, sym, ◌∙◌, ◌==◌, string_eq, nat_eq,
  eq_iff, Bool-cases, inl, inr,
}
use x402b.Json.{
  Json, Items, Fields, null, bool, num, str, arr, obj, nil, cons, end, field, get_field,
}
use x402b.Server.Payload.Offer.{json_equal, items_equal, fields_within, deep_equal}

-- The objects of a value have distinct keys, as JavaScript's have.
unfoldable mutual
  pub WellKeyed : Json → Type 0
  WellKeyed (arr xs) = WellKeyedItems xs
  WellKeyed (obj f) = DistinctKeys f
  WellKeyed _ = Unit

  pub WellKeyedItems : Items → Type 0
  WellKeyedItems nil = Unit
  WellKeyedItems (cons x xs) = WellKeyed x × WellKeyedItems xs

  pub DistinctKeys : Fields → Type 0
  DistinctKeys end = Unit
  DistinctKeys (field k v f) = (get_field f k ≡ none) × WellKeyed v × DistinctKeys f

abbrev Within : Fields → Fields → Type 0
Within f g = (k : String) (v : Json) → get_field f k ≡ some v → get_field g k ≡ some v

first_field :
    (k : String) (v : Json) (f g : Fields) → Within (field k v f) g → get_field g k ≡ some v
first_field k v f g h = h k v (rw ((eq_iff k k).1 refl) refl)

rest_fields :
    (k : String) (v : Json) (f g : Fields)
    → get_field f k ≡ none
    → Within (field k v f) g
    → Within f g
rest_fields k v f g fresh h j w p = elim (Bool-cases (k == j)) [
  | inl e ↦ absurd (clash (sym fresh ∙ ap (get_field f) ((eq_iff k j).0 e) ∙ p))
  | inr e ↦ h j w (rw e p)
]
  where
    clash : ◌≡◌ {A = Option Json} none (some w) → ⊥
    clash q = cc

same_number : (n : ℕ) → ◌==◌ {A = ℕ} n n ≡ true
same_number n = (nat_eq.beq_iff n n).1 refl

mutual
  unfolding json_equal items_equal fields_within WellKeyed WellKeyedItems DistinctKeys

  json_equal_self : (v : Json) → WellKeyed v → json_equal v v ≡ true
  json_equal_self null h = refl
  json_equal_self (bool true) h = refl
  json_equal_self (bool false) h = refl
  json_equal_self (num n) h = same_number n
  json_equal_self (str s) h = (eq_iff s s).1 refl
  json_equal_self (arr xs) h = rw (same_number _, items_equal_self xs h) refl
  json_equal_self (obj f) h = rw (same_number _, fields_within_of f f h (λ k v p. p)) refl

  items_equal_self : (xs : Items) → WellKeyedItems xs → items_equal xs xs ≡ true
  items_equal_self nil h = refl
  items_equal_self (cons x xs) (h, t) = rw (json_equal_self x h, items_equal_self xs t) refl

  fields_within_of : (f g : Fields) → DistinctKeys f → Within f g → fields_within f g ≡ true
  fields_within_of end g d h = refl
  fields_within_of (field k v f) g (fresh, good, d) h =
      rw
        (
          first_field k v f g h,
          json_equal_self v good,
          fields_within_of f g d (rest_fields k v f g fresh h),
        )
        refl

pub deep_equal_self : (f : Fields) → DistinctKeys f → deep_equal f f ≡ true
unfolding deep_equal
deep_equal_self f d = rw (same_number _, fields_within_of f f d (λ k v p. p)) refl
