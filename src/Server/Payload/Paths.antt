-- ===== src/Server/Payload/Paths.antt =====
-- Offers that are deeply equal say the same.
use mathlib.Core.Path.{subst}
use x402b.Prelude.{
  ℕ, zero, suc, String, Option, none, some, Bool, true, false, ◌&&◌, ◌≡◌, refl, ap, sym, ◌==◌,
  string_eq, nat_eq, eq_iff, List, [], ◌∷◌, Bool-cases, inl, inr,
}
use x402b.Json.{
  Json, Items, Fields, null, bool, num, str, arr, obj, nil, cons, end, field, get_field,
}
use x402b.Server.Payload.Offer.{json_equal, items_equal, fields_within, deep_equal}

pub data Step : Type 0 where
  key : String → Step
  index : ℕ → Step

abbrev get_item : Items → ℕ → Option Json
get_item nil n = none
get_item (cons x xs) zero = some x
get_item (cons x xs) (suc n) = get_item xs n

abbrev pub step_into : Step → Json → Option Json
step_into (key k) (obj f) = get_field f k
step_into (index n) (arr xs) = get_item xs n
step_into _ _ = none

-- The value at a path.
abbrev pub follow : List Step → Json → Option Json
follow [] v = some v
follow (step ∷ path) v = elim (step_into step v) [ none ↦ none | some w ↦ follow path w ]

abbrev EqualAt : Json → Option Json → Type 0
EqualAt v none = ⊥
EqualAt v (some w) = json_equal v w ≡ true

and_left : (a b : Bool) → (a && b) ≡ true → a ≡ true
and_left true b h = refl
and_left false b h = h

and_right : (a b : Bool) → (a && b) ≡ true → b ≡ true
and_right true b h = h
and_right false b h = cc

equal_at :
    (v : Json) (found : Option Json)
    → (elim found [ none ↦ false | some w ↦ json_equal v w ]) ≡ true
    → EqualAt v found
equal_at v none h = cc
equal_at v (some w) h = h

fields_within-get :
    (f g : Fields) (k : String) (v : Json)
    → fields_within f g ≡ true
    → get_field f k ≡ some v
    → EqualAt v (get_field g k)
unfolding fields_within
fields_within-get end g k v h p = cc
fields_within-get (field j u f) g k v h p = elim (Bool-cases (j == k)) [
  | inl e ↦
      let q : some u ≡ some v = rw e at p in
      let same : u ≡ v = cc in
      subst (λ x. EqualAt x (get_field g k)) same
        (subst (λ i. EqualAt u (get_field g i)) ((eq_iff j k).0 e)
          (equal_at u (get_field g j) (and_left _ _ h)))
  | inr e ↦ fields_within-get f g k v (and_right _ _ h) (rw e at p)
]

items_equal-get :
    (xs ys : Items) (n : ℕ) (v : Json)
    → items_equal xs ys ≡ true
    → get_item xs n ≡ some v
    → EqualAt v (get_item ys n)
unfolding items_equal
items_equal-get nil ys n v h p = cc
items_equal-get (cons x xs) nil n v h p = cc
items_equal-get (cons x xs) (cons y ys) zero v h p =
    let same : x ≡ v = cc in subst (λ z. json_equal z y ≡ true) same (and_left _ _ h)
items_equal-get (cons x xs) (cons y ys) (suc n) v h p =
    items_equal-get xs ys n v (and_right _ _ h) p

step_into-equal :
    (step : Step) (a b v : Json)
    → json_equal a b ≡ true
    → step_into step a ≡ some v
    → EqualAt v (step_into step b)
unfolding json_equal
step_into-equal (key k) (obj f) (obj g) v h p = fields_within-get f g k v (and_right _ _ h) p
step_into-equal (index n) (arr xs) (arr ys) v h p = items_equal-get xs ys n v (and_right _ _ h) p
step_into-equal (key k) (obj f) null v h p = cc
step_into-equal (key k) (obj f) (bool y) v h p = cc
step_into-equal (key k) (obj f) (num y) v h p = cc
step_into-equal (key k) (obj f) (str y) v h p = cc
step_into-equal (key k) (obj f) (arr ys) v h p = cc
step_into-equal (index n) (arr xs) null v h p = cc
step_into-equal (index n) (arr xs) (bool y) v h p = cc
step_into-equal (index n) (arr xs) (num y) v h p = cc
step_into-equal (index n) (arr xs) (str y) v h p = cc
step_into-equal (index n) (arr xs) (obj g) v h p = cc
step_into-equal (key k) null b v h p = cc
step_into-equal (index n) null b v h p = cc
step_into-equal (key k) (bool x) b v h p = cc
step_into-equal (index n) (bool x) b v h p = cc
step_into-equal (key k) (num x) b v h p = cc
step_into-equal (index n) (num x) b v h p = cc
step_into-equal (key k) (str x) b v h p = cc
step_into-equal (index n) (str x) b v h p = cc
step_into-equal (key k) (arr xs) b v h p = cc
step_into-equal (index n) (obj f) b v h p = cc

-- The rest of a path, from a step's value.
abbrev pub onward : List Step → Option Json → Option Json
onward path none = none
onward path (some v) = follow path v

follow-equal :
    (path : List Step) (a b v : Json)
    → json_equal a b ≡ true
    → follow path a ≡ some v
    → EqualAt v (follow path b)
follow-equal [] a b v h p = let same : a ≡ v = cc in subst (λ z. json_equal z b ≡ true) same h
follow-equal (step ∷ path) a b v h p =
    go (λ x y z q r. follow-equal path x y z q r) (step_into step a) refl p (step_into step b) refl
  where
    go :
        ((x y z : Json)
          → json_equal x y ≡ true
          → follow path x ≡ some z
          → EqualAt z (follow path y))
        → (found : Option Json) → step_into step a ≡ found
        → onward path found ≡ some v
        → (other : Option Json) → step_into step b ≡ other
        → EqualAt v (onward path other)
    go rest none q r other t = cc
    go rest (some w) q r none t = absurd (subst (EqualAt w) t (step_into-equal step a b w h q))
    go rest (some w) q r (some u) t =
        rest w u v (subst (EqualAt w) t (step_into-equal step a b w h q)) r

text_of_equal : (s : String) (found : Option Json) → EqualAt (str s) found → found ≡ some (str s)
unfolding json_equal
text_of_equal s (some (str t)) h = ap (λ z. some (str z)) (sym ((eq_iff s t).0 h))
text_of_equal s none h = absurd h
text_of_equal s (some null) h = cc
text_of_equal s (some (bool y)) h = cc
text_of_equal s (some (num y)) h = cc
text_of_equal s (some (arr ys)) h = cc
text_of_equal s (some (obj g)) h = cc

-- Two offers that the validator takes for the same have the same texts: whatever text the first has
-- at a path of keys and indices, the second has at that path too.
deep_equal-text :
    (f g : Fields) (path : List Step) (s : String)
    → deep_equal f g ≡ true
    → follow path (obj f) ≡ some (str s)
    → follow path (obj g) ≡ some (str s)
unfolding deep_equal json_equal
deep_equal-text f g path s h p = text_of_equal s _ (follow-equal path (obj f) (obj g) (str s) h p)
