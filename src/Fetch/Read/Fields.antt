-- ===== src/Fetch/Read/Fields.antt =====
-- What the reads of JSON find: fields of objects, with texts, objects and lists in them.
use mathlib.Core.Path.{subst}
use x402b.Prelude.{
  String, Option, none, some, true, false, ◌≡◌, refl, ap, sym, string_eq, ◌↔◌, Bool-cases, inl, inr,
  arith,
}
use x402b.Json.{Json, Items, Fields, get_field}
use x402b.Fetch.Read.{field_of, text_of, has_text, nested, lists_text, item_texts, is_true}

-- An object has a field.
pub record Has (v : Json) (k : String) (x : Json) : Type 0 where
  pub fields : Fields
  pub is_object : v ≡ Json.obj fields
  pub has_field : get_field fields k ≡ some x

pub data In (x : Json) : Items → Type 0 where
  here : (xs : Items) → In x (Items.cons x xs)
  there : (y : Json) (xs : Items) → In x xs → In x (Items.cons y xs)

pub field_of-Has : (v : Json) (k : String) (x : Json) → field_of v k ≡ some x → Has v k x
field_of-Has (Json.obj f) k x h = record { fields = f; is_object = refl; has_field = h }
field_of-Has _ k x h = cc

pub Has-field_of : (v : Json) (k : String) (x : Json) → Has v k x → field_of v k ≡ some x
Has-field_of v k x h = rw (h.is_object) h.has_field

pub text_of-str : (o : Option Json) (s : String) → text_of o ≡ some s → o ≡ some (Json.str s)
text_of-str (some (Json.str t)) s h = let same : t ≡ s = cc in ap (λ x. some (Json.str x)) same
text_of-str _ s h = cc

pub nested-some :
    (o : Option Json) (k : String) (x : Json)
    → nested o k ≡ some x
    → (v : Json) × (o ≡ some v) × Has v k x
nested-some none k x h = cc
nested-some (some v) k x h = (v, refl, field_of-Has v k x h)

pub has_text_iff : (t : String) (o : Option Json) → (has_text t o ≡ true) ↔ (o ≡ some (Json.str t))
has_text_iff t none = (λ h. cc, λ h. cc)
has_text_iff t (some (Json.str s)) = (
  λ h. ap (λ x. some (Json.str x)) ((string_eq.beq_iff s t).0 h),
  λ h. (string_eq.beq_iff s t).1 cc,
)
has_text_iff t (some _) = (λ h. cc, λ h. cc)

item_texts-In : (t : String) (xs : Items) → item_texts t xs ≡ true → In (Json.str t) xs
item_texts-In t Items.nil h = cc
item_texts-In t (Items.cons x xs) h = elim (Bool-cases (has_text t (some x))) [
  | inl p ↦
      let same : x ≡ Json.str t = cc ((has_text_iff t (some x)).0 p) in
      subst (λ y. In (Json.str t) (Items.cons y xs)) (sym same) (In.here xs)
  | inr p ↦ In.there x xs (item_texts-In t xs (ground arith))
]

In-item_texts : (t : String) (xs : Items) → In (Json.str t) xs → item_texts t xs ≡ true
In-item_texts t Items.nil m = elim m [ ]
In-item_texts t (Items.cons x xs) (In.here rest) =
    rw ((has_text_iff t (some (Json.str t))).1 refl) refl
In-item_texts t (Items.cons x xs) (In.there y rest m) =
    let later : item_texts t xs ≡ true = In-item_texts t xs m in ground arith

pub lists_text-In :
    (t : String) (o : Option Json)
    → lists_text t o ≡ true
    → (xs : Items) × (o ≡ some (Json.arr xs)) × In (Json.str t) xs
lists_text-In t (some (Json.arr xs)) h = (xs, refl, item_texts-In t xs h)
lists_text-In t _ h = cc

pub is_true-bool : (o : Option Json) → is_true o ≡ true → o ≡ some (Json.bool true)
is_true-bool (some (Json.bool true)) h = refl
is_true-bool (some (Json.bool false)) h = cc
is_true-bool _ h = cc

pub In-lists_text :
    (t : String) (o : Option Json) (xs : Items)
    → o ≡ some (Json.arr xs)
    → In (Json.str t) xs
    → lists_text t o ≡ true
In-lists_text t o xs h m = rw h (In-item_texts t xs m)
