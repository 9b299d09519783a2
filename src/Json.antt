-- ===== src/Json.antt =====
-- JSON values, for the parts of the wire format that the program treats as `unknown`: offers, option
-- schemas, buyer data. Numbers are natural numbers.
use x402b.Prelude.{
  ℕ, suc, String, Bool, true, false, ◌==◌, string_eq, nat_eq, Option, none, some, if◌then◌else◌,
}

mutual
  pub data Json : Type 0 where
    null : Json
    bool : Bool → Json
    num : ℕ → Json
    str : String → Json
    arr : Items → Json
    obj : Fields → Json

  pub data Items : Type 0 where
    nil : Items
    cons : Json → Items → Items

  pub data Fields : Type 0 where
    end : Fields
    field : String → Json → Fields → Fields

-- `o[k]`
abbrev pub get_field : Fields → String → Option Json
get_field end k = none
get_field (field j v o) k = if j == k then some v else get_field o k

-- `{ ...o, [k]: v }`
unfoldable pub put_field : Fields → String → Json → Fields
put_field end k v = field k v end
put_field (field j w o) k v = if j == k then field j v o else field j w (put_field o k v)

abbrev pub count_fields : Fields → ℕ
count_fields end = 0
count_fields (field k v o) = suc (count_fields o)

abbrev pub count_items : Items → ℕ
count_items nil = 0
count_items (cons v xs) = suc (count_items xs)

abbrev pub bool_beq : Bool → Bool → Bool
bool_beq true b = b
bool_beq false true = false
bool_beq false false = true
