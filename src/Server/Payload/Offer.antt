-- ===== src/Server/Payload/Offer.antt =====
-- `deepEqual`. The keys of a JavaScript object are distinct.
use x402b.Prelude.{Bool, true, false, ◌&&◌, ◌==◌, string_eq, nat_eq, none, some}
use x402b.Json.{Json, Items, Fields, get_field, count_fields, count_items, bool_beq}

unfoldable mutual
  pub json_equal : Json → Json → Bool
  json_equal Json.null Json.null = true
  json_equal (Json.bool a) (Json.bool b) = bool_beq a b
  json_equal (Json.num a) (Json.num b) = a == b
  json_equal (Json.str a) (Json.str b) = a == b
  json_equal (Json.arr xs) (Json.arr ys) = count_items xs == count_items ys && items_equal xs ys
  json_equal (Json.obj f) (Json.obj g) = count_fields f == count_fields g && fields_within f g
  json_equal _ _ = false

  pub items_equal : Items → Items → Bool
  items_equal Items.nil ys = true
  items_equal (Items.cons x xs) Items.nil = false
  items_equal (Items.cons x xs) (Items.cons y ys) = json_equal x y && items_equal xs ys

  -- The loop over the keys of the first object.
  pub fields_within : Fields → Fields → Bool
  fields_within Fields.end g = true
  fields_within (Fields.field k v f) g =
      elim (get_field g k) [ none ↦ false | some w ↦ json_equal v w ] && fields_within f g

unfoldable pub deep_equal : Fields → Fields → Bool
unfolding json_equal items_equal fields_within
deep_equal f g = count_fields f == count_fields g && fields_within f g
