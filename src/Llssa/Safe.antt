-- ===== src/Llssa/Safe.antt =====
-- A value-safe struct (compiler/src/compiler/ssa/llssa/mod.rs) has only fields that are values.
use mathlib.Core.Bool.{and-eq-true_iff}
use mathlib.Core.Option.{some-injective}
use mavros.Prelude.{
  ℕ, zero, suc, ◌≡◌, refl, sym, ap, ◌∙◌, Bool, true, Option, none, some, none-some,
}
use mavros.Llssa.{
  LlFieldType, int, ptr, inline, inline_array, flex_array, LlStruct, nil, cons, LlType, int_type,
  ptr_type, struct_type, to_ll_type, is_value_safe, is_field_safe,
}

-- The field that an index names.
unfoldable pub field_at : LlStruct → ℕ → Option LlFieldType
field_at nil n = none
field_at (cons f fs) zero = some f
field_at (cons f fs) (suc n) = field_at fs n

-- A type that a value can have without a part that stands only in memory.
unfoldable pub is_type_safe : LlType → Bool
unfolding is_value_safe
is_type_safe (int_type _) = true
is_type_safe ptr_type = true
is_type_safe (struct_type s) = is_value_safe s

field-to_ll_type :
    (f : LlFieldType)
    → is_field_safe f ≡ true
    → (t : LlType) × (to_ll_type f ≡ some t) × (is_type_safe t ≡ true)
unfolding to_ll_type is_value_safe is_type_safe
field-to_ll_type (int bits) h = (int_type bits, refl, refl)
field-to_ll_type ptr h = (ptr_type, refl, refl)
field-to_ll_type (inline s) h = (struct_type s, refl, h)
field-to_ll_type (inline_array s n) h = cc
field-to_ll_type (flex_array s) h = cc

-- `to_ll_type` does not panic at a field of a value-safe struct, and a field's type is value-safe again.
pub is_value_safe-to_ll_type :
    (s : LlStruct) (n : ℕ) (f : LlFieldType)
    → is_value_safe s ≡ true
    → field_at s n ≡ some f
    → (t : LlType) × (to_ll_type f ≡ some t) × (is_type_safe t ≡ true)
unfolding is_value_safe field_at
is_value_safe-to_ll_type nil n f h e = absurd (none-some e)
is_value_safe-to_ll_type (cons g fs) zero f h e =
    let (a, b) = (and-eq-true_iff (is_field_safe g) (is_value_safe fs)).0 h in
    field-to_ll_type f (ap is_field_safe (sym (some-injective g f e)) ∙ a)
is_value_safe-to_ll_type (cons g fs) (suc n) f h e =
    let (a, b) = (and-eq-true_iff (is_field_safe g) (is_value_safe fs)).0 h in
    is_value_safe-to_ll_type fs n f b e
