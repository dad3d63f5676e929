-- ===== src/Llssa/Tests.antt =====
-- The node of a sum is value-safe; an array on the heap is not.
use mavros.Prelude.{◌≡◌, refl, true, false, some}
use mavros.Llssa.{LlType, inline, to_ll_type, is_value_safe, field_elem, ad_sum_node, rc_array}
use mavros.Llssa.Safe.{is_type_safe, field_at, is_value_safe-to_ll_type}

array_unsafe : is_value_safe (rc_array field_elem 3) ≡ false
unfolding is_value_safe
array_unsafe = refl

is_value_safe-to_ll_type_example :
    (t : LlType) × (to_ll_type (inline field_elem) ≡ some t) × (is_type_safe t ≡ true)
unfolding is_value_safe field_at
is_value_safe-to_ll_type_example =
    is_value_safe-to_ll_type ad_sum_node 5 (inline field_elem) refl refl
