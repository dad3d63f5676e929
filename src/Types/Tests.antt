-- ===== src/Types/Tests.antt =====
-- The types of the unit tests in type_system.rs.
use mavros.Prelude.{◌≡◌, refl, ◌↔◌, true, false, some, none}
use mavros.Types.{
  TypeExpr, field, u, witness_of, array, ref, tuple, nil, cons, join, is_subtype_of,
  needs_witness_cast, contains_ptrs, is_single_wrapped, type_eq, is_witness_of,
}
use mavros.Types.Access.{get_array_element, calculate_type_size}
use mavros.Types.Order.{type_eq_iff}
use mavros.Types.Join.Upper.{join_upper, join-ref_upper}
use mavros.Types.Join.Least.{join_least, is_subtype_of-join}

abbrev wit_field : TypeExpr
wit_field = witness_of field

abbrev pair : TypeExpr → TypeExpr → TypeExpr
pair a b = tuple (cons a (cons b nil))

-- (Field, W(u32)), (W(Field), u32) and their join.
abbrev left : TypeExpr
left = pair field (witness_of (u 32))

abbrev right : TypeExpr
right = pair wit_field (u 32)

abbrev joined : TypeExpr
joined = pair wit_field (witness_of (u 32))

tuple_joined : join left right ≡ some joined
unfolding join
tuple_joined = refl

array_into_witness :
    (is_subtype_of (array field 3) (witness_of (array wit_field 3)) ≡ true)
    × (is_subtype_of (witness_of (array field 3)) (array wit_field 3) ≡ false)
    × (needs_witness_cast (array field 3) (array wit_field 3) ≡ true)
    × (is_subtype_of (ref field) (ref wit_field) ≡ false)
unfolding is_subtype_of needs_witness_cast type_eq
array_into_witness = (refl, refl, refl, refl)

sizes_differ : join (array field 3) (array field 4) ≡ none
unfolding join
sizes_differ = refl

-- The join of two references is above only one of them.
ref_joined :
    (join (ref field) (ref wit_field) ≡ some (ref wit_field))
    × (is_subtype_of (ref field) (ref wit_field) ≡ false)
unfolding join is_subtype_of type_eq
ref_joined = (refl, refl)

type_eq_iff_example : (type_eq left right ≡ true) ↔ (left ≡ right)
type_eq_iff_example = type_eq_iff left right

join_upper_example : (is_subtype_of left joined ≡ true) × (is_subtype_of right joined ≡ true)
unfolding join contains_ptrs
join_upper_example = join_upper left right joined refl refl

join-ref_upper_example :
    (join (ref field) (ref wit_field) ≡ some (ref wit_field))
    × (((is_subtype_of (ref field) (ref wit_field) ≡ true)
          × (is_subtype_of (ref wit_field) (ref wit_field) ≡ true))
        ↔ (field ≡ wit_field))
unfolding join
join-ref_upper_example = join-ref_upper field wit_field wit_field refl

join_least_example :
    (c : TypeExpr) × (join left right ≡ some c) × (is_subtype_of c (witness_of joined) ≡ true)
unfolding is_subtype_of is_single_wrapped is_witness_of
join_least_example = join_least left right (witness_of joined) refl refl refl

is_subtype_of-join_example : (is_subtype_of left joined ≡ true) ↔ (join left joined ≡ some joined)
unfolding is_single_wrapped contains_ptrs is_witness_of
is_subtype_of-join_example = is_subtype_of-join left joined refl refl

-- An element of a wrapped array is wrapped, once.
elements_run :
    (get_array_element (witness_of (array field 3)) ≡ some wit_field)
    × (get_array_element (witness_of (array wit_field 3)) ≡ none)
    × (calculate_type_size left ≡ some 2)
unfolding get_array_element calculate_type_size
elements_run = (refl, refl, refl)
