-- ===== src/Artifacts/Input/Tests.antt =====
-- A struct with a field element and a struct that holds a vector.
use mavros.Prelude.{ℕ, ◌≡◌, refl, none}
use mavros.Artifacts.Input.{
  InputValueOrdered, field_value, string_value, vec_value, struct_value, no_values, with_value,
  no_fields, with_field, field_sizes,
}

abbrev person : InputValueOrdered ℕ ℕ
person = struct_value (
    with_field 0 (field_value 7) (
      with_field 1
        (struct_value (with_field 2 (vec_value (with_value (string_value 5) no_values)) no_fields))
        no_fields))

string_run : field_sizes ℕ ℕ (struct_value (with_field 0 (string_value 5) no_fields)) ≡ none
unfolding field_sizes
string_run = refl
