-- ===== src/Artifacts/Input.antt =====
-- `InputValueOrdered` (mavros-artifacts/src/lib.rs): the inputs in the order of the ABI. The field
-- elements and the strings are parameters; a panic is `none`.
mod Tests
use mathlib.Core.Option.{some-injective}
use mavros.Prelude.{
  ℕ, zero, suc, ◌+◌, ◌≡◌, refl, sym, ap, ◌∙◌, Option, none, some, List, [], ◌∷◌, ◌++◌, arith,
}

module _ (Elem Text : Type 0) where
  mutual
    pub data InputValueOrdered : Type 0 where
      field_value : Elem → InputValueOrdered
      string_value : Text → InputValueOrdered
      vec_value : Values → InputValueOrdered
      struct_value : Fields → InputValueOrdered

    pub data Values : Type 0 where
      no_values : Values
      with_value : InputValueOrdered → Values → Values

    pub data Fields : Type 0 where
      no_fields : Fields
      with_field : Text → InputValueOrdered → Fields → Fields

  -- `extend`, where both lists are there.
  abbrev pub extend : Option (List ℕ) → Option (List ℕ) → Option (List ℕ)
  extend (some xs) (some ys) = some (xs ++ ys)
  extend _ _ = none

  unfoldable mutual
    pub field_sizes : InputValueOrdered → Option (List ℕ)
    field_sizes (field_value x) = some (4 ∷ [])
    field_sizes (string_value s) = none
    field_sizes (vec_value vs) = some (1 ∷ [])
    field_sizes (struct_value fs) = fields_sizes fs

    -- The loop over the fields of a struct.
    pub fields_sizes : Fields → Option (List ℕ)
    fields_sizes no_fields = some []
    fields_sizes (with_field name v fs) = extend (field_sizes v) (fields_sizes fs)

  -- The words that a value takes in a frame: four for a field element and one for a pointer.
  abbrev mutual
    pub words_of : InputValueOrdered → ℕ
    words_of (field_value x) = 4
    words_of (string_value s) = 0
    words_of (vec_value vs) = 1
    words_of (struct_value fs) = words_of_fields fs

    pub words_of_fields : Fields → ℕ
    words_of_fields no_fields = 0
    words_of_fields (with_field name v fs) = words_of v + words_of_fields fs

  abbrev pub sum_of : List ℕ → ℕ
  sum_of [] = 0
  sum_of (n ∷ ns) = n + sum_of ns

  sum_of-append : (xs ys : List ℕ) → sum_of (xs ++ ys) ≡ sum_of xs + sum_of ys
  sum_of-append [] ys = omega arith
  sum_of-append (x ∷ xs) ys = omega (arith, sum_of-append xs ys)

  extend_parts :
      (a b : Option (List ℕ)) (ns : List ℕ)
      → extend a b ≡ some ns
      → (xs ys : List ℕ) × (a ≡ some xs) × (b ≡ some ys) × (xs ++ ys ≡ ns)
  extend_parts none b ns h = cc
  extend_parts (some xs) none ns h = cc
  extend_parts (some xs) (some ys) ns h = (xs, ys, refl, refl, some-injective (xs ++ ys) ns h)

  mutual
    unfolding field_sizes

    sizes_sum :
        (v : InputValueOrdered) (ns : List ℕ) → field_sizes v ≡ some ns → sum_of ns ≡ words_of v
    sizes_sum (field_value x) ns h = rw (sym (some-injective (4 ∷ []) ns h)) refl
    sizes_sum (string_value s) ns h = cc
    sizes_sum (vec_value vs) ns h = rw (sym (some-injective (1 ∷ []) ns h)) refl
    sizes_sum (struct_value fs) ns h = sizes_sum_fields fs ns h

    sizes_sum_fields :
        (fs : Fields) (ns : List ℕ) → fields_sizes fs ≡ some ns → sum_of ns ≡ words_of_fields fs
    sizes_sum_fields no_fields ns h = rw (sym (some-injective [] ns h)) refl
    sizes_sum_fields (with_field name v fs) ns h =
        let (xs, ys, p, q, e) = extend_parts (field_sizes v) (fields_sizes fs) ns h in
        rw (sym e) (omega (arith, sum_of-append xs ys, sizes_sum v xs p, sizes_sum_fields fs ys q))

  -- The sizes of the fields of a value, where no string stands outside a vector, add up to four words
  -- for each field element and one for each vector that is not inside a vector.
  sum_of-field_sizes :
      (v : InputValueOrdered) (ns : List ℕ) → field_sizes v ≡ some ns → sum_of ns ≡ words_of v
  sum_of-field_sizes v ns h = sizes_sum v ns h
