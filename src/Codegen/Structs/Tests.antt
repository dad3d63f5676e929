-- ===== src/Codegen/Structs/Tests.antt =====
-- Two shapes.
use mavros.Prelude.{◌≡◌, refl, true, false, some, [], ◌∷◌, get_elem?}
use mavros.Vm.Layout.{new_descriptor}
use mavros.Codegen.Structs.{
  Fields, StructLayoutInterner, new_interner, intern, index_of, fields_eq, flag_eq,
}
use mavros.Codegen.Structs.Shared.{
  done, then_intern, new_interner-IsInterner, intern_lem, intern_injective,
}

abbrev pair : Fields
pair = (4, false) ∷ (1, true) ∷ []

abbrev one_shape : StructLayoutInterner
one_shape = record { table = record { fields = pair; total_size = 5 } ∷ []; index = (pair, 0) ∷ [] }

abbrev two_shapes : StructLayoutInterner
two_shapes = record {
  table =
      record { fields = pair; total_size = 5 }
      ∷ record { fields = (1, false) ∷ []; total_size = 1 }
      ∷ [];
  index = ((1, false) ∷ [], 1) ∷ (pair, 0) ∷ [];
}

intern_lem_example :
    (get_elem? (two_shapes.table) 0 ≡ new_descriptor pair)
    × (intern pair two_shapes ≡ some (0, two_shapes))
unfolding intern index_of new_descriptor fields_eq flag_eq
intern_lem_example =
    intern_lem pair new_interner new_interner-IsInterner 0 one_shape refl two_shapes
      (then_intern (done one_shape) ((1, false) ∷ []) 1 refl)

intern_injective_example : pair ≡ pair
unfolding intern index_of new_descriptor fields_eq flag_eq
intern_injective_example =
    intern_injective pair pair new_interner new_interner-IsInterner 0 one_shape one_shape refl refl
