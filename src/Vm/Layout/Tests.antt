-- ===== src/Vm/Layout/Tests.antt =====
-- Headers of a struct with a counted field, an array and a reference cell.
use mavros.Prelude.{ℕ, ◌^◌, ◌<◌, ◌≡◌, refl, ◌↔◌, Bool, true, false, none, some, List, [], ◌∷◌}
use mavros.Vm.Layout.{
  boxed_array, StructDescriptor, NodeSizes, new_descriptor, new_sized, new_struct, ref_cell,
  data_type, underlying_array_size, refcounted_offsets, ad_const, new,
}
use mavros.Vm.Layout.Packing.{Reads, new_sized-Reads}
use mavros.Vm.Layout.Fields.{Within, struct-underlying_array_size}

-- A field element of 4 words and two counted pointers.
abbrev point_fields : List (ℕ × Bool)
point_fields = (4, false) ∷ (1, true) ∷ (1, true) ∷ []

abbrev point : StructDescriptor
point = record { fields = point_fields; total_size = 6 }

abbrev node_sizes : NodeSizes
node_sizes = record { of_const = 32; of_witness = 8; of_mul_const = 136; of_sum = 112 }

descriptor_run : new_descriptor point_fields ≡ some point
unfolding new_descriptor
descriptor_run = refl

empty_field_run : new_descriptor ((4, false) ∷ (0, true) ∷ []) ≡ none
unfolding new_descriptor
empty_field_run = refl

offsets_run : refcounted_offsets point_fields 0 ≡ 4 ∷ 5 ∷ []
unfolding refcounted_offsets
offsets_run = refl

const_run : underlying_array_size node_sizes [] ad_const ≡ some 7
unfolding underlying_array_size data_type ad_const new
const_run = refl

wide_cell_run : ref_cell 8 true ≡ none
unfolding ref_cell
wide_cell_run = refl

new_sized-Reads_example :
    (new_sized boxed_array 3 ≡ some 769) ↔ ((3 < 2 ^ 56) × (769 < 2 ^ 64) × Reads 769 boxed_array 3)
new_sized-Reads_example = new_sized-Reads boxed_array 3 769

struct-underlying_array_size_example :
    (underlying_array_size node_sizes (point ∷ []) 6 ≡ some 9)
    × Within 0 6 (refcounted_offsets point_fields 0)
unfolding new_struct new_sized
struct-underlying_array_size_example =
    struct-underlying_array_size node_sizes (point ∷ []) 0 6 point_fields point descriptor_run refl
      refl
