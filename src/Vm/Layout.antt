-- ===== src/Vm/Layout.antt =====
-- `BoxedLayout` and `StructDescriptor` (vm/src/array.rs): the header word of a heap object, with the
-- data type in its lowest byte and a payload of 56 bits above it. A failed `assert!` is `none`. The
-- bits that an `|` joins are disjoint there, so that it is a sum; a shift is a product or a quotient.
pub mod Packing
pub mod Fields
mod Tests
use mavros.Prelude.{
  ℕ, zero, suc, ◌+◌, ◌*◌, ◌/◌, ◌%◌, ◌^◌, Bool, true, false, ◌&&◌, Option, none, some, List, [], ◌∷◌,
  ◌==◌, ltb, if◌then◌else◌, length, get_elem?,
}
use mathlib.Core.Bool.{not}

pub data DataType : Type 0 where
  prim_array : DataType
  boxed_array : DataType
  ad_const_type : DataType
  ad_witness_type : DataType
  ad_sum_type : DataType
  ad_mul_const_type : DataType
  struct_type : DataType
  ref_cell_type : DataType

abbrev pub discriminant : DataType → ℕ
discriminant prim_array = 0
discriminant boxed_array = 1
discriminant ad_const_type = 2
discriminant ad_witness_type = 3
discriminant ad_sum_type = 4
discriminant ad_mul_const_type = 5
discriminant struct_type = 6
discriminant ref_cell_type = 7

-- The `transmute` of a byte, undefined above 7.
abbrev pub from_discriminant : ℕ → Option DataType
from_discriminant k =
    if k == 0
    then some prim_array
    else if k == 1
    then some boxed_array
    else if k == 2
    then some ad_const_type
    else if k == 3
    then some ad_witness_type
    else if k == 4
    then some ad_sum_type
    else if k == 5
    then some ad_mul_const_type
    else if k == 6
    then some struct_type
    else if k == 7
    then some ref_cell_type
    else none

-- The sizes of the fields in words, with the flag of a reference-counted field.
pub record StructDescriptor : Type 0 where
  pub fields : List (ℕ × Bool)
  pub total_size : ℕ

-- The loop of `StructDescriptor::new`: a field of size 0 and a sum of 2 ^ 32 are refused.
abbrev pub sum_sizes : List (ℕ × Bool) → ℕ → Option ℕ
sum_sizes [] total = some total
sum_sizes ((sz, flag) ∷ fields) total =
    let rest = sum_sizes fields (total + sz) in
    if sz == 0 then none else if ltb (total + sz) (2 ^ 32) then rest else none

abbrev pub descriptor_of : List (ℕ × Bool) → Option ℕ → Option StructDescriptor
descriptor_of fields none = none
descriptor_of fields (some total) = some (record { fields = fields; total_size = total })

unfoldable pub new_descriptor : List (ℕ × Bool) → Option StructDescriptor
new_descriptor fields = descriptor_of fields (sum_sizes fields 0)

unfoldable pub field_count : StructDescriptor → ℕ
field_count d = length d.fields

abbrev size_of : Option (ℕ × Bool) → Option ℕ
size_of none = none
size_of (some (sz, flag)) = some sz

abbrev flag_of : Option (ℕ × Bool) → Option Bool
flag_of none = none
flag_of (some (sz, flag)) = some flag

unfoldable pub field_size : StructDescriptor → ℕ → Option ℕ
field_size d n = size_of (get_elem? d.fields n)

unfoldable pub is_refcounted : StructDescriptor → ℕ → Option Bool
is_refcounted d n = flag_of (get_elem? d.fields n)

-- A `BoxedLayout` is its word.
unfoldable pub new_sized : DataType → ℕ → Option ℕ
new_sized t size = if ltb size (2 ^ 56) then some (discriminant t + size * 256) else none

unfoldable pub new : DataType → ℕ
new t = discriminant t

unfoldable pub array : ℕ → Bool → Option ℕ
unfolding new_sized
array size ptr_elems =
    if ltb size (2 ^ 56)
    then if ptr_elems then new_sized boxed_array size else new_sized prim_array size
    else none

unfoldable pub new_struct : ℕ → Option ℕ
unfolding new_sized
new_struct idx = new_sized struct_type idx

unfoldable pub struct_layout_idx : ℕ → ℕ
struct_layout_idx word = word / 256

abbrev pub flag_bit : Bool → ℕ
flag_bit true = 8
flag_bit false = 0

unfoldable pub ref_cell : ℕ → Bool → Option ℕ
unfolding new_sized
ref_cell elem_size elem_is_refcounted =
    if ltb elem_size 8
    then new_sized ref_cell_type (flag_bit elem_is_refcounted + elem_size)
    else none

unfoldable pub ref_cell_elem_size : ℕ → ℕ
ref_cell_elem_size word = word / 256 % 8

unfoldable pub ref_cell_elem_is_refcounted : ℕ → Bool
ref_cell_elem_is_refcounted word = not (word / 256 / 8 % 2 == 0)

unfoldable pub ad_const : ℕ
unfolding new
ad_const = new ad_const_type

unfoldable pub ad_witness : ℕ
unfolding new
ad_witness = new ad_witness_type

unfoldable pub mul_const : ℕ
unfolding new
mul_const = new ad_mul_const_type

unfoldable pub ad_sum : ℕ
unfolding new
ad_sum = new ad_sum_type

unfoldable pub data_type : ℕ → Option DataType
data_type word = from_discriminant (word % 256)

unfoldable pub array_size : ℕ → ℕ
array_size word = word / 256

-- A `StructView` is its descriptor.
unfoldable pub as_struct : ℕ → List StructDescriptor → Option StructDescriptor
unfolding struct_layout_idx
as_struct word table = get_elem? table (struct_layout_idx word)

-- The sizes in bytes that the compiler gives the structs of the derivative nodes.
pub record NodeSizes : Type 0 where
  pub of_const : ℕ
  pub of_witness : ℕ
  pub of_mul_const : ℕ
  pub of_sum : ℕ

abbrev pub struct_bytes : Option StructDescriptor → Option ℕ
struct_bytes none = none
struct_bytes (some d) = some (8 * d.total_size)

abbrev pub base_byte_size : NodeSizes → List StructDescriptor → ℕ → Option DataType → Option ℕ
base_byte_size sizes table word none = none
base_byte_size sizes table word (some ad_const_type) = some sizes.of_const
base_byte_size sizes table word (some ad_witness_type) = some sizes.of_witness
base_byte_size sizes table word (some ad_mul_const_type) = some sizes.of_mul_const
base_byte_size sizes table word (some ad_sum_type) = some sizes.of_sum
base_byte_size sizes table word (some boxed_array) = some (8 * array_size word)
base_byte_size sizes table word (some prim_array) = some (8 * array_size word)
base_byte_size sizes table word (some struct_type) = struct_bytes (as_struct word table)
base_byte_size sizes table word (some ref_cell_type) = some (8 * ref_cell_elem_size word)

-- `div_ceil(8) + 3`
abbrev pub with_header : Option ℕ → Option ℕ
with_header none = none
with_header (some bytes) = some ((bytes + 7) / 8 + 3)

-- In words: the data with the three words of the header, the reference count and the table id.
unfoldable pub underlying_array_size : NodeSizes → List StructDescriptor → ℕ → Option ℕ
unfolding data_type array_size as_struct ref_cell_elem_size
underlying_array_size sizes table word =
    with_header (base_byte_size sizes table word (data_type word))

-- The `Struct` arm of `dec_rc`: the offsets of the fields that are counted, in order.
unfoldable pub refcounted_offsets : List (ℕ × Bool) → ℕ → List ℕ
refcounted_offsets [] field_offset = []
refcounted_offsets ((sz, flag) ∷ fields) field_offset =
    let rest = refcounted_offsets fields (field_offset + sz) in
    if flag then field_offset ∷ rest else rest
