-- ===== src/Llssa.antt =====
-- compiler/src/compiler/ssa/llssa: the low-level SSA. This file has the struct layouts of mod.rs, a
-- struct being the list of its fields, and the types of type_system.rs. A panic is `none`.
pub mod Op
mod Safe
mod Tests
use mavros.Prelude.{ℕ, Bool, true, false, ◌&&◌, Option, none, some}

mutual
  pub data LlFieldType : Type 0 where
    int : ℕ → LlFieldType
    ptr : LlFieldType
    inline : LlStruct → LlFieldType
    inline_array : LlStruct → ℕ → LlFieldType
    flex_array : LlStruct → LlFieldType

  pub data LlStruct : Type 0 where
    nil : LlStruct
    cons : LlFieldType → LlStruct → LlStruct

pub data LlType : Type 0 where
  int_type : ℕ → LlType
  ptr_type : LlType
  struct_type : LlStruct → LlType

unfoldable pub to_ll_type : LlFieldType → Option LlType
to_ll_type (int bits) = some (int_type bits)
to_ll_type ptr = some ptr_type
to_ll_type (inline s) = some (struct_type s)
to_ll_type (inline_array _ _) = none
to_ll_type (flex_array _) = none

unfoldable mutual
  pub is_value_safe : LlStruct → Bool
  is_value_safe nil = true
  is_value_safe (cons f fs) = is_field_safe f && is_value_safe fs

  pub is_field_safe : LlFieldType → Bool
  is_field_safe (int _) = true
  is_field_safe ptr = true
  is_field_safe (inline s) = is_value_safe s
  is_field_safe (inline_array _ _) = false
  is_field_safe (flex_array _) = false

infixr 5 ◌▸◌
abbrev pub ◌▸◌ : LlFieldType → LlStruct → LlStruct
f ▸ fs = cons f fs

abbrev pub field_elem : LlStruct
field_elem = int 64 ▸ int 64 ▸ int 64 ▸ int 64 ▸ nil

abbrev pub limbs : LlStruct
limbs = int 64 ▸ int 64 ▸ int 64 ▸ int 64 ▸ nil

abbrev pub rc_header : LlStruct
rc_header = int 64 ▸ nil

abbrev pub rc_array : LlStruct → ℕ → LlStruct
rc_array elem count = inline rc_header ▸ int 64 ▸ inline_array elem count ▸ nil

abbrev pub ad_node_base : LlStruct
ad_node_base = inline rc_header ▸ int 32 ▸ nil

abbrev pub ad_const_node : LlStruct
ad_const_node = inline rc_header ▸ int 32 ▸ inline field_elem ▸ nil

abbrev pub ad_witness_node : LlStruct
ad_witness_node = inline rc_header ▸ int 32 ▸ int 64 ▸ nil

abbrev pub ad_sum_node : LlStruct
ad_sum_node =
    inline rc_header
    ▸ int 32
    ▸ ptr
    ▸ ptr
    ▸ inline field_elem
    ▸ inline field_elem
    ▸ inline field_elem
    ▸ nil

abbrev pub table_info_slot : LlStruct
table_info_slot = ptr ▸ int 32 ▸ int 32 ▸ int 32 ▸ int 32 ▸ int 32 ▸ nil

abbrev pub ad_mul_const_node : LlStruct
ad_mul_const_node =
    inline rc_header
    ▸ int 32
    ▸ inline field_elem
    ▸ ptr
    ▸ inline field_elem
    ▸ inline field_elem
    ▸ inline field_elem
    ▸ nil

abbrev pub witgen_vm : LlStruct
witgen_vm =
    ptr
    ▸ ptr
    ▸ ptr
    ▸ ptr
    ▸ ptr
    ▸ ptr
    ▸ ptr
    ▸ ptr
    ▸ ptr
    ▸ ptr
    ▸ int 32
    ▸ int 32
    ▸ ptr
    ▸ int 32
    ▸ int 32
    ▸ int 32
    ▸ nil

abbrev pub ad_vm : LlStruct
ad_vm = ptr ▸ ptr ▸ ptr ▸ ptr ▸ int 32 ▸ ptr ▸ int 32 ▸ int 32 ▸ int 32 ▸ int 32 ▸ nil
