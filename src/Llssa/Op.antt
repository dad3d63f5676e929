-- ===== src/Llssa/Op.antt =====
-- compiler/src/compiler/ssa/llssa/mod.rs: the instructions of the low-level SSA, and the values they
-- read and define. A `ValueId` and a `FunctionId` are numbers; an iterator over mutable references is
-- the loop that puts `f v` in place of every `v`.
pub mod Inputs
pub mod Mutate
pub mod Traverse
use mavros.Prelude.{ℕ, Option, List}
use mavros.Llssa.{LlStruct, LlType}

pub data IntArithOp : Type 0 where
  add : IntArithOp
  sub : IntArithOp
  mul : IntArithOp
  udiv : IntArithOp
  urem : IntArithOp
  and : IntArithOp
  or : IntArithOp
  xor : IntArithOp
  shl : IntArithOp
  ushr : IntArithOp

pub data IntCmpOp : Type 0 where
  eq : IntCmpOp
  ult : IntCmpOp
  slt : IntCmpOp

pub data FieldArithOp : Type 0 where
  field_add : FieldArithOp
  field_sub : FieldArithOp
  field_mul : FieldArithOp
  field_div : FieldArithOp

pub data LlOp : Type 0 where
  int_arith : (kind : IntArithOp) (result a b : ℕ) → LlOp
  not_op : (result value : ℕ) → LlOp
  spread : (result value bits result_bits : ℕ) → LlOp
  unspread : (result_odd result_even value bits odd_bits even_bits : ℕ) → LlOp
  int_cmp : (kind : IntCmpOp) (result a b : ℕ) → LlOp
  truncate : (result value to_bits : ℕ) → LlOp
  zext : (result value to_bits : ℕ) → LlOp
  field_arith : (kind : FieldArithOp) (result a b : ℕ) → LlOp
  field_neg : (result src : ℕ) → LlOp
  field_eq : (result a b : ℕ) → LlOp
  field_to_limbs : (result src : ℕ) → LlOp
  field_from_limbs : (result limbs : ℕ) → LlOp
  mk_struct : (result : ℕ) (struct_type : LlStruct) (fields : List ℕ) → LlOp
  extract_field : (result value : ℕ) (struct_type : LlStruct) (field : ℕ) → LlOp
  heap_alloc : (result : ℕ) (struct_type : LlStruct) (flex_count : Option ℕ) → LlOp
  free : (ptr : ℕ) → LlOp
  load : (result ptr : ℕ) (ty : LlType) → LlOp
  store : (ptr value : ℕ) → LlOp
  struct_field_ptr : (result ptr : ℕ) (struct_type : LlStruct) (field : ℕ) → LlOp
  array_elem_ptr : (result ptr : ℕ) (elem_type : LlStruct) (index : ℕ) → LlOp
  memcpy : (dst src : ℕ) (struct_type : LlStruct) (count : Option ℕ) → LlOp
  select : (result cond if_t if_f : ℕ) → LlOp
  call : (results : List ℕ) (func : ℕ) (args : List ℕ) → LlOp
  global_addr : (result global_id : ℕ) → LlOp
  trap : LlOp
