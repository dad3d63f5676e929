-- ===== src/Ssa/Op.antt =====
-- compiler/src/compiler/ssa/hlssa/mod.rs: the instructions of the high-level SSA. A `ValueId` and a
-- `FunctionId` are numbers.
pub mod Inputs
pub mod Results
pub mod Mutate
pub mod Traverse
mod Tests
use Prim.Native.String.{String}
use mavros.Prelude.{ℕ, Bool, Option, List}
use mavros.Types.{TypeExpr}
use mavros.Range.Transfer.{BinaryArithOpKind, CastTarget}

pub data CmpKind : Type 0 where
  lt : CmpKind
  eq : CmpKind

pub data SequenceTargetType : Type 0 where
  array_seq : ℕ → SequenceTargetType
  slice_seq : SequenceTargetType
  tuple_seq : SequenceTargetType

pub data Endianness : Type 0 where
  big : Endianness
  little : Endianness

pub data SliceOpDir : Type 0 where
  front : SliceOpDir
  back : SliceOpDir

pub data RefCountOp : Type 0 where
  bump_rc : ℕ → RefCountOp
  drop_rc : RefCountOp

pub data DMatrix : Type 0 where
  matrix_a : DMatrix
  matrix_b : DMatrix
  matrix_c : DMatrix

pub data CallTarget : Type 0 where
  static : ℕ → CallTarget
  dynamic : ℕ → CallTarget

pub data LookupTarget (V : Type 0) : Type 0 where
  rangecheck_target : ℕ → LookupTarget V
  dyn_rangecheck : V → LookupTarget V
  array_target : V → LookupTarget V
  spread_target : ℕ → LookupTarget V

pub data Radix (V : Type 0) : Type 0 where
  bytes : Radix V
  dyn : V → Radix V

pub data OpCode : Type 0 where
  cmp : (kind : CmpKind) (result lhs rhs : ℕ) → OpCode
  binary_arith_op : (kind : BinaryArithOpKind) (result lhs rhs : ℕ) → OpCode
  cast : (result value : ℕ) (target : CastTarget) → OpCode
  sext : (result value from_bits to_bits : ℕ) → OpCode
  bit_range : (result value offset width : ℕ) → OpCode
  not_op : (result value : ℕ) → OpCode
  mk_seq :
      (result : ℕ) (elems : List ℕ) (seq_type : SequenceTargetType) (elem_type : TypeExpr) → OpCode
  mk_repeated :
      (result element : ℕ) (seq_type : SequenceTargetType) (count : ℕ) (elem_type : TypeExpr)
      → OpCode
  alloc : (result : ℕ) (elem_type : TypeExpr) → OpCode
  store : (ptr value : ℕ) → OpCode
  load : (result ptr : ℕ) → OpCode
  assert : (value : ℕ) → OpCode
  assert_cmp : (kind : CmpKind) (lhs rhs : ℕ) → OpCode
  assert_r1c : (a b c : ℕ) → OpCode
  call : (results : List ℕ) (function : CallTarget) (args : List ℕ) (unconstrained : Bool) → OpCode
  array_get : (result array index : ℕ) → OpCode
  array_set : (result array index value : ℕ) → OpCode
  slice_push : (dir : SliceOpDir) (result slice : ℕ) (values : List ℕ) → OpCode
  slice_len : (result slice : ℕ) → OpCode
  select : (result cond if_t if_f : ℕ) → OpCode
  to_bits : (result value : ℕ) (endianness : Endianness) (count : ℕ) → OpCode
  to_radix : (result value : ℕ) (radix : Radix ℕ) (endianness : Endianness) (count : ℕ) → OpCode
  mem_op : (kind : RefCountOp) (value : ℕ) → OpCode
  value_of : (result value : ℕ) → OpCode
  write_witness : (result : Option ℕ) (value : ℕ) (pinned : Bool) → OpCode
  fresh_witness : (result : ℕ) (result_type : TypeExpr) → OpCode
  next_d_coeff : (result : ℕ) → OpCode
  bump_d : (matrix : DMatrix) (variable sensitivity : ℕ) → OpCode
  constrain : (a b c : ℕ) → OpCode
  lookup : (target : LookupTarget ℕ) (args : List ℕ) (flag : ℕ) → OpCode
  d_lookup : (target : LookupTarget ℕ) (args : List ℕ) (flag : ℕ) → OpCode
  mul_const : (result const_val var : ℕ) → OpCode
  rangecheck : (value max_bits : ℕ) → OpCode
  read_global : (result offset : ℕ) (result_type : TypeExpr) → OpCode
  tuple_proj : (result tuple idx : ℕ) → OpCode
  mk_tuple : (result : ℕ) (elems : List ℕ) (element_types : List TypeExpr) → OpCode
  todo : (payload : String) (results : List ℕ) (result_types : List TypeExpr) → OpCode
  init_global : (global value : ℕ) → OpCode
  drop_global : (global : ℕ) → OpCode
  spread : (result value bits : ℕ) → OpCode
  unspread : (result_odd result_even value bits : ℕ) → OpCode
  guard : (condition : ℕ) (inner : OpCode) → OpCode
