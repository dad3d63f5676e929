-- ===== src/Passes/Simplifier.antt =====
-- compiler/src/compiler/passes/simplifier.rs: algebraic identities, applied to every instruction of a
-- function until none applies. The field of the constants is a parameter, and so is the inference of
-- types; a panic is `none`.
pub mod Algebraic
pub mod Rounds
mod Rules
mod Binary
mod Shift
mod Sound
mod Adds
mod Keeps
mod Definitions
mod Steps
mod Loops
mod Typed
mod Repeated
mod Whole
mod Stale
mod Inference
mod Tests
use mavros.Prelude.{
  ℕ, zero, suc, ◌-◌, ◌^◌, Bool, true, false, ◌&&◌, ◌||◌, Option, none, some, List, [], ◌∷◌, ◌++◌,
  ◌==◌, ltb, if◌then◌else◌,
}
use mavros.Prelude.Field.{Field}
use mavros.Types.{TypeExpr, field, u, i, ◌>>=◌, strip_witness, is_witness_of}
use mavros.Types.Access.{get_bit_size}
use mavros.Range.Transfer.{
  BinaryArithOpKind, add_op, mul_op, div_op, sub_op, and_op, or_op, xor_op, shl_op, shr_op, mod_op,
  CastTarget, to_field, to_u, to_i, to_witness, nop, array_to_slice,
}
use mavros.Analysis.ValueDefinitions.{
  FunctionValueDefinitions, ValueDefinition, param, instruction, get_definition, from_function,
}
use mavros.Ssa.Dict.{Dict, get}
use mavros.Ssa.Constant.{Constant, u_const, i_const, field_const, fn_ptr}
use mavros.Ssa.Op.{
  OpCode, CmpKind, eq, cmp, binary_arith_op, cast, not_op, bit_range, select, value_of,
  write_witness, mul_const,
}
use mavros.Ssa.BiMap.{BiMap}
use mavros.Ssa.Function.{Function, Block}
use mavros.Ssa.Program.{Ssa, get_const, add_const}
use mavros.Passes.Replacements.{
  ValueReplacements, insert_replacement, replace_inputs, inputs, apply_to_function,
}

pub data Rewrite : Type 0 where
  alias : (result target : ℕ) → Rewrite
  replace : List OpCode → Rewrite

-- A shift by more than 127 digits panics.
unfoldable pub bit_mask : (bits : ℕ) → Option ℕ
bit_mask bits =
    if bits == 0
    then some 0
    else if bits == 128
    then some (2 ^ 128 - 1)
    else if ltb bits 128
    then some (2 ^ bits - 1)
    else none

-- The derived equality.
unfoldable pub cast_target_eq : CastTarget → CastTarget → Bool
cast_target_eq to_field to_field = true
cast_target_eq (to_u n) (to_u m) = n == m
cast_target_eq (to_i n) (to_i m) = n == m
cast_target_eq to_witness to_witness = true
cast_target_eq nop nop = true
cast_target_eq array_to_slice array_to_slice = true
cast_target_eq _ _ = false

module _ {F : Field} where
  -- The tests on a constant that the functions with these names look up.
  unfoldable pub zero_const : Constant F → Bool
  zero_const (u_const _ n) = n == 0
  zero_const (i_const _ n) = n == 0
  zero_const (field_const f) = elim (F.felt_discrete f F.nought) [ yes _ ↦ true | no _ ↦ false ]
  zero_const (fn_ptr _) = false

  unfoldable pub one_const : Constant F → Bool
  one_const (u_const _ n) = n == 1
  one_const (i_const _ n) = n == 1
  one_const (field_const f) = elim (F.felt_discrete f F.unity) [ yes _ ↦ true | no _ ↦ false ]
  one_const (fn_ptr _) = false

  unfoldable pub all_ones_const : Constant F → Option Bool
  unfolding bit_mask
  all_ones_const (u_const bits n) = do m ← bit_mask bits; some (n == m)
  all_ones_const (i_const bits n) = do m ← bit_mask bits; some (n == m)
  all_ones_const _ = some false

  -- `try_into` from 128 bits to 64.
  unfoldable pub usize_const : Constant F → Option ℕ
  usize_const (u_const _ n) = if ltb n (2 ^ 64) then some n else none
  usize_const (i_const _ n) = if ltb n (2 ^ 64) then some n else none
  usize_const _ = none

  -- The closures of `materialize_zero` and `materialize_one`.
  unfoldable pub pure_zero : TypeExpr → Option (Constant F)
  pure_zero (u s) = some (u_const s 0)
  pure_zero (i s) = some (i_const s 0)
  pure_zero field = some (field_const F.nought)
  pure_zero _ = none

  unfoldable pub pure_one : TypeExpr → Option (Constant F)
  pure_one (u s) = some (u_const s 1)
  pure_one (i s) = some (i_const s 1)
  pure_one field = some (field_const F.unity)
  pure_one _ = none

abbrev pub Program : {F : Field} → BiMap (Constant F) → Type 0
Program bimap = Ssa OpCode TypeExpr bimap

-- The rewrite, where there is one, and the program with the constants that it added.
abbrev pub Attempt : {F : Field} → BiMap (Constant F) → Type 0
Attempt bimap = Option (Option Rewrite × Program bimap)

module _ {F : Field} {bimap : BiMap (Constant F)} where
  abbrev pub to_alias : (result target : ℕ) → Program bimap → Attempt bimap
  to_alias result target s = some (some (alias result target), s)

  abbrev pub no_rewrite : Program bimap → Attempt bimap
  no_rewrite s = some (none, s)

  unfoldable pub is_zero : Program bimap → ℕ → Bool
  unfolding zero_const
  is_zero s v = elim (get_const v s) [ none ↦ false | some c ↦ zero_const c ]

  unfoldable pub is_one : Program bimap → ℕ → Bool
  unfolding one_const
  is_one s v = elim (get_const v s) [ none ↦ false | some c ↦ one_const c ]

  unfoldable pub is_all_ones : Program bimap → ℕ → Option Bool
  unfolding all_ones_const
  is_all_ones s v = elim (get_const v s) [ none ↦ some false | some c ↦ all_ones_const c ]

  unfoldable pub const_as_usize : Program bimap → ℕ → Option ℕ
  unfolding usize_const
  const_as_usize s v = elim (get_const v s) [ none ↦ none | some c ↦ usize_const c ]

  -- `is_witness_of` decides between a cast of the new constant and an alias of it.
  unfoldable pub materialize : TypeExpr → (result : ℕ) → Constant F → Program bimap → Attempt bimap
  unfolding add_const is_witness_of
  materialize ty result value s =
      let added = add_const value s in
      if is_witness_of ty
      then some (some (replace (cast result (added.0) to_witness ∷ [])), added.1)
      else to_alias result (added.0) (added.1)

  unfoldable pub materialize_const :
      Dict TypeExpr
      → (result : ℕ) → (TypeExpr → Option (Constant F))
      → Program bimap
      → Attempt bimap
  unfolding materialize strip_witness
  materialize_const types result pure_value s = do
    ty ← get result types
    elim (pure_value (strip_witness ty)) [
      | none ↦ no_rewrite s
      | some value ↦ materialize ty result value s
    ]

  unfoldable pub materialize_zero : Dict TypeExpr → (result : ℕ) → Program bimap → Attempt bimap
  unfolding materialize_const pure_zero
  materialize_zero types result s = materialize_const types result pure_zero s

  unfoldable pub materialize_one : Dict TypeExpr → (result : ℕ) → Program bimap → Attempt bimap
  unfolding materialize_const pure_one
  materialize_one types result s = materialize_const types result pure_one s
