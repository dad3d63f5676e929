-- ===== src/Passes/SimplifyAsserts.antt =====
-- compiler/src/compiler/passes/simplify_asserts.rs: an assertion of a compound value becomes
-- assertions of its parts. A panic is `none`; so is the end of the fuel of `emit_assert`, which
-- follows definitions.
mod Equal
mod Sound
mod Keeps
mod Ends
mod Tests
use mavros.Prelude.{
  ℕ, zero, suc, Bool, true, false, Option, none, some, List, [], ◌∷◌, ◌++◌, if◌then◌else◌,
}
use mavros.Types.{
  TypeExpr, field, u, i, witness_of, array, slice, ref, tuple, function, ◌>>=◌, strip_witness,
}
use mavros.Range.Transfer.{BinaryArithOpKind, mul_op, and_op}
use mavros.Ssa.Dict.{Dict, get, insert}
use mavros.Ssa.Op.{OpCode, lt, eq, cmp, binary_arith_op, assert, assert_cmp, assert_r1c}
use mavros.Ssa.Op.Results.{get_results}
use mavros.Ssa.Function.{Function, Block, take_blocks, put_blocks}

-- `defs.insert` for each of these results of an instruction.
unfoldable pub insert_defs : List ℕ → OpCode → Dict OpCode → Dict OpCode
insert_defs [] op defs = defs
insert_defs (v ∷ vs) op defs = insert_defs vs op (insert v op defs)

unfoldable pub block_defs : List OpCode → Dict OpCode → Dict OpCode
unfolding insert_defs
block_defs [] defs = defs
block_defs (op ∷ ops) defs = block_defs ops (insert_defs (get_results op) op defs)

-- The loop that fills `defs`.
unfoldable pub collect_defs : Dict (Block OpCode TypeExpr) → Dict OpCode → Dict OpCode
unfolding block_defs
collect_defs [] defs = defs
collect_defs ((_, b) ∷ bs) defs = collect_defs bs (block_defs (b.instructions) defs)

abbrev pub is_field : TypeExpr → Bool
is_field field = true
is_field _ = false

-- `TypeExpr::U(1)`
abbrev pub is_bit : TypeExpr → Bool
is_bit (u (suc zero)) = true
is_bit _ = false

-- `extend` after two recursive calls.
unfoldable pub emit_both : Option (List OpCode) → Option (List OpCode) → Option (List OpCode)
emit_both left right = do out ← left; more ← right; some (out ++ more)

abbrev pub right_arm : (lhs rhs : ℕ) → Option (ℕ × ℕ) → Option (List OpCode)
right_arm lhs rhs (some (a, b)) = some (assert_r1c a b lhs ∷ [])
right_arm lhs rhs none = some (assert_cmp eq lhs rhs ∷ [])

module _ (defs : Dict OpCode) (types : Dict TypeExpr) where
  -- The factors of a value that is a product of field elements, where it is one.
  unfoldable pub field_factors : Option OpCode → Option (Option (ℕ × ℕ))
  field_factors (some (binary_arith_op mul_op result a b)) = do
    t ← get result types
    some (if is_field (strip_witness t) then some (a, b) else none)
  field_factors _ = some none

  -- The second `if let`, then the first.
  unfoldable pub left_arm : (lhs rhs : ℕ) → Option (ℕ × ℕ) → Option (List OpCode)
  unfolding field_factors
  left_arm lhs rhs (some (a, b)) = some (assert_r1c a b rhs ∷ [])
  left_arm lhs rhs none = do right ← field_factors (get rhs defs); right_arm lhs rhs right

  unfoldable pub emit_assert_eq : (lhs rhs : ℕ) → Option (List OpCode)
  unfolding left_arm field_factors
  emit_assert_eq lhs rhs = do left ← field_factors (get lhs defs); left_arm lhs rhs left

  -- The arms on the definition of the value. `go` is the recursive call.
  unfoldable pub emit_by :
      (go : ℕ → Option (List OpCode)) → (value : ℕ) → Option OpCode → Option (List OpCode)
  unfolding emit_assert_eq emit_both
  emit_by go value (some (cmp eq _ lhs rhs)) = emit_assert_eq lhs rhs
  emit_by go value (some (cmp lt _ lhs rhs)) = some (assert_cmp lt lhs rhs ∷ [])
  emit_by go value (some (binary_arith_op and_op result lhs rhs)) = do
    t ← get result types
    if is_bit (strip_witness t) then emit_both (go lhs) (go rhs) else some (assert value ∷ [])
  emit_by go value _ = some (assert value ∷ [])

  unfoldable pub emit_assert : (fuel value : ℕ) → Option (List OpCode)
  unfolding emit_by
  emit_assert zero value = none
  emit_assert (suc n) value = emit_by (emit_assert n) value (get value defs)

  -- The match on one instruction.
  unfoldable pub simplify : (fuel : ℕ) → OpCode → Option (List OpCode)
  unfolding emit_assert emit_assert_eq
  simplify fuel (assert value) = emit_assert fuel value
  simplify fuel (assert_cmp eq lhs rhs) = emit_assert_eq lhs rhs
  simplify fuel instruction = some (instruction ∷ [])

  unfoldable pub simplify_instructions : (fuel : ℕ) → List OpCode → Option (List OpCode)
  unfolding simplify
  simplify_instructions fuel [] = some []
  simplify_instructions fuel (op ∷ ops) = do
    new ← simplify fuel op
    rest ← simplify_instructions fuel ops
    some (new ++ rest)

  unfoldable pub simplify_blocks :
      (fuel : ℕ) → Dict (Block OpCode TypeExpr) → Option (Dict (Block OpCode TypeExpr))
  unfolding simplify_instructions
  simplify_blocks fuel [] = some []
  simplify_blocks fuel ((n, b) ∷ bs) = do
    new ← simplify_instructions fuel (b.instructions)
    rest ← simplify_blocks fuel bs
    some ((n, record b { instructions = new }) ∷ rest)

-- The body of the loop over the functions.
unfoldable pub simplify_asserts :
    (fuel : ℕ)
    → (types : Dict TypeExpr) → Function OpCode TypeExpr
    → Option (Function OpCode TypeExpr)
unfolding collect_defs simplify_blocks
simplify_asserts fuel types f = do
  bs ← simplify_blocks (collect_defs (f.blocks) []) types fuel (f.blocks)
  some (record f { blocks = bs })
