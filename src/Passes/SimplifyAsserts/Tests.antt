-- ===== src/Passes/SimplifyAsserts/Tests.antt =====
-- A function that asserts a conjunction, and one assignment that satisfies it.
use mavros.Prelude.{ℕ, ◌≡◌, refl, ◌↔◌, some, List, [], ◌∷◌, ◌==◌, if◌then◌else◌, arith}
use mavros.Prelude.Field.{gf3}
use mavros.Types.{TypeExpr, u, strip_witness}
use mavros.Range.Transfer.{and_op}
use mavros.Ssa.Dict.{Dict}
use mavros.Ssa.Constant.{u_const}
use mavros.Ssa.Op.{OpCode, eq, cmp, binary_arith_op, assert, assert_cmp}
use mavros.Ssa.Function.{Function, return_values}
use mavros.Ssa.Op.Results.{get_results}
use mavros.Ssa.Meaning.{Assignment, has_type, IsTyped}
use mavros.Ssa.Meaning.Lists.{BlocksHold}
use mavros.Ssa.Meaning.Instance.{scalars}
use mavros.Passes.SimplifyAsserts.{
  simplify_asserts, simplify_blocks, simplify_instructions, simplify, emit_assert, emit_by,
  emit_both, emit_assert_eq, left_arm, field_factors, collect_defs, block_defs, insert_defs,
}
use mavros.Passes.SimplifyAsserts.Keeps.{simplify_asserts-BlocksHold}
use mavros.Passes.SimplifyAsserts.Ends.{Returns, IsRanked, simplify_asserts-Returns}

-- v2 is v0 == v1, v3 is v2 & v0.
abbrev with_terminator : List OpCode → Function OpCode TypeExpr
with_terminator ops = record {
  entry_block = 0;
  blocks =
      (0, record { parameters = []; instructions = ops; terminator = some (return_values []) })
      ∷ [];
  name = "main";
  returns = [];
  next_block = 1;
}

abbrev conjunction : Function OpCode TypeExpr
conjunction = with_terminator (cmp eq 2 0 1 ∷ binary_arith_op and_op 3 2 0 ∷ assert 3 ∷ [])

abbrev simplified : Function OpCode TypeExpr
simplified =
    with_terminator
      (cmp eq 2 0 1 ∷ binary_arith_op and_op 3 2 0 ∷ assert_cmp eq 0 1 ∷ assert 0 ∷ [])

abbrev bits : Dict TypeExpr
bits = (0, u 1) ∷ (1, u 1) ∷ (2, u 1) ∷ (3, u 1) ∷ []

abbrev ones : Assignment gf3
ones v = u_const 1 1

-- A conjunction of an equality and a bit becomes one assertion for each.
simplify-conjunction : simplify_asserts 3 bits conjunction ≡ some simplified
unfolding simplify_asserts collect_defs block_defs insert_defs get_results simplify_blocks
    simplify_instructions simplify emit_assert emit_by emit_both emit_assert_eq left_arm
    field_factors strip_witness
simplify-conjunction = refl

ones-IsTyped : IsTyped bits ones
unfolding has_type strip_witness
ones-IsTyped v t h = ground (arith, h)

simplify_asserts-BlocksHold_example :
    BlocksHold scalars ones (simplified.blocks) ↔ BlocksHold scalars ones (conjunction.blocks)
simplify_asserts-BlocksHold_example =
    simplify_asserts-BlocksHold scalars ones bits 3 conjunction simplified ones-IsTyped
      simplify-conjunction

abbrev rank : ℕ → ℕ
rank v = if v == 3 then 1 else 0

conjunction-IsRanked : IsRanked (collect_defs (conjunction.blocks) []) bits rank
unfolding collect_defs block_defs insert_defs get_results
conjunction-IsRanked = record {
  product_typed = λ v r a b h. ground (arith, h);
  conjunction_typed = λ v r a b h. (u 1, ground (arith, h));
  left_below = λ v r a b h. ground (arith, h);
  right_below = λ v r a b h. ground (arith, h);
}

simplify_asserts-Returns_example : Returns (simplify_asserts 3 bits conjunction)
simplify_asserts-Returns_example =
    simplify_asserts-Returns bits rank 3 conjunction conjunction-IsRanked (λ v. ground arith)
