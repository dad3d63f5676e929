-- ===== src/Passes/Replacements/Tests.antt =====
-- A chain of two replacements in a block.
use mavros.Prelude.{ℕ, ◌≡◌, refl, none, some, [], ◌∷◌}
use mavros.Types.{TypeExpr, field}
use mavros.Range.Transfer.{add_op}
use mavros.Ssa.Op.{OpCode, binary_arith_op}
use mavros.Ssa.Op.Inputs.{get_inputs}
use mavros.Ssa.Op.Results.{get_results}
use mavros.Ssa.Op.Mutate.{map_operands}
use mavros.Ssa.Function.{Function, return_values}
use mavros.Passes.Replacements.{
  ValueReplacements, follow, get_replacement, replace_all, replaced, replace_instruction,
  replace_terminator, replace_in, apply_to_block, apply_to_blocks, apply_to_function,
}
use mavros.Passes.Replacements.Chain.{IsFinal, get_replacement_complete, get_replacement-IsFinal}
use mavros.Passes.Replacements.Applied.{AllFinal, body_values, apply_to_function-AllFinal}

abbrev chain : ValueReplacements
chain = (1, 2) ∷ (2, 3) ∷ []

-- A cycle of two values panics.
cycle : get_replacement ((1, 2) ∷ (2, 1) ∷ []) 1 ≡ none
unfolding get_replacement follow
cycle = refl

get_replacement_complete_example : get_replacement chain 1 ≡ some 3
unfolding follow
get_replacement_complete_example = get_replacement_complete 9 chain 1 3 refl

get_replacement-IsFinal_example : IsFinal chain 3 × (get_replacement chain 3 ≡ some 3)
unfolding get_replacement follow
get_replacement-IsFinal_example = get_replacement-IsFinal chain 1 3 refl

abbrev single_block : ℕ → ℕ → Function OpCode TypeExpr
single_block v w = record {
  entry_block = 0;
  blocks =
      (
        0,
        record {
          parameters = (v, field) ∷ [];
          instructions = binary_arith_op add_op 4 w w ∷ [];
          terminator = some (return_values (4 ∷ w ∷ []));
        },
      )
      ∷ [];
  name = "single_block";
  returns = field ∷ [];
  next_block = 1;
}

apply_to_function-AllFinal_example :
    AllFinal chain (body_values ((single_block 1 3).blocks))
    × ((single_block 1 3).entry_block ≡ (single_block 1 1).entry_block)
    × ((single_block 1 3).returns ≡ (single_block 1 1).returns)
unfolding apply_to_function apply_to_blocks apply_to_block replace_in replace_instruction
    replace_terminator replace_all replaced get_replacement follow get_inputs get_results
    map_operands
apply_to_function-AllFinal_example =
    apply_to_function-AllFinal chain (single_block 1 1) (single_block 1 3) refl
