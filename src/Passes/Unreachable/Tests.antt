-- ===== src/Passes/Unreachable/Tests.antt =====
-- A function of two blocks, of which only the entry is reachable.
use mavros.Ssa.Function.{Function, return_values, jmp, get_block}
use mavros.Prelude.{ℕ, ◌≡◌, refl, none, some, [], ◌∷◌, if◌then◌else◌}
use mavros.Types.{TypeExpr}
use mavros.Ssa.Op.{OpCode}
use mavros.Passes.Unreachable.{remove_unreachable_blocks, is_in, keys}
use mavros.Passes.Unreachable.Kept.{Distinct, remove_unreachable_blocks_lem}

abbrev two_blocks : Function OpCode TypeExpr
two_blocks = record {
  entry_block = 0;
  blocks =
      (0, record { parameters = []; instructions = []; terminator = some (return_values []) })
      ∷ (1, record { parameters = []; instructions = []; terminator = some (jmp 0 []) })
      ∷ [];
  name = "two_blocks";
  returns = [];
  next_block = 2;
}

two_blocks-Distinct : Distinct (keys (two_blocks.blocks))
unfolding keys is_in
two_blocks-Distinct = (refl, (refl, tt))

remove_unreachable_blocks_lem_example :
    (g : Function OpCode TypeExpr) × (remove_unreachable_blocks (0 ∷ []) two_blocks ≡ some g)
    × ((n : ℕ) → get_block n g ≡ (if is_in (0 ∷ []) n then get_block n two_blocks else none))
remove_unreachable_blocks_lem_example =
    remove_unreachable_blocks_lem (0 ∷ []) two_blocks two_blocks-Distinct
