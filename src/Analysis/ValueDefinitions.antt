-- ===== src/Analysis/ValueDefinitions.antt =====
-- compiler/src/compiler/analysis/value_definitions.rs: where each value of a function is defined.
use mavros.Prelude.{ℕ, suc, Option, List, [], ◌∷◌}
use mavros.Types.{TypeExpr}
use mavros.Ssa.Dict.{Dict, get, insert}
use mavros.Ssa.Op.{OpCode}
use mavros.Ssa.Op.Results.{get_results}
use mavros.Ssa.Function.{Block, Function}

pub data ValueDefinition : Type 0 where
  param : (block index : ℕ) → TypeExpr → ValueDefinition
  instruction : (block index : ℕ) → OpCode → ValueDefinition

abbrev pub FunctionValueDefinitions : Type 0
FunctionValueDefinitions = Dict ValueDefinition

abbrev pub get_definition : ℕ → FunctionValueDefinitions → Option ValueDefinition
get_definition v defs = get v defs

abbrev pub insert_definition :
    ℕ → ValueDefinition → FunctionValueDefinitions → FunctionValueDefinitions
insert_definition v definition defs = insert v definition defs

-- The loop over the parameters, from an index on.
unfoldable pub param_definitions :
    (block index : ℕ) → List (ℕ × TypeExpr) → FunctionValueDefinitions → FunctionValueDefinitions
param_definitions b n [] defs = defs
param_definitions b n ((v, t) ∷ ps) defs =
    param_definitions b (suc n) ps (insert_definition v (param b n t) defs)

-- The loop over the results of one instruction.
unfoldable pub result_definitions :
    List ℕ → ValueDefinition → FunctionValueDefinitions → FunctionValueDefinitions
result_definitions [] d defs = defs
result_definitions (v ∷ vs) d defs = result_definitions vs d (insert_definition v d defs)

unfoldable pub instruction_definitions :
    (block index : ℕ) → List OpCode → FunctionValueDefinitions → FunctionValueDefinitions
unfolding result_definitions
instruction_definitions b n [] defs = defs
instruction_definitions b n (op ∷ ops) defs =
    instruction_definitions b (suc n) ops
      (result_definitions (get_results op) (instruction b n op) defs)

unfoldable pub block_definitions :
    Dict (Block OpCode TypeExpr) → FunctionValueDefinitions → FunctionValueDefinitions
unfolding param_definitions instruction_definitions
block_definitions [] defs = defs
block_definitions ((n, b) ∷ bs) defs =
    block_definitions bs
      (instruction_definitions n 0 (b.instructions) (param_definitions n 0 (b.parameters) defs))

unfoldable pub from_function : Function OpCode TypeExpr → FunctionValueDefinitions
unfolding block_definitions
from_function f = block_definitions (f.blocks) []
