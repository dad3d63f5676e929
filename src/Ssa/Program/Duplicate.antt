-- ===== src/Ssa/Program/Duplicate.antt =====
-- `SSA::duplicate_function` (compiler/src/compiler/ssa/mod.rs): a copy of a function under a new
-- identifier, in which every value that is no constant has a fresh identifier.
mod Values
mod Fresh
pub mod Copy
pub mod Apart
use mavros.Prelude.{
  ℕ, Bool, true, false, ◌||◌, Option, none, some, List, [], ◌∷◌, ◌++◌, map, if◌then◌else◌,
}
use mavros.Types.{◌>>=◌}
use mavros.Ssa.Dict.{Dict, get, insert, contains_key}
use mavros.Ssa.Instruction.{Instruction}
use mavros.Ssa.Function.{Block, Function, Terminator, jmp, jmp_if, return_values}
use mavros.Ssa.BiMap.{BiMap}
use mavros.Ssa.Program.{Ssa, fresh_value, is_const, insert_function}

-- The values a terminator reads.
unfoldable pub terminator_values : Option Terminator → List ℕ
terminator_values none = []
terminator_values (some (jmp _ args)) = args
terminator_values (some (jmp_if cond _ _)) = cond ∷ []
terminator_values (some (return_values vs)) = vs

unfoldable pub map_terminator : (ℕ → ℕ) → Option Terminator → Option Terminator
map_terminator f none = none
map_terminator f (some (jmp b args)) = some (jmp b (map f args))
map_terminator f (some (jmp_if cond x y)) = some (jmp_if (f cond) x y)
map_terminator f (some (return_values vs)) = some (return_values (map f vs))

module _ {Ty : Type 0} where
  unfoldable pub parameter_values : List (ℕ × Ty) → List ℕ
  parameter_values [] = []
  parameter_values ((v, _) ∷ ps) = v ∷ parameter_values ps

  unfoldable pub map_parameters : (ℕ → ℕ) → List (ℕ × Ty) → List (ℕ × Ty)
  map_parameters f [] = []
  map_parameters f ((v, t) ∷ ps) = (f v, t) ∷ map_parameters f ps

module _ {Op : Type 0} (instr : Instruction Op) where
  unfoldable pub instruction_values : List Op → List ℕ
  instruction_values [] = []
  instruction_values (op ∷ ops) =
      instr.get_inputs op ++ (instr.get_results op ++ instruction_values ops)

  module _ {Ty : Type 0} where
    -- Phase 1: every value of the blocks, in the order of the loop.
    unfoldable pub all_ids : Dict (Block Op Ty) → List ℕ
    unfolding terminator_values parameter_values instruction_values
    all_ids [] = []
    all_ids ((_, b) ∷ bs) =
        parameter_values (b.parameters)
        ++ (instruction_values (b.instructions) ++ (terminator_values (b.terminator) ++ all_ids bs))

    -- Phase 2: `f` of every value.
    unfoldable pub map_block : (ℕ → ℕ) → Block Op Ty → Block Op Ty
    unfolding map_terminator map_parameters
    map_block f b = record {
      parameters = map_parameters f (b.parameters);
      instructions = map (instr.map_operands f) (b.instructions);
      terminator = map_terminator f (b.terminator);
    }

    unfoldable pub map_blocks : (ℕ → ℕ) → Dict (Block Op Ty) → Dict (Block Op Ty)
    unfolding map_block
    map_blocks f [] = []
    map_blocks f ((n, b) ∷ bs) = (n, map_block f b) ∷ map_blocks f bs

-- `remap`, as the replacement it makes.
unfoldable pub replacement : Dict ℕ → ℕ → ℕ
replacement remap v = elim (get v remap) [ some w ↦ w | none ↦ v ]

module _ {Op Ty C : Type 0} {bimap : BiMap C} where
  -- One round of the loop that fills `remap`.
  unfoldable pub allocate_one : ℕ → Dict ℕ → Ssa Op Ty bimap → Dict ℕ × Ssa Op Ty bimap
  unfolding fresh_value is_const
  allocate_one v remap s =
      let fresh = fresh_value s in
      if contains_key v remap || is_const v s
      then (remap, s)
      else (insert v (fresh.0) remap, fresh.1)

  -- A fresh identifier for each value that is no constant, once.
  unfoldable pub allocate : List ℕ → Dict ℕ → Ssa Op Ty bimap → Dict ℕ × Ssa Op Ty bimap
  unfolding allocate_one
  allocate [] remap s = (remap, s)
  allocate (v ∷ vs) remap s = let next = allocate_one v remap s in allocate vs (next.0) (next.1)

  unfoldable pub duplicate_function :
      Instruction Op → ℕ → Ssa Op Ty bimap → Option (ℕ × Ssa Op Ty bimap)
  unfolding all_ids map_blocks allocate insert_function
  duplicate_function instr n s = do
    f ← get n (s.functions)
    let allocated = allocate (all_ids instr (f.blocks)) [] s
    let copy = record f { blocks = map_blocks instr (replacement (allocated.0)) (f.blocks) }
    insert_function copy (allocated.1)
