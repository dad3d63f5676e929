-- ===== src/Ssa/Program/Duplicate/Values.antt =====
-- The values of a renamed function (compiler/src/compiler/ssa/mod.rs, `duplicate_function`).
use mavros.Prelude.{ℕ, ◌≡◌, refl, ap, Option, none, some, List, [], ◌∷◌, map, map-++}
use mavros.Ssa.Dict.{Dict}
use mavros.Ssa.Instruction.{Instruction}
use mavros.Ssa.Function.{Block, Terminator, jmp, jmp_if, return_values}
use mavros.Ssa.Program.Duplicate.{
  terminator_values, map_terminator, parameter_values, map_parameters, instruction_values, all_ids,
  map_block, map_blocks,
}

terminator_values-map_terminator :
    (f : ℕ → ℕ) (t : Option Terminator)
    → terminator_values (map_terminator f t) ≡ map f (terminator_values t)
unfolding terminator_values map_terminator
terminator_values-map_terminator f none = refl
terminator_values-map_terminator f (some (jmp _ _)) = refl
terminator_values-map_terminator f (some (jmp_if _ _ _)) = refl
terminator_values-map_terminator f (some (return_values _)) = refl

parameter_values-map_parameters :
    {Ty : Type 0} (f : ℕ → ℕ) (ps : List (ℕ × Ty))
    → parameter_values (map_parameters f ps) ≡ map f (parameter_values ps)
unfolding parameter_values map_parameters
parameter_values-map_parameters f [] = refl
parameter_values-map_parameters f ((v, _) ∷ ps) =
    ap (λ vs. f v ∷ vs) (parameter_values-map_parameters f ps)

module _ {Op : Type 0} (instr : Instruction Op) where
  instruction_values-map :
      (f : ℕ → ℕ) (ops : List Op)
      → instruction_values instr (map (instr.map_operands f) ops)
        ≡ map f (instruction_values instr ops)
  unfolding instruction_values
  instruction_values-map f [] = refl
  instruction_values-map f (op ∷ ops) = simp (
    instr.get_inputs-map_operands,
    instr.get_results-map_operands,
    map-++,
    instruction_values-map f ops,
  )

  -- The values of the renamed blocks are the renamed values, in the same order.
  pub all_ids-map_blocks :
      {Ty : Type 0} (f : ℕ → ℕ) (bs : Dict (Block Op Ty))
      → all_ids instr (map_blocks instr f bs) ≡ map f (all_ids instr bs)
  unfolding all_ids map_blocks map_block
  all_ids-map_blocks f [] = refl
  all_ids-map_blocks f ((_, b) ∷ bs) = simp (
    parameter_values-map_parameters,
    instruction_values-map,
    terminator_values-map_terminator,
    map-++,
    all_ids-map_blocks f bs,
  )
