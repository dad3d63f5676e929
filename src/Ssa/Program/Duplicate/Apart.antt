-- ===== src/Ssa/Program/Duplicate/Apart.antt =====
-- `duplicate_function` (compiler/src/compiler/ssa/mod.rs): the copy beside the other functions.
use mavros.Prelude.{
  ℕ, suc, ◌+◌, ◌^◌, ◌<◌, ◌≡◌, ◌≢◌, ◌∙◌, refl, none, some, map, length, inl, inr, Option-cases,
  arith,
}
use mavros.Ssa.Dict.{get-insert_self, get-insert_ne}
use mavros.Ssa.Instruction.{Instruction}
use mavros.Ssa.Function.{Function}
use mavros.Ssa.BiMap.{BiMap}
use mavros.Ssa.Program.{Ssa, get_function}
use mavros.Ssa.Program.Constants.{IsWf}
use mavros.Ssa.Program.Duplicate.{all_ids, duplicate_function}
use mavros.Ssa.Program.Duplicate.Values.{all_ids-map_blocks}
use mavros.Ssa.Program.Duplicate.Copy.{renaming, renamed, with_copy, duplicate_function_lem}

pub unused :
    {Op Ty C : Type 0} {bimap : BiMap C} (s : Ssa Op Ty bimap)
    → IsWf s
    → get_function (s.next_function_id) s ≡ none
unused s wf = elim (Option-cases (get_function (s.next_function_id) s)) [
  | inl e ↦ e
  | inr (f, e) ↦ absurd (omega (arith, wf.functions_below (s.next_function_id) f e))
]

module _ {Op Ty C : Type 0} {bimap : BiMap C} (instr : Instruction Op) where
  -- In a well-formed program with identifiers for one more function and for as many values as a
  -- function has, the function is duplicated: the copy stands under an identifier that no function
  -- had, its parameters, instructions and terminators have the values of the function's in the same
  -- order, renamed, every function of the program stays as it was, and so do the constants.
  pub duplicate_function_apart :
      (n k : ℕ) (f h : Function Op Ty) (s : Ssa Op Ty bimap)
      → IsWf s
      → get_function n s ≡ some f
      → suc (s.next_function_id) < 2 ^ 64
      → s.next_value_id + length (all_ids instr (f.blocks)) < 2 ^ 64
      → get_function k s ≡ some h
      → (t : Ssa Op Ty bimap) × (m : ℕ) × (g : Function Op Ty) × (duplicate_function instr n s
          ≡ some (m, t))
        × (get_function m s ≡ none)
        × (get_function m t ≡ some g)
        × (all_ids instr (g.blocks) ≡ map (renaming instr f s) (all_ids instr (f.blocks)))
        × (get_function k t ≡ some h)
        × (t.constants ≡ s.constants)
  duplicate_function_apart n k f h s wf e b room there =
      let apart : k ≢ s.next_function_id = λ q. omega (arith, wf.functions_below k h there, q) in
      (
        with_copy instr f s,
        s.next_function_id,
        renamed instr f s,
        duplicate_function_lem instr n f s e b room,
        unused s wf,
        get-insert_self (s.next_function_id) (renamed instr f s) (s.functions),
        all_ids-map_blocks instr (renaming instr f s) (f.blocks),
        get-insert_ne k (s.next_function_id) (renamed instr f s) (s.functions) apart ∙ there,
        refl,
      )
