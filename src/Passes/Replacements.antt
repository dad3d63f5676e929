-- ===== src/Passes/Replacements.antt =====
-- `ValueReplacements` (compiler/src/compiler/passes/fix_double_jumps.rs): values that stand for others.
-- A panic is `none`.
mod Chain
mod Applied
mod Tests
use mavros.Prelude.{
  ℕ, zero, suc, Bool, true, false, ◌&&◌, Option, none, some, List, [], ◌∷◌, ◌++◌, map, ◌==◌,
  if◌then◌else◌, length,
}
use mavros.Types.{TypeExpr, ◌>>=◌}
use mavros.Ssa.Dict.{Dict, get, insert}
use mavros.Ssa.Op.{OpCode}
use mavros.Ssa.Op.Inputs.{get_inputs}
use mavros.Ssa.Op.Results.{get_results}
use mavros.Ssa.Op.Mutate.{map_inputs, map_operands}
use mavros.Ssa.Function.{Block, Function, Terminator, jmp, jmp_if, return_values}

abbrev pub ValueReplacements : Type 0
ValueReplacements = Dict ℕ

abbrev pub insert_replacement : (replaced replacement : ℕ) → ValueReplacements → ValueReplacements
insert_replacement v w r = insert v w r

-- The loop of `get_replacement`, with the rounds that are left.
unfoldable pub follow : ℕ → ValueReplacements → ℕ → Option ℕ
follow zero r v = none
follow (suc n) r v = elim (get v r) [
  | none ↦ some v
  | some next ↦ if next == v then some v else follow n r next
]

unfoldable pub get_replacement : ValueReplacements → ℕ → Option ℕ
unfolding follow
get_replacement r v = follow (suc (length r)) r v

-- `get_replacement` of each value of a vector.
unfoldable pub replace_all : ValueReplacements → List ℕ → Option (List ℕ)
unfolding get_replacement
replace_all r [] = some []
replace_all r (v ∷ vs) = do w ← get_replacement r v; ws ← replace_all r vs; some (w ∷ ws)

-- The value that takes the place of another, where the loop ends.
unfoldable pub replaced : ValueReplacements → ℕ → ℕ
unfolding get_replacement
replaced r v = elim (get_replacement r v) [ none ↦ v | some w ↦ w ]

-- A loop over mutable operands panics if it does at any of them, and else replaces all.
unfoldable pub replace_instruction : ValueReplacements → OpCode → Option OpCode
unfolding replace_all replaced
replace_instruction r op = do
  _ ← replace_all r (get_inputs op ++ get_results op)
  some (map_operands (replaced r) op)

unfoldable pub replace_inputs : ValueReplacements → OpCode → Option OpCode
unfolding replace_all replaced
replace_inputs r op = do _ ← replace_all r (get_inputs op); some (map_inputs (replaced r) op)

unfoldable pub replace_terminator : ValueReplacements → Terminator → Option Terminator
unfolding replace_all get_replacement
replace_terminator r (jmp b params) = do ws ← replace_all r params; some (jmp b ws)
replace_terminator r (jmp_if cond x y) = do w ← get_replacement r cond; some (jmp_if w x y)
replace_terminator r (return_values vals) = do ws ← replace_all r vals; some (return_values ws)

pub data ReplaceScope : Type 0 where
  inputs : ReplaceScope
  operands : ReplaceScope

unfoldable pub replace_in : ReplaceScope → ValueReplacements → List OpCode → Option (List OpCode)
unfolding replace_inputs replace_instruction
replace_in scope r [] = some []
replace_in scope r (op ∷ ops) = do
  new ← elim scope [ inputs ↦ replace_inputs r op | operands ↦ replace_instruction r op ]
  rest ← replace_in scope r ops
  some (new ∷ rest)

-- One block; a block without a terminator panics.
unfoldable pub apply_to_block :
    ReplaceScope → ValueReplacements → Block OpCode TypeExpr → Option (Block OpCode TypeExpr)
unfolding replace_in replace_terminator
apply_to_block scope r b = do
  ops ← replace_in scope r (b.instructions)
  old ← b.terminator
  new ← replace_terminator r old
  some (record b { instructions = ops; terminator = some new })

unfoldable pub apply_to_blocks :
    ReplaceScope
    → ValueReplacements
    → Dict (Block OpCode TypeExpr)
    → Option (Dict (Block OpCode TypeExpr))
unfolding apply_to_block
apply_to_blocks scope r [] = some []
apply_to_blocks scope r ((n, b) ∷ bs) = do
  new ← apply_to_block scope r b
  rest ← apply_to_blocks scope r bs
  some ((n, new) ∷ rest)

unfoldable pub apply_to_function :
    ReplaceScope → ValueReplacements → Function OpCode TypeExpr → Option (Function OpCode TypeExpr)
unfolding apply_to_blocks
apply_to_function scope r f = do
  bs ← apply_to_blocks scope r (f.blocks)
  some (record f { blocks = bs })
