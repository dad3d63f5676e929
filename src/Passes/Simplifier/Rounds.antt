-- ===== src/Passes/Simplifier/Rounds.antt =====
-- The loops of the simplifier (compiler/src/compiler/passes/simplifier.rs). A block's instructions are
-- taken in the order of the function's table of blocks.
use mavros.Prelude.{map, ℕ, zero, suc, Bool, true, false, Option, none, some, List, [], ◌∷◌, ◌++◌}
use mavros.Prelude.Field.{Field}
use mavros.Types.{TypeExpr, ◌>>=◌}
use mavros.Analysis.ValueDefinitions.{FunctionValueDefinitions, from_function}
use mavros.Ssa.Dict.{Dict}
use mavros.Ssa.Constant.{Constant}
use mavros.Ssa.Op.{OpCode}
use mavros.Ssa.BiMap.{BiMap}
use mavros.Ssa.Function.{Block, Function}
use mavros.Ssa.Program.{take_function, put_function}
use mavros.Passes.Replacements.{
  ValueReplacements, insert_replacement, replace_inputs, inputs, apply_to_function,
}
use mavros.Passes.Simplifier.{Program, Rewrite, alias, replace}
use mavros.Passes.Simplifier.Algebraic.{try_algebraic}

-- What the loop over the instructions carries along.
pub record Round {F : Field} (bimap : BiMap (Constant F)) : Type 0 where
  pub ssa : Program bimap
  pub aliases : ValueReplacements
  pub changed : Bool

module _ {F : Field} {bimap : BiMap (Constant F)} where
  -- The match on the rewrite: the instructions that go into the block.
  unfoldable pub apply_rewrite : OpCode → Option Rewrite → Round bimap → List OpCode × Round bimap
  apply_rewrite op (some (alias result target)) r =
      ([], record r { aliases = insert_replacement result target (r.aliases); changed = true })
  apply_rewrite op (some (replace new_ops)) r = (new_ops, record r { changed = true })
  apply_rewrite op none r = (op ∷ [], r)

  module _ (defs : FunctionValueDefinitions) (types : Dict TypeExpr) where
    unfoldable pub run_instruction : OpCode → Round bimap → Option (List OpCode × Round bimap)
    unfolding replace_inputs try_algebraic apply_rewrite
    run_instruction op r = do
      op1 ← replace_inputs (r.aliases) op
      (rewrite, ssa) ← try_algebraic defs types op1 (r.ssa)
      some (apply_rewrite op1 rewrite (record r { ssa = ssa }))

    unfoldable pub run_instructions : List OpCode → Round bimap → Option (List OpCode × Round bimap)
    unfolding run_instruction
    run_instructions [] r = some ([], r)
    run_instructions (op ∷ ops) r = do
      (new, r1) ← run_instruction op r
      (rest, r2) ← run_instructions ops r1
      some (new ++ rest, r2)

    unfoldable pub run_blocks :
        Dict (Block OpCode TypeExpr)
        → Round bimap
        → Option (Dict (Block OpCode TypeExpr) × Round bimap)
    unfolding run_instructions
    run_blocks [] r = some ([], r)
    run_blocks ((n, b) ∷ bs) r = do
      (ops, r1) ← run_instructions (b.instructions) r
      (rest, r2) ← run_blocks bs r1
      some ((n, record b { instructions = ops }) ∷ rest, r2)

  -- The function, the program with the constants added, and whether anything changed.
  unfoldable pub run_function :
      Dict TypeExpr
      → Function OpCode TypeExpr
      → Program bimap
      → Option (Bool × (Function OpCode TypeExpr × Program bimap))
  unfolding from_function run_blocks apply_to_function
  run_function types f s = do
    (bs, r) ←
        run_blocks (from_function f) types (f.blocks)
          (record { ssa = s; aliases = []; changed = false })
    g ← apply_to_function inputs (r.aliases) (record f { blocks = bs })
    some (r.changed, (g, r.ssa))

  -- The loop of `do_run` for one function. `infer` is the inference of types.
  unfoldable pub iterate :
      (Function OpCode TypeExpr → Program bimap → Option (Dict TypeExpr))
      → (max_iterations : ℕ) → Function OpCode TypeExpr
      → Program bimap
      → Option (Function OpCode TypeExpr × Program bimap)
  unfolding run_function
  iterate infer zero f s = some (f, s)
  iterate infer (suc n) f s = do
    types ← infer f s
    (changed, (g, s1)) ← run_function types f s
    elim changed [ true ↦ iterate infer n g s1 | false ↦ some (g, s1) ]

  -- The loop of `do_run` over the functions, each of which `modify_function` takes out of the program
  -- and puts back.
  unfoldable pub run_functions :
      (infer : (function_id : ℕ)
        → Function OpCode TypeExpr
        → Program bimap
        → Option (Dict TypeExpr))
      → (max_iterations : ℕ) → List ℕ
      → Program bimap
      → Option (Program bimap)
  unfolding iterate take_function
  run_functions infer max_iterations [] s = some s
  run_functions infer max_iterations (function_id ∷ fids) s = do
    (f, s1) ← take_function function_id s
    (g, s2) ← iterate (infer function_id) max_iterations f s1
    run_functions infer max_iterations fids (put_function function_id g s2)

  unfoldable pub do_run :
      (infer : (function_id : ℕ)
        → Function OpCode TypeExpr
        → Program bimap
        → Option (Dict TypeExpr))
      → (max_iterations : ℕ) → Program bimap
      → Option (Program bimap)
  unfolding run_functions
  do_run infer max_iterations s =
      run_functions infer max_iterations (map (λ entry. entry.0) (s.functions)) s
