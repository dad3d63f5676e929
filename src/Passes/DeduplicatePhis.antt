-- ===== src/Passes/DeduplicatePhis.antt =====
-- compiler/src/compiler/passes/deduplicate_phis.rs: blocks that jump to one place with the same
-- arguments do so through one new block. A panic is `none`; the groups are taken in the order of the
-- list that stands for the `HashMap`.
mod Forward
mod Refine
mod Tests
use mavros.Prelude.{
  ℕ, Bool, true, false, ◌&&◌, Option, none, some, List, [], ◌∷◌, ◌++◌, ◌==◌, leb, if◌then◌else◌,
  length,
}
use mavros.Types.{◌>>=◌}
use mavros.Ssa.Dict.{Dict}
use mavros.Ssa.Function.{
  Block, Function, Terminator, jmp, jmp_if, return_values, add_block, terminate_block_with_jmp,
}

-- A target with its arguments, and the blocks that jump there so.
abbrev pub Group : Type 0
Group = (ℕ × List ℕ) × List ℕ

unfoldable pub ids_eq : List ℕ → List ℕ → Bool
ids_eq [] [] = true
ids_eq (v ∷ vs) (w ∷ ws) = v == w && ids_eq vs ws
ids_eq _ _ = false

-- `entry(…).or_insert(vec![]).push(…)`
unfoldable pub push_entry : ℕ → List ℕ → ℕ → List Group → List Group
unfolding ids_eq
push_entry target args b [] = ((target, args), b ∷ []) ∷ []
push_entry target args b (g ∷ gs) =
    if target == g.0.0 && ids_eq args (g.0.1)
    then (g.0, g.1 ++ b ∷ []) ∷ gs
    else g ∷ push_entry target args b gs

unfoldable pub collect_one : ℕ → Option Terminator → List Group → List Group
unfolding push_entry
collect_one b (some (jmp target (v ∷ vs))) gs = push_entry target (v ∷ vs) b gs
collect_one _ _ gs = gs

module _ {Op Ty : Type 0} where
  unfoldable pub collect : Dict (Block Op Ty) → List Group → List Group
  unfolding collect_one
  collect [] gs = gs
  collect ((b, block) ∷ bs) gs = collect bs (collect_one b (block.terminator) gs)

  unfoldable pub redirect : List ℕ → ℕ → Function Op Ty → Option (Function Op Ty)
  unfolding terminate_block_with_jmp
  redirect [] n f = some f
  redirect (b ∷ bs) n f = do g ← terminate_block_with_jmp b n [] f; redirect bs n g

  -- A group of two blocks or more.
  unfoldable pub unify : Group → Function Op Ty → Option (Function Op Ty)
  unfolding add_block redirect
  unify g f = do
    (n, grown) ← add_block f
    ready ← terminate_block_with_jmp n (g.0.0) (g.0.1) grown
    redirect (g.1) n ready

  unfoldable pub unify_all : List Group → Function Op Ty → Option (Function Op Ty)
  unfolding unify
  unify_all [] f = some f
  unify_all (g ∷ gs) f = do
    next ← if leb (length (g.1)) 1 then some f else unify g f
    unify_all gs next

  unfoldable pub deduplicate_function : Function Op Ty → Option (Function Op Ty)
  unfolding collect unify_all
  deduplicate_function f = unify_all (collect (f.blocks) []) f

  unfoldable pub deduplicate_functions : Dict (Function Op Ty) → Option (Dict (Function Op Ty))
  unfolding deduplicate_function
  deduplicate_functions [] = some []
  deduplicate_functions ((n, f) ∷ fs) = do
    g ← deduplicate_function f
    rest ← deduplicate_functions fs
    some ((n, g) ∷ rest)
