-- ===== src/Passes/Unreachable.antt =====
-- compiler/src/compiler/passes/remove_unreachable_blocks.rs and remove_unreachable_functions.rs. What
-- the control-flow analysis found reachable is an argument, as a list of identifiers; a panic is
-- `none`.
mod Kept
mod Tests
use mavros.Prelude.{ℕ, Bool, true, false, Option, none, some, List, [], ◌∷◌, ◌==◌, if◌then◌else◌}
use mavros.Types.{◌>>=◌}
use mavros.Ssa.Dict.{Dict}
use mavros.Ssa.Function.{Function, take_block}
use mavros.Ssa.BiMap.{BiMap}
use mavros.Ssa.Program.{Ssa, delete_function}

-- `HashSet::contains`
unfoldable pub is_in : List ℕ → ℕ → Bool
is_in [] n = false
is_in (m ∷ ms) n = if n == m then true else is_in ms n

-- `HashMap::keys`
unfoldable pub keys {ℓ} : {V : Type ℓ} → Dict V → List ℕ
keys [] = []
keys ((n, _) ∷ d) = n ∷ keys d

module _ {Op Ty : Type 0} where
  -- One round of the loop over `all_blocks`.
  unfoldable pub remove_block : ℕ → (reachable : List ℕ) → Function Op Ty → Option (Function Op Ty)
  unfolding take_block is_in
  remove_block b reachable f =
      if is_in reachable b
      then some f
      else elim (take_block b f) [ none ↦ none | some taken ↦ some (taken.1) ]

  unfoldable pub remove_blocks :
      List ℕ → (reachable : List ℕ) → Function Op Ty → Option (Function Op Ty)
  unfolding remove_block
  remove_blocks [] reachable f = some f
  remove_blocks (b ∷ bs) reachable f = do
    g ← remove_block b reachable f
    remove_blocks bs reachable g

  unfoldable pub remove_unreachable_blocks :
      (reachable : List ℕ) → Function Op Ty → Option (Function Op Ty)
  unfolding remove_blocks keys
  remove_unreachable_blocks reachable f = remove_blocks (keys (f.blocks)) reachable f

module _ {Op Ty C : Type 0} {bimap : BiMap C} where
  -- The loop over `all_function_ids`.
  unfoldable pub remove_functions :
      List ℕ → (reachable : List ℕ) → Ssa Op Ty bimap → Ssa Op Ty bimap
  unfolding is_in
  remove_functions [] reachable s = s
  remove_functions (n ∷ ns) reachable s =
      let next = if is_in reachable n then s else (delete_function n s).1 in
      remove_functions ns reachable next

  unfoldable pub remove_unreachable_functions :
      (reachable : List ℕ) → Ssa Op Ty bimap → Ssa Op Ty bimap
  unfolding remove_functions keys
  remove_unreachable_functions reachable s = remove_functions (keys (s.functions)) reachable s
