-- ===== src/Range/FixedPoint.antt =====
-- `ValueRangeAnalysis::run_function` (value_range_analysis.rs): the passes over the blocks of a
-- function. The order of the blocks and the predecessors come from the flow analysis and are given
-- with each block; a block that a `Jmp` does not reach with arguments has no arguments from there.
mod Stable
mod Tests
use mavros.Prelude.{
  ℕ, zero, suc, Bool, true, false, Option, none, some, List, [], ◌∷◌, if◌then◌else◌, get_elem?,
}
use mavros.Types.{TypeExpr}
use mavros.Range.Interval.{IntInterval, top, join, for_type}
use mavros.Range.Transfer.{OpCode, Env, State, get, overwrite, transfer, with_default}

-- `pred_args` holds the arguments of the predecessors' jumps to the block.
pub record Block : Type 0 where
  pub is_entry : Bool
  pub parameters : List (ℕ × TypeExpr)
  pub pred_args : List (List ℕ)
  pub instructions : List OpCode

abbrev pub join_option : Option IntInterval → IntInterval → IntInterval
join_option none r = r
join_option (some j) r = join j r

-- One round of the loop over the predecessors, for the parameter `idx`.
abbrev pub join_argument : State → Option IntInterval → Option ℕ → Option IntInterval
join_argument s joined none = joined
join_argument s joined (some arg) = some (join_option joined (get s arg))

abbrev pub join_arguments : State → ℕ → List (List ℕ) → Option IntInterval → Option IntInterval
join_arguments s idx [] joined = joined
join_arguments s idx (args ∷ rest) joined =
    join_arguments s idx rest (join_argument s joined (get_elem? args idx))

-- The loop over the parameters, with their index.
unfoldable pub join_parameters : Env → List (List ℕ) → ℕ → List (ℕ × TypeExpr) → State → State
unfolding get overwrite join for_type
join_parameters env pred_args idx [] s = s
join_parameters env pred_args idx ((param, ty) ∷ params) s =
    join_parameters env pred_args (suc idx) params (
      overwrite s param
        (with_default (join_arguments s idx pred_args none) (for_type env.modulus ty)))

unfoldable pub transfer_all : Env → List OpCode → State → State
unfolding transfer
transfer_all env [] s = s
transfer_all env (op ∷ ops) s = transfer_all env ops (transfer env op s)

unfoldable pub visit : Env → Block → State → State
unfolding join_parameters transfer_all
visit env b s =
    let s₁ = if b.is_entry then s else join_parameters env b.pred_args 0 b.parameters s in
    transfer_all env b.instructions s₁

unfoldable pub visit_all : Env → List Block → State → State
unfolding visit
visit_all env [] s = s
visit_all env (b ∷ bs) s = visit_all env bs (visit env b s)

-- `let mut changed = false`
abbrev pub unchanged : State → State
unchanged s = record { bounds = s.bounds; changed = false }

-- The loop up to `ITER_LIMIT`, which a pass without a change ends.
unfoldable pub iterate : Env → List Block → ℕ → State → State
unfolding visit_all
iterate env order zero s = s
iterate env order (suc n) s =
    let next = visit_all env order (unchanged s) in
    let rest = iterate env order n next in if next.changed then rest else next

abbrev pub iter_limit : ℕ
iter_limit = 8
