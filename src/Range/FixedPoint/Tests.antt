-- ===== src/Range/FixedPoint/Tests.antt =====
-- One block with the sum of two bytes.
use mavros.Prelude.{ℕ, zero, suc, ◌≡◌, refl, true, false, Option, some, [], ◌∷◌, arith}
use mavros.Prelude.Int.{pos, ◌+ℤ◌, ◌-ℤ◌}
use mavros.Types.{u}
use mavros.Range.Interval.{IntInterval, interval, singleton, unsigned_full, add}
use mavros.Range.Transfer.{add_op, binary_arith_op, Env, State, get, overwrite, transfer}
use mavros.Range.FixedPoint.{Block, visit, visit_all, transfer_all, iterate, iter_limit}
use mavros.Range.FixedPoint.Stable.{iterate-stable}

abbrev bytes : Env
bytes = record { modulus = 101; bits = λ n. n; value_type = λ v. u 8 }

abbrev known : ℕ → Option IntInterval
known zero = some (interval (some (pos 3)) (some (pos 9)))
known (suc n) = some (singleton (pos 5))

abbrev start : State
start = record { bounds = known; changed = false }

abbrev entry : Block
entry = record {
  is_entry = true;
  parameters = [];
  pred_args = [];
  instructions = binary_arith_op add_op 2 0 1 ∷ [];
}

sum_run :
    get (iterate bytes (entry ∷ []) iter_limit start) 2 ≡ interval (some (pos 8)) (some (pos 14))
unfolding iterate visit_all visit transfer_all transfer overwrite get ◌+ℤ◌ ◌-ℤ◌ add singleton
    unsigned_full
sum_run = refl

iterate-stable_example :
    visit_all bytes (entry ∷ []) (iterate bytes (entry ∷ []) iter_limit start)
    ≡ iterate bytes (entry ∷ []) iter_limit start
unfolding iterate visit_all visit transfer_all transfer overwrite get ◌+ℤ◌ ◌-ℤ◌ add singleton
    unsigned_full
iterate-stable_example = iterate-stable bytes (entry ∷ []) iter_limit start (omega arith) refl
