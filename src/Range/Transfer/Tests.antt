-- ===== src/Range/Transfer/Tests.antt =====
-- A sum of two bytes and a difference of two field elements.
use native.Mathlib.Numerals.{unary_clauses}
use mavros.Prelude.{ℕ, zero, suc, ◌<◌, ◌^◌, ◌≡◌, refl, true, false, Option, none, some, arith}
use mavros.Prelude.Int.{ℤ, pos, ◌+ℤ◌, ◌-ℤ◌}
use mavros.Types.{field, u, strip_witness}
use mavros.Range.Interval.{
  IntInterval, interval, add, is_empty, singleton, closed, field_top, for_type, unsigned_full,
}
use mavros.Range.Interval.Lattice.{Contains}
use mavros.Range.Transfer.{add_op, sub_op, binary_arith_op, Env, State, get, transfer, type_range}
use mavros.Range.Transfer.Meaning.{Covers, Typed}
use mavros.Range.Transfer.Sound.{transfer-Covers}
use mavros.Range.Transfer.Wrap.{transfer-field_sub}

abbrev bytes : Env
bytes = record { modulus = 101; bits = λ n. n; value_type = λ v. u 8 }

-- 7, 5 and their sum.
abbrev values : ℕ → ℤ
values zero = pos 7
values (suc zero) = pos 5
values (suc (suc zero)) = pos 12
values (suc (suc (suc n))) = pos 0

abbrev known : ℕ → Option IntInterval
known zero = some (interval (some (pos 3)) (some (pos 9)))
known (suc zero) = some (singleton (pos 5))
known (suc (suc n)) = none

abbrev start : State
start = record { bounds = known; changed = false }

below_power : (n : ℕ) → n < 2 ^ n
below_power zero = omega arith
below_power (suc n) = simp unary_clauses (omega (arith, below_power n))

values-Typed : Typed bytes values
unfolding type_range for_type unsigned_full closed ◌-ℤ◌ strip_witness
values-Typed zero = ground arith
values-Typed (suc zero) = ground arith
values-Typed (suc (suc zero)) = ground arith
values-Typed (suc (suc (suc n))) = ground arith

values_covered : Covers start values
unfolding get singleton
values_covered zero = ground arith
values_covered (suc zero) = ground arith
values_covered (suc (suc n)) = (tt, tt)

sum_run :
    get (transfer bytes (binary_arith_op add_op 2 0 1) start) 2
    ≡ interval (some (pos 8)) (some (pos 14))
unfolding transfer get ◌+ℤ◌ ◌-ℤ◌ add singleton unsigned_full
sum_run = refl

transfer-Covers_example : Covers (transfer bytes (binary_arith_op add_op 2 0 1) start) values
unfolding ◌+ℤ◌
transfer-Covers_example =
    transfer-Covers bytes values below_power values-Typed (binary_arith_op add_op 2 0 1) start
      values_covered refl

abbrev elements : Env
elements = record { modulus = 101; bits = λ n. n; value_type = λ v. field }

abbrev constants : ℕ → Option IntInterval
constants zero = some (singleton (pos 3))
constants (suc n) = some (singleton (pos 5))

abbrev from_constants : State
from_constants = record { bounds = constants; changed = false }

transfer-field_sub_example :
    (is_empty (get (transfer elements (binary_arith_op sub_op 2 0 1) from_constants) 2) ≡ true)
    × Contains (field_top 101) (pos 99)
transfer-field_sub_example =
    transfer-field_sub elements from_constants 2 0 1 3 5 refl refl refl (omega arith) (omega arith)
