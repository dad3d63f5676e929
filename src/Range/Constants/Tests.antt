-- ===== src/Range/Constants/Tests.antt =====
-- Signed bytes.
use mavros.Prelude.{◌≡◌, refl, ◌⊎◌, ◌^◌, arith}
use mavros.Prelude.Int.{pos, negsuc, ◌+ℤ◌, ◌-ℤ◌}
use mavros.Range.Interval.{signed_full}
use mavros.Range.Interval.Lattice.{Contains}
use mavros.Range.Constants.{signed_const_to_bigint, signed_const_to_bigint_lem}

minus_one_run : signed_const_to_bigint 8 255 ≡ negsuc 0
unfolding signed_const_to_bigint ◌-ℤ◌
minus_one_run = refl

signed_const_to_bigint_lem_example :
    ((signed_const_to_bigint 8 200 ≡ pos 200)
      ⊎ (signed_const_to_bigint 8 200 +ℤ pos (2 ^ 8) ≡ pos 200))
    × Contains (signed_full 8) (signed_const_to_bigint 8 200)
signed_const_to_bigint_lem_example =
    signed_const_to_bigint_lem 8 200 (omega arith) (omega arith) (omega arith)
