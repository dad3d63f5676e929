-- ===== src/Range/Interval/Tests.antt =====
-- Runs of the interval operations, and their theorems on small intervals.
use mavros.Prelude.{◌≡◌, refl, ◌↔◌, false, none, some, arith}
use mavros.Prelude.Int.{pos, negsuc, ◌-ℤ◌, ◌*ℤ◌, ◌≤ℤ◌, negate}
use mavros.Range.Interval.{
  IntInterval, interval, empty, intersect, closed, mul, neg, floor_div, is_non_negative_in_signed,
  signed_full,
}
use mavros.Range.Interval.Lattice.{Contains, Contains-closed}
use mavros.Range.Interval.Arith.{Contains-neg}
use mavros.Range.Interval.Mul.{Contains-mul}

-- [-3, 5] and [2, infinity).
abbrev small : IntInterval
small = interval (some (negsuc 2)) (some (pos 5))

abbrev from_two : IntInterval
from_two = interval (some (pos 2)) none

product_run : mul small small ≡ interval (some (negsuc 14)) (some (pos 25))
unfolding mul ◌*ℤ◌
product_run = refl

half_line_run : mul small from_two ≡ interval none none
unfolding mul ◌*ℤ◌
half_line_run = refl

floor_run : floor_div (negsuc 6) 2 ≡ negsuc 3
unfolding floor_div ◌-ℤ◌
floor_run = refl

disjoint_run : intersect small (closed (pos 7) (pos 9)) ≡ empty
unfolding intersect closed
disjoint_run = refl

no_bits_run : is_non_negative_in_signed (closed (pos 0) (pos 0)) 0 ≡ false
unfolding is_non_negative_in_signed
no_bits_run = refl

signed_byte_run : signed_full 8 ≡ interval (some (negsuc 127)) (some (pos 127))
unfolding signed_full ◌-ℤ◌
signed_byte_run = refl

four_in_small : Contains small (pos 4)
four_in_small = (omega arith, omega arith)

four_from_two : Contains from_two (pos 4)
four_from_two = (omega arith, tt)

Contains-closed_example :
    Contains (closed (pos 1) (pos 6)) (pos 4) ↔ ((pos 1 ≤ℤ pos 4) × (pos 4 ≤ℤ pos 6))
Contains-closed_example = Contains-closed (pos 1) (pos 6) (pos 4)

Contains-mul_example : Contains (mul small from_two) (pos 4 *ℤ pos 4)
Contains-mul_example = Contains-mul small from_two (pos 4) (pos 4) four_in_small four_from_two

Contains-neg_example : Contains (neg small) (negate (pos 4))
Contains-neg_example = Contains-neg small (pos 4) four_in_small
