-- ===== src/Range/Interval.antt =====
-- `IntInterval` (value_range_analysis.rs): closed intervals over the integers, `none` for an
-- infinite end. `BigInt` is ℤ.
pub mod Lattice
pub mod Arith
pub mod Mul
mod Tests
use mavros.Prelude.{
  ℕ, zero, suc, ◌+◌, ◌-◌, ◌/◌, ◌%◌, ◌^◌, ◌≡◌, Bool, true, false, ◌&&◌, ◌||◌, Option, none, some,
  ◌==◌, if◌then◌else◌,
}
use mathlib.Core.Bool.{not}
use mavros.Prelude.Int.{ℤ, pos, negsuc, ◌+ℤ◌, ◌-ℤ◌, ◌*ℤ◌, ◌≤ℤ◌, leb_ℤ, ltb_ℤ, negate}
use mavros.Types.{TypeExpr, field, u, i, strip_witness}

pub record IntInterval : Type 0 where
  pub lo : Option ℤ
  pub hi : Option ℤ

abbrev pub interval : Option ℤ → Option ℤ → IntInterval
interval l h = record { lo = l; hi = h }

abbrev pub top : IntInterval
top = interval none none

abbrev pub empty : IntInterval
empty = interval (some (pos 1)) (some (pos 0))

-- `matches!` on two finite ends with `lo > hi`.
abbrev pub crossed : Option ℤ → Option ℤ → Bool
crossed (some l) (some h) = ltb_ℤ h l
crossed _ _ = false

unfoldable pub is_empty : IntInterval → Bool
is_empty r = crossed r.lo r.hi

unfoldable pub singleton : ℤ → IntInterval
singleton v = interval (some v) (some v)

unfoldable pub closed : ℤ → ℤ → IntInterval
closed lo hi = if ltb_ℤ hi lo then empty else interval (some lo) (some hi)

unfoldable pub unsigned_full : ℕ → IntInterval
unfolding closed
unsigned_full bits = closed (pos 0) (pos (2 ^ bits) -ℤ pos 1)

unfoldable pub signed_full : ℕ → IntInterval
unfolding closed singleton
signed_full bits =
    if bits == 0
    then singleton (pos 0)
    else closed (negate (pos (2 ^ (bits - 1)))) (pos (2 ^ (bits - 1)) -ℤ pos 1)

-- The modulus of the scalar field is ark-ff's constant, a parameter.
unfoldable pub field_top : ℕ → IntInterval
unfolding closed
field_top modulus = closed (pos 0) (pos modulus -ℤ pos 1)

-- `for_type`, by the type without its `WitnessOf`.
unfoldable pub for_stripped : ℕ → TypeExpr → IntInterval
for_stripped modulus (u n) = unsigned_full n
for_stripped modulus (i n) = signed_full n
for_stripped modulus field = field_top modulus
for_stripped modulus _ = top

unfoldable pub for_type : ℕ → TypeExpr → IntInterval
unfolding for_stripped strip_witness
for_type modulus ty = for_stripped modulus (strip_witness ty)

abbrev pub min_lo : Option ℤ → Option ℤ → Option ℤ
min_lo (some x) (some y) = some (if leb_ℤ x y then x else y)
min_lo _ _ = none

abbrev pub max_hi : Option ℤ → Option ℤ → Option ℤ
max_hi (some x) (some y) = some (if leb_ℤ y x then x else y)
max_hi _ _ = none

abbrev pub max_lo : Option ℤ → Option ℤ → Option ℤ
max_lo none b = b
max_lo a none = a
max_lo (some x) (some y) = some (if leb_ℤ y x then x else y)

abbrev pub min_hi : Option ℤ → Option ℤ → Option ℤ
min_hi none b = b
min_hi a none = a
min_hi (some x) (some y) = some (if leb_ℤ x y then x else y)

unfoldable pub join : IntInterval → IntInterval → IntInterval
unfolding is_empty
join r s =
    if is_empty r
    then s
    else if is_empty s
    then r
    else interval (min_lo r.lo s.lo) (max_hi r.hi s.hi)

unfoldable pub intersect : IntInterval → IntInterval → IntInterval
unfolding is_empty
intersect r s =
    if is_empty r || is_empty s
    then empty
    else let lo = max_lo r.lo s.lo in
      let hi = min_hi r.hi s.hi in if crossed lo hi then empty else interval lo hi

-- `is_some_and`
abbrev pub is_some_and : Option ℤ → (ℤ → Bool) → Bool
is_some_and none p = false
is_some_and (some x) p = p x

unfoldable pub is_non_negative : IntInterval → Bool
is_non_negative r = is_some_and r.lo (λ l. not (ltb_ℤ l (pos 0)))

unfoldable pub is_non_positive : IntInterval → Bool
is_non_positive r = is_some_and r.hi (λ h. not (ltb_ℤ (pos 0) h))

unfoldable pub fits_in_unsigned_bits : IntInterval → ℕ → Bool
fits_in_unsigned_bits r bits =
    is_some_and r.lo (λ l. not (ltb_ℤ l (pos 0)))
    && is_some_and r.hi (λ h. ltb_ℤ h (pos (2 ^ bits)))

abbrev pub is_zero : ℤ → Bool
is_zero x = leb_ℤ x (pos 0) && leb_ℤ (pos 0) x

unfoldable pub fits_in_signed_bits : IntInterval → ℕ → Bool
fits_in_signed_bits r bits =
    if bits == 0
    then is_some_and r.lo is_zero && is_some_and r.hi is_zero
    else (is_some_and r.lo (λ l. leb_ℤ (negate (pos (2 ^ (bits - 1)))) l)
        && is_some_and r.hi (λ h. ltb_ℤ h (pos (2 ^ (bits - 1)))))

unfoldable pub is_non_negative_in_signed : IntInterval → ℕ → Bool
is_non_negative_in_signed r bits =
    if bits == 0
    then false
    else (is_some_and r.lo (λ l. not (ltb_ℤ l (pos 0)))
        && is_some_and r.hi (λ h. ltb_ℤ h (pos (2 ^ (bits - 1)))))

abbrev pub opt_add : Option ℤ → Option ℤ → Option ℤ
opt_add (some x) (some y) = some (x +ℤ y)
opt_add _ _ = none

abbrev pub opt_sub : Option ℤ → Option ℤ → Option ℤ
opt_sub (some x) (some y) = some (x -ℤ y)
opt_sub _ _ = none

-- An infinite end times zero is zero.
abbrev pub opt_mul : Option ℤ → Option ℤ → Option ℤ
opt_mul (some x) (some y) = some (x *ℤ y)
opt_mul none (some z) = if is_zero z then some (pos 0) else none
opt_mul (some z) none = if is_zero z then some (pos 0) else none
opt_mul none none = none

unfoldable pub add : IntInterval → IntInterval → IntInterval
unfolding is_empty
add r s =
    if is_empty r || is_empty s then empty else interval (opt_add r.lo s.lo) (opt_add r.hi s.hi)

unfoldable pub sub : IntInterval → IntInterval → IntInterval
unfolding is_empty
sub r s =
    if is_empty r || is_empty s then empty else interval (opt_sub r.lo s.hi) (opt_sub r.hi s.lo)

-- One round of the loop over the four products, for each end.
abbrev pub lower_end : Option ℤ → Option ℤ → Option ℤ
lower_end (some a) (some b) = if ltb_ℤ b a then some b else some a
lower_end _ _ = none

abbrev pub upper_end : Option ℤ → Option ℤ → Option ℤ
upper_end (some a) (some b) = if ltb_ℤ a b then some b else some a
upper_end _ _ = none

unfoldable pub mul : IntInterval → IntInterval → IntInterval
unfolding is_empty
mul r s =
    if is_empty r || is_empty s
    then empty
    else let p = opt_mul r.lo s.lo in
      let q = opt_mul r.lo s.hi in
      let v = opt_mul r.hi s.lo in
      let w = opt_mul r.hi s.hi in
      interval (lower_end (lower_end (lower_end p q) v) w)
        (upper_end (upper_end (upper_end p q) v) w)

abbrev pub opt_neg : Option ℤ → Option ℤ
opt_neg none = none
opt_neg (some x) = some (negate x)

unfoldable pub neg : IntInterval → IntInterval
unfolding is_empty
neg r = if is_empty r then empty else interval (opt_neg r.hi) (opt_neg r.lo)

-- `BigInt`'s `/` and `%`, rounded toward zero, for a divisor that is positive.
abbrev quot_pos : ℤ → ℕ → ℤ
quot_pos (pos a) d = pos (a / d)
quot_pos (negsuc a) d = negate (pos (suc a / d))

abbrev rem_pos : ℤ → ℕ → ℤ
rem_pos (pos a) d = pos (a % d)
rem_pos (negsuc a) d = negate (pos (suc a % d))

-- `floor_div` for a positive divisor: `r.is_negative() != d.is_negative()` reads `r` negative.
unfoldable pub floor_div : ℤ → ℕ → ℤ
floor_div a d =
    let q = quot_pos a d in
    let r = rem_pos a d in if not (is_zero r) && ltb_ℤ r (pos 0) then q -ℤ pos 1 else q

abbrev pub opt_div : Option ℤ → ℕ → Option ℤ
opt_div none d = none
opt_div (some x) d = some (floor_div x d)

-- `div_const_pos`: the divisor is positive (a debug assertion in the source).
unfoldable pub div_const_pos : IntInterval → ℕ → IntInterval
unfolding is_empty
div_const_pos r d = if is_empty r then empty else interval (opt_div r.lo d) (opt_div r.hi d)
