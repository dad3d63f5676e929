-- ===== src/Range/Interval/Arith.antt =====
-- The arithmetic transfers of intervals hold the results of the operation on their members.
use mathlib.Core.Bool.{not}
use native.Mathlib.Nat.{le-div_iff_mul-le, div-mul-le_self, le_trans}
use mavros.Prelude.{ℕ, zero, suc, ◌/◌, ◌≤◌, ◌≡◌, true, false, ◌||◌, Option, none, some, arith}
use mavros.Prelude.Int.{ℤ, pos, negsuc, ◌+ℤ◌, ◌-ℤ◌, negate, ltb_ℤ, +ℤ_mono, -ℤ_mono}
use mavros.Range.Interval.{
  IntInterval, is_empty, opt_add, opt_sub, opt_neg, opt_div, add, sub, neg, floor_div,
  div_const_pos, is_non_negative, is_some_and,
}
use mavros.Range.Interval.Lattice.{AtLeast, AtMost, Contains, Contains-ne-empty}

neither_empty :
    (r s : IntInterval) (a b : ℤ) → Contains r a → Contains s b → (is_empty r || is_empty s) ≡ false
neither_empty r s a b c d = rw (Contains-ne-empty r a c, Contains-ne-empty s b d)

add_low : (l m : Option ℤ) (a b : ℤ) → AtLeast l a → AtLeast m b → AtLeast (opt_add l m) (a +ℤ b)
add_low none m a b p q = tt
add_low (some l) none a b p q = tt
add_low (some l) (some m) a b p q = +ℤ_mono l a m b p q

add_high : (l m : Option ℤ) (a b : ℤ) → AtMost l a → AtMost m b → AtMost (opt_add l m) (a +ℤ b)
add_high none m a b p q = tt
add_high (some l) none a b p q = tt
add_high (some l) (some m) a b p q = +ℤ_mono a l b m p q

sub_low : (l m : Option ℤ) (a b : ℤ) → AtLeast l a → AtMost m b → AtLeast (opt_sub l m) (a -ℤ b)
sub_low none m a b p q = tt
sub_low (some l) none a b p q = tt
sub_low (some l) (some m) a b p q = -ℤ_mono l a m b p q

sub_high : (l m : Option ℤ) (a b : ℤ) → AtMost l a → AtLeast m b → AtMost (opt_sub l m) (a -ℤ b)
sub_high none m a b p q = tt
sub_high (some l) none a b p q = tt
sub_high (some l) (some m) a b p q = -ℤ_mono a l b m p q

module _ (r s : IntInterval) (a b : ℤ) (c : Contains r a) (d : Contains s b) where
  -- The sum of two intervals holds the sums of their members.
  pub Contains-add : Contains (add r s) (a +ℤ b)
  unfolding add
  Contains-add =
      rw (neither_empty r s a b c d) (add_low r.lo s.lo a b c.0 d.0, add_high r.hi s.hi a b c.1 d.1)

  -- The difference of two intervals holds the differences of their members.
  pub Contains-sub : Contains (sub r s) (a -ℤ b)
  unfolding sub
  Contains-sub =
      rw (neither_empty r s a b c d) (sub_low r.lo s.hi a b c.0 d.1, sub_high r.hi s.lo a b c.1 d.0)

neg_low : (h : Option ℤ) (a : ℤ) → AtMost h a → AtLeast (opt_neg h) (negate a)
neg_low none a p = tt
neg_low (some h) a p = ground arith

neg_high : (l : Option ℤ) (a : ℤ) → AtLeast l a → AtMost (opt_neg l) (negate a)
neg_high none a p = tt
neg_high (some l) a p = ground arith

-- The negated interval holds the negated members.
pub Contains-neg : (r : IntInterval) (a : ℤ) → Contains r a → Contains (neg r) (negate a)
unfolding neg
Contains-neg r a c = rw (Contains-ne-empty r a c) (neg_low r.hi a c.1, neg_high r.lo a c.0)

floor_div-pos : (n d : ℕ) → floor_div (pos n) d ≡ pos (n / d)
unfolding floor_div
floor_div-pos n d = ground arith

div_mono : (x n d : ℕ) → x ≤ n → x / d ≤ n / d
div_mono x n zero h = omega arith
div_mono x n (suc d) h =
    (le-div_iff_mul-le (omega arith)).1 (le_trans (div-mul-le_self x (suc d)) h)

div_low :
    (l : Option ℤ) (n d : ℕ)
    → is_some_and l (λ x. not (ltb_ℤ x (pos 0))) ≡ true
    → AtLeast l (pos n)
    → AtLeast (opt_div l d) (pos (n / d))
div_low none n d h p = tt
div_low (some (pos x)) n d h p =
    rw (floor_div-pos x d) (omega (arith, div_mono x n d (omega arith)))
div_low (some (negsuc x)) n d h p = ground arith

div_high : (h : Option ℤ) (n d : ℕ) → AtMost h (pos n) → AtMost (opt_div h d) (pos (n / d))
div_high none n d p = tt
div_high (some (pos x)) n d p = rw (floor_div-pos x d) (omega (arith, div_mono n x d (omega arith)))
div_high (some (negsuc x)) n d p = absurd (omega arith)

-- The quotient of an interval without negative members by a positive constant holds the quotients of
-- its members.
pub Contains-div_const_pos :
    (r : IntInterval) (n d : ℕ)
    → is_non_negative r ≡ true
    → Contains r (pos n)
    → Contains (div_const_pos r d) (pos (n / d))
unfolding div_const_pos is_non_negative
Contains-div_const_pos r n d h c =
    rw (Contains-ne-empty r (pos n) c) (div_low r.lo n d h c.0, div_high r.hi n d c.1)
