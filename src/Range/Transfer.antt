-- ===== src/Range/Transfer.antt =====
-- `ValueRangeAnalysis::transfer` (value_range_analysis.rs): the interval one instruction gives its
-- result, with the bounds of the constants. A `ValueId` is a number and the map of bounds a function.
mod Meaning
mod Single
mod Binary
mod Sound
mod Wrap
mod Tests
use mavros.Prelude.{
  ℕ, suc, ◌+◌, ◌-◌, ◌^◌, Bool, true, false, ◌&&◌, ◌||◌, Option, none, some, List, [], ◌∷◌, ◌==◌,
  ltb, leb, if◌then◌else◌,
}
use mavros.Prelude.Int.{ℤ, pos, negsuc, pos_part, neg_part, ◌-ℤ◌, leb_ℤ, ltb_ℤ, negate}
use mavros.Types.{TypeExpr, field, u, i, strip_witness}
use mavros.Range.Interval.{
  IntInterval, interval, top, closed, singleton, unsigned_full, signed_full, field_top, for_type,
  join, intersect, is_non_negative, fits_in_unsigned_bits, fits_in_signed_bits, add, sub, mul,
  div_const_pos,
}

pub data CastTarget : Type 0 where
  to_field : CastTarget
  to_u : ℕ → CastTarget
  to_i : ℕ → CastTarget
  to_witness : CastTarget
  nop : CastTarget
  array_to_slice : CastTarget

pub data BinaryArithOpKind : Type 0 where
  add_op : BinaryArithOpKind
  mul_op : BinaryArithOpKind
  div_op : BinaryArithOpKind
  sub_op : BinaryArithOpKind
  and_op : BinaryArithOpKind
  or_op : BinaryArithOpKind
  xor_op : BinaryArithOpKind
  shl_op : BinaryArithOpKind
  shr_op : BinaryArithOpKind
  mod_op : BinaryArithOpKind

-- The fields `transfer` reads; `other` stands for the opcodes of its last arm, with their results.
pub data OpCode : Type 0 where
  cast : (result value : ℕ) → CastTarget → OpCode
  sext : (result value from_bits : ℕ) → OpCode
  bit_range : (result width : ℕ) → OpCode
  write_witness : (result : Option ℕ) (value : ℕ) → OpCode
  fresh_witness : (result : ℕ) → TypeExpr → OpCode
  value_of : (result value : ℕ) → OpCode
  cmp : (result : ℕ) → OpCode
  not_op : (result value : ℕ) → OpCode
  binary_arith_op : BinaryArithOpKind → (result lhs rhs : ℕ) → OpCode
  mul_const : (result const_val var : ℕ) → OpCode
  select : (result if_t if_f : ℕ) → OpCode
  guard : OpCode → OpCode
  other : (results : List ℕ) → OpCode

-- What the pass is given: the field's modulus (ark-ff), the bit length of a magnitude (num-bigint)
-- and the type of each value.
pub record Env : Type 0 where
  pub modulus : ℕ
  pub bits : ℕ → ℕ
  pub value_type : ℕ → TypeExpr

pub record State : Type 0 where
  pub bounds : ℕ → Option IntInterval
  pub changed : Bool

abbrev pub with_default : {A : Type 0} → Option A → A → A
with_default none d = d
with_default (some x) d = x

unfoldable pub get : State → ℕ → IntInterval
get s v = with_default (s.bounds v) top

abbrev pub eq_end : Option ℤ → Option ℤ → Bool
eq_end none none = true
eq_end (some a) (some b) = leb_ℤ a b && leb_ℤ b a
eq_end _ _ = false

abbrev pub eq_bound : Option IntInterval → IntInterval → Bool
eq_bound none r = false
eq_bound (some s) r = eq_end s.lo r.lo && eq_end s.hi r.hi

unfoldable pub overwrite : State → ℕ → IntInterval → State
overwrite s v new =
    if eq_bound (s.bounds v) new
    then s
    else record { bounds = λ w. if w == v then some new else s.bounds w; changed = true }

unfoldable pub cast_range : ℕ → CastTarget → IntInterval → IntInterval
unfolding is_non_negative fits_in_unsigned_bits fits_in_signed_bits
cast_range modulus to_field r = if is_non_negative r then r else field_top modulus
cast_range modulus (to_u n) r = if fits_in_unsigned_bits r n then r else unsigned_full n
cast_range modulus (to_i n) r = if fits_in_signed_bits r n then r else signed_full n
cast_range modulus to_witness r = r
cast_range modulus nop r = r
cast_range modulus array_to_slice r = top

unfoldable pub sext_range : ℕ → IntInterval → IntInterval
unfolding fits_in_signed_bits
sext_range from_bits r = if fits_in_signed_bits r from_bits then r else signed_full from_bits

-- The guard of `BitRange`: the result is an `I` of at most `width` bits.
abbrev pub signed_within : ℕ → TypeExpr → Bool
signed_within width (i n) = leb n width
signed_within width _ = false

unfoldable pub bit_range_range : Env → ℕ → ℕ → IntInterval
unfolding strip_witness
bit_range_range env result width =
    if signed_within width (strip_witness (env.value_type result))
    then for_type env.modulus (env.value_type result)
    else unsigned_full width

-- The bounds of a bitwise NOT, by the type without its `WitnessOf`.
abbrev pub not_ends : IntInterval → TypeExpr → Option ℤ → Option ℤ → IntInterval
not_ends d (u n) (some l) (some h) =
    closed ((pos (2 ^ n) -ℤ pos 1) -ℤ h) ((pos (2 ^ n) -ℤ pos 1) -ℤ l)
not_ends d (i n) (some l) (some h) = closed (negate h -ℤ pos 1) (negate l -ℤ pos 1)
not_ends d _ _ _ = d

-- `next_pow2_minus_one`, on a magnitude's bit length.
unfoldable pub next_pow2_minus_one : (ℕ → ℕ) → ℤ → ℤ
next_pow2_minus_one bits m =
    if leb_ℤ m (pos 0) && leb_ℤ (pos 0) m
    then pos 0
    else let n = bits (pos_part m + neg_part m) in
      let candidate = pos (2 ^ n) -ℤ pos 1 in
      if leb_ℤ m candidate then candidate else pos (2 ^ (n + 1)) -ℤ pos 1

-- `Div`: a dividend without negative members over one positive constant.
abbrev pub div_range : IntInterval → IntInterval → Option ℤ → Option ℤ → IntInterval
div_range d l (some a) (some b) =
    if (leb_ℤ a b && leb_ℤ b a) && ltb_ℤ (pos 0) a then div_const_pos l (pos_part a) else d
div_range d l _ _ = d

abbrev pub mod_range : IntInterval → Option ℤ → Option ℤ → IntInterval
mod_range d (some a) (some b) = if ltb_ℤ (pos 0) a then closed (pos 0) (b -ℤ pos 1) else d
mod_range d _ _ = d

abbrev pub and_range : IntInterval → Option ℤ → Option ℤ → IntInterval
and_range d (some a) (some b) = closed (pos 0) (if leb_ℤ a b then a else b)
and_range d _ _ = d

abbrev pub or_range : (ℕ → ℕ) → IntInterval → Option ℤ → Option ℤ → IntInterval
or_range bits d (some a) (some b) =
    closed (pos 0) (next_pow2_minus_one bits (if leb_ℤ b a then a else b))
or_range bits d _ _ = d

-- `d` is the range of the result's type.
unfoldable pub binary_range :
    Env → BinaryArithOpKind → IntInterval → IntInterval → IntInterval → IntInterval
unfolding is_non_negative
binary_range env add_op d l r = add l r
binary_range env sub_op d l r = sub l r
binary_range env mul_op d l r = mul l r
binary_range env div_op d l r = if is_non_negative l then div_range d l r.lo r.hi else d
binary_range env mod_op d l r = if is_non_negative l then mod_range d r.lo r.hi else d
binary_range env and_op d l r =
    if is_non_negative l && is_non_negative r then and_range d l.hi r.hi else d
binary_range env or_op d l r =
    if is_non_negative l && is_non_negative r then or_range env.bits d l.hi r.hi else d
binary_range env xor_op d l r =
    if is_non_negative l && is_non_negative r then or_range env.bits d l.hi r.hi else d
binary_range env shl_op d l r = d
binary_range env shr_op d l r = d

-- The range of a value's type.
unfoldable pub type_range : Env → ℕ → IntInterval
unfolding for_type
type_range env v = for_type env.modulus (env.value_type v)

unfoldable pub cap_to_type : Env → ℕ → IntInterval → IntInterval
unfolding intersect type_range
cap_to_type env v r = intersect r (type_range env v)

abbrev pub default_all : Env → List ℕ → State → State
default_all env [] s = s
default_all env (v ∷ vs) s = default_all env vs (overwrite s v (type_range env v))

unfoldable pub transfer : Env → OpCode → State → State
unfolding get overwrite cast_range sext_range bit_range_range binary_range type_range cap_to_type
    strip_witness
transfer env (cast r x t) s = overwrite s r (cap_to_type env r (cast_range env.modulus t (get s x)))
transfer env (sext r x n) s = overwrite s r (cap_to_type env r (sext_range n (get s x)))
transfer env (bit_range r w) s = overwrite s r (cap_to_type env r (bit_range_range env r w))
transfer env (write_witness (some r) x) s = overwrite s r (cap_to_type env r (get s x))
transfer env (write_witness none x) s = s
transfer env (fresh_witness r t) s = overwrite s r (for_type env.modulus t)
transfer env (value_of r x) s = overwrite s r (cap_to_type env r (get s x))
transfer env (cmp r) s = overwrite s r (unsigned_full 1)
transfer env (not_op r x) s = overwrite s r (
    cap_to_type env r
      (not_ends (type_range env r) (strip_witness (env.value_type r)) (get s x).lo (get s x).hi))
transfer env (binary_arith_op k r x y) s =
    overwrite s r (cap_to_type env r (binary_range env k (type_range env r) (get s x) (get s y)))
transfer env (mul_const r c x) s = overwrite s r (cap_to_type env r (mul (get s c) (get s x)))
transfer env (select r t f) s = overwrite s r (cap_to_type env r (join (get s t) (get s f)))
transfer env (guard inner) s = transfer env inner s
transfer env (other rs) s = default_all env rs s
