-- ===== src/Range/Constants.antt =====
-- `signed_const_to_bigint` and `compute_constant_bounds` (value_range_analysis.rs): the interval of
-- each constant of the module.
mod Tests
use native.Mathlib.Numerals.{unary_clauses}
use mavros.Prelude.{
  ℕ, zero, suc, ◌+◌, ◌-◌, ◌*◌, ◌/◌, ◌^◌, ◌≤◌, ◌<◌, ◌≡◌, refl, ◌⊎◌, inl, inr, Bool, true, false,
  Option, none, some, List, [], ◌∷◌, ◌==◌, ltb, arith, Bool-cases, if◌then◌else◌,
}
use mavros.Prelude.Int.{
  ℤ, pos, negsuc, pos_part, neg_part, ◌+ℤ◌, ◌-ℤ◌, ◌≤ℤ◌, negate, eq_of_parts, int_laws,
}
use mavros.Range.Interval.{IntInterval, top, singleton, closed, signed_full}
use mavros.Range.Interval.Lattice.{Contains, Contains-closed}

unfoldable pub signed_const_to_bigint : ℕ → ℕ → ℤ
signed_const_to_bigint bits encoded =
    if bits == 0
    then pos 0
    else if ltb 128 bits
    then pos encoded
    else if ltb encoded (2 ^ bits / 2)
    then pos encoded
    else pos encoded -ℤ pos (2 ^ bits)

-- A field constant is given as its canonical integer, `field_to_bigint`.
pub data Constant : Type 0 where
  u_const : (bits value : ℕ) → Constant
  i_const : (bits encoded : ℕ) → Constant
  field_const : ℕ → Constant
  fn_ptr : ℕ → Constant

unfoldable pub constant_bound : Constant → IntInterval
unfolding singleton signed_const_to_bigint
constant_bound (u_const bits v) = singleton (pos v)
constant_bound (i_const bits e) = singleton (signed_const_to_bigint bits e)
constant_bound (field_const f) = singleton (pos f)
constant_bound (fn_ptr f) = top

half_pow : (n : ℕ) → 1 ≤ n → 2 ^ n ≡ 2 ^ (n - 1) + 2 ^ (n - 1)
half_pow zero h = absurd (omega arith)
half_pow (suc n) h = simp unary_clauses (omega arith)

not_zero : (n : ℕ) → 1 ≤ n → (n == 0) ≡ false
not_zero n h = ground arith

not_above : (n m : ℕ) → n ≤ m → ltb m n ≡ false
not_above n m h = ground arith

lower_half : (p e : ℕ) → ltb e p ≡ true → (negate (pos p) ≤ℤ pos e) × (pos e ≤ℤ pos p -ℤ pos 1)
unfolding ◌-ℤ◌
lower_half p e f = ground arith

upper_half :
    (p e : ℕ)
    → e < p + p
    → ltb e p ≡ false
    → (negate (pos p) ≤ℤ pos e -ℤ pos (p + p)) × (pos e -ℤ pos (p + p) ≤ℤ pos p -ℤ pos 1)
unfolding ◌-ℤ◌
upper_half p e h f = ground arith

-- The two halves of the encodings, with `p` half of the range.
read_halves :
    (p e : ℕ)
    → e < p + p
    → (((if ltb e p then pos e else pos e -ℤ pos (p + p)) ≡ pos e)
        ⊎ ((if ltb e p then pos e else pos e -ℤ pos (p + p)) +ℤ pos (p + p) ≡ pos e))
      × Contains
          (closed (negate (pos p)) (pos p -ℤ pos 1))
          (if ltb e p then pos e else pos e -ℤ pos (p + p))
read_halves p e h = elim (Bool-cases (ltb e p)) [
  | inl f ↦
      rw f
        (inl refl, (Contains-closed (negate (pos p)) (pos p -ℤ pos 1) (pos e)).1 (lower_half p e f))
  | inr f ↦ rw f (
    inr (eq_of_parts _ _ (omega int_laws)),
    (Contains-closed (negate (pos p)) (pos p -ℤ pos 1) (pos e -ℤ pos (p + p))).1
        (upper_half p e h f),
  )
]

half_of_double : (p : ℕ) → (p + p) / 2 ≡ p
half_of_double p = omega arith

-- A signed constant of 1 to 128 bits is read as the two's complement number with its bits: the one in
-- the signed range that is the encoding or the encoding less 2 ^ bits.
pub signed_const_to_bigint_lem :
    (bits encoded : ℕ)
    → 1 ≤ bits
    → bits ≤ 128
    → encoded < 2 ^ bits
    → ((signed_const_to_bigint bits encoded ≡ pos encoded)
        ⊎ (signed_const_to_bigint bits encoded +ℤ pos (2 ^ bits) ≡ pos encoded))
      × Contains (signed_full bits) (signed_const_to_bigint bits encoded)
unfolding signed_const_to_bigint signed_full
signed_const_to_bigint_lem bits encoded h k l =
    rw (not_zero bits h, not_above bits 128 k, half_pow bits h, half_of_double (2 ^ (bits - 1)))
      (read_halves (2 ^ (bits - 1)) encoded (rw (half_pow bits h) at l))
