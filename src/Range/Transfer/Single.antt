-- ===== src/Range/Transfer/Single.antt =====
-- The ranges of the instructions with one operand hold the results.
use mavros.Prelude.{
  ℕ, ◌-◌, ◌^◌, ◌≡◌, inl, inr, Bool, true, ◌&&◌, Option, none, some, ◌==◌, arith, Bool-cases,
}
use mavros.Prelude.Int.{ℤ, pos, ◌-ℤ◌, ◌≤ℤ◌, leb_ℤ, ltb_ℤ, negate, int_laws, -ℤ_mono, ltb→lt_ℤ}
use mathlib.Core.Bool.{not}
use mavros.Types.{TypeExpr, u, i}
use mavros.Range.Interval.{
  IntInterval, unsigned_full, signed_full, is_non_negative, is_some_and, fits_in_unsigned_bits,
  fits_in_signed_bits, singleton, is_zero,
}
use mavros.Range.Interval.Lattice.{AtLeast, AtMost, Contains, Contains-closed}
use mavros.Range.Transfer.{
  CastTarget, to_field, to_u, to_i, to_witness, nop, array_to_slice, cast_range, sext_range,
  not_ends,
}
use mavros.Range.Transfer.Meaning.{Casts, Inverts}

low_end_non_negative :
    (l : Option ℤ) (v : ℤ)
    → is_some_and l (λ x. not (ltb_ℤ x (pos 0))) ≡ true
    → AtLeast l v
    → pos 0 ≤ℤ v
low_end_non_negative none v e c = ground arith
low_end_non_negative (some l) v e c = ground arith

high_end_below :
    (h : Option ℤ) (v m : ℤ) → is_some_and h (λ x. ltb_ℤ x m) ≡ true → AtMost h v → v ≤ℤ m -ℤ pos 1
high_end_below none v m e c = ground arith
high_end_below (some h) v m e c = omega (int_laws, ltb→lt_ℤ h m e)

low_end_above :
    (l : Option ℤ) (v m : ℤ) → is_some_and l (λ x. leb_ℤ m x) ≡ true → AtLeast l v → m ≤ℤ v
low_end_above none v m e c = ground arith
low_end_above (some l) v m e c = ground arith

pub and_split : (a b : Bool) → (a && b) ≡ true → (a ≡ true) × (b ≡ true)
and_split a b e = ground arith

both_zero :
    (l h : Option ℤ) (v : ℤ)
    → (is_some_and l is_zero && is_some_and h is_zero) ≡ true
    → AtLeast l v
    → AtMost h v
    → (pos 0 ≤ℤ v) × (v ≤ℤ pos 0)
both_zero none h v e p q = ground arith
both_zero (some l) none v e p q = ground arith
both_zero (some l) (some h) v e p q = ground arith

pub low_non_negative :
    (r : IntInterval) (v : ℤ) → is_non_negative r ≡ true → Contains r v → pos 0 ≤ℤ v
unfolding is_non_negative
low_non_negative r v e c = low_end_non_negative r.lo v e c.0

-- A range that fits in `n` unsigned bits holds only such values.
pub fits_unsigned :
    (r : IntInterval) (n : ℕ) (v : ℤ)
    → fits_in_unsigned_bits r n ≡ true
    → Contains r v
    → Contains (unsigned_full n) v
unfolding fits_in_unsigned_bits unsigned_full
fits_unsigned r n v e c =
    let (p, q) = and_split _ _ e in
    (Contains-closed (pos 0) (pos (2 ^ n) -ℤ pos 1) v).1
      (low_end_non_negative r.lo v p c.0, high_end_below r.hi v (pos (2 ^ n)) q c.1)

-- A range that fits in `n` signed bits holds only such values.
pub fits_signed :
    (r : IntInterval) (n : ℕ) (v : ℤ)
    → fits_in_signed_bits r n ≡ true
    → Contains r v
    → Contains (signed_full n) v
unfolding fits_in_signed_bits signed_full singleton
fits_signed r n v e c = elim (Bool-cases (n == 0)) [
  | inl z ↦ rw z (both_zero r.lo r.hi v (rw z at e) c.0 c.1)
  | inr z ↦
      let (p, q) = and_split _ _ (rw z at e) in
      rw z (
        (Contains-closed (negate (pos (2 ^ (n - 1)))) (pos (2 ^ (n - 1)) -ℤ pos 1) v).1 (
          low_end_above r.lo v (negate (pos (2 ^ (n - 1)))) p c.0,
          high_end_below r.hi v (pos (2 ^ (n - 1))) q c.1,
        ))
]

pub ≤ℤ_refl : (a : ℤ) → a ≤ℤ a
≤ℤ_refl a = omega arith

negate_anti : (a b : ℤ) → a ≤ℤ b → negate b ≤ℤ negate a
negate_anti a b h = ground arith

pub cast-Contains :
    (modulus : ℕ) (t : CastTarget) (r : IntInterval) (x y : ℤ)
    → Contains r x
    → Casts modulus t x y
    → Contains (cast_range modulus t r) y
unfolding cast_range
cast-Contains m to_field r x y c h = elim (Bool-cases (is_non_negative r)) [
  | inl e ↦ rw (e, h.0 (low_non_negative r x e c)) c
  | inr e ↦ rw e h.1
]
cast-Contains m (to_u n) r x y c h = elim (Bool-cases (fits_in_unsigned_bits r n)) [
  | inl e ↦ rw (e, h.0 (fits_unsigned r n x e c)) c
  | inr e ↦ rw e h.1
]
cast-Contains m (to_i n) r x y c h = elim (Bool-cases (fits_in_signed_bits r n)) [
  | inl e ↦ rw (e, h.0 (fits_signed r n x e c)) c
  | inr e ↦ rw e h.1
]
cast-Contains m to_witness r x y c h = rw h c
cast-Contains m nop r x y c h = rw h c
cast-Contains m array_to_slice r x y c h = (tt, tt)

pub sext-Contains :
    (n : ℕ) (r : IntInterval) (x y : ℤ)
    → Contains r x
    → (Contains (signed_full n) x → y ≡ x)
    → Contains (signed_full n) y
    → Contains (sext_range n r) y
unfolding sext_range
sext-Contains n r x y c h k = elim (Bool-cases (fits_in_signed_bits r n)) [
  | inl e ↦ rw (e, h (fits_signed r n x e c)) c
  | inr e ↦ rw e k
]

-- Complements, on the type and the two ends of the range.
pub not-Contains :
    (d : IntInterval) (t : TypeExpr) (l h : Option ℤ) (x y : ℤ)
    → Contains d y
    → AtLeast l x
    → AtMost h x
    → Inverts t x y
    → Contains (not_ends d t l h) y
not-Contains d (u n) (some l) (some h) x y c p q e = (Contains-closed _ _ y).1 (
  rw e (
      -ℤ_mono (pos (2 ^ n) -ℤ pos 1) (pos (2 ^ n) -ℤ pos 1) h x (≤ℤ_refl (pos (2 ^ n) -ℤ pos 1)) q),
  rw e (
      -ℤ_mono (pos (2 ^ n) -ℤ pos 1) (pos (2 ^ n) -ℤ pos 1) x l (≤ℤ_refl (pos (2 ^ n) -ℤ pos 1)) p),
)
not-Contains d (i n) (some l) (some h) x y c p q e = (Contains-closed _ _ y).1 (
  rw e (-ℤ_mono (negate h) (negate x) (pos 1) (pos 1) (negate_anti x h q) (≤ℤ_refl (pos 1))),
  rw e (-ℤ_mono (negate x) (negate l) (pos 1) (pos 1) (negate_anti l x p) (≤ℤ_refl (pos 1))),
)
not-Contains d _ _ _ x y c p q e = c
