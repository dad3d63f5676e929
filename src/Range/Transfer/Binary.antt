-- ===== src/Range/Transfer/Binary.antt =====
-- The ranges of the arithmetic instructions hold the results.
use native.Mathlib.Nat.{mod-lt}
use mavros.Prelude.{
  ℕ, zero, suc, ◌+◌, ◌-◌, ◌/◌, ◌^◌, ◌<◌, ◌≡◌, refl, inl, inr, true, false, ◌&&◌, Option, none, some,
  arith, ap, sym, Bool-cases, if◌then◌else◌,
}
use mavros.Prelude.Int.{
  ℤ, pos, negsuc, pos_part, neg_part, ◌-ℤ◌, ◌≤ℤ◌, leb_ℤ, ltb_ℤ, int_laws, eq_of_parts, ≤ℤ_trans,
  ltb→lt_ℤ,
}
use mavros.Range.Interval.{IntInterval, is_non_negative}
use mavros.Range.Interval.Lattice.{AtLeast, AtMost, Contains, Contains-closed}
use mavros.Range.Interval.Arith.{Contains-add, Contains-sub, Contains-div_const_pos}
use mavros.Range.Interval.Mul.{Contains-mul}
use mavros.Range.Transfer.{
  BinaryArithOpKind, add_op, mul_op, div_op, sub_op, and_op, or_op, xor_op, shl_op, shr_op, mod_op,
  Env, next_pow2_minus_one, div_range, mod_range, and_range, or_range, binary_range,
}
use mavros.Range.Transfer.Meaning.{Computes}
use mavros.Range.Transfer.Single.{and_split, low_non_negative}

pub as_pos : (x : ℤ) → pos 0 ≤ℤ x → x ≡ pos (pos_part x)
as_pos (pos n) h = refl
as_pos (negsuc n) h = absurd (omega arith)

pub as_suc : (x : ℤ) → pos 1 ≤ℤ x → x ≡ pos (suc (pos_part x - 1))
as_suc (pos n) h = ap pos (omega arith)
as_suc (negsuc n) h = absurd (omega arith)

constant_of :
    (a b : ℤ) → ((leb_ℤ a b && leb_ℤ b a) && ltb_ℤ (pos 0) a) ≡ true → (a ≡ b) × (pos 1 ≤ℤ a)
constant_of a b f = (eq_of_parts a b (ground arith), ground arith)

between : (a y : ℤ) → a ≤ℤ y → y ≤ℤ a → y ≡ a
between a y p q = eq_of_parts y a (omega arith)

quotient_by :
    (x y z a : ℤ)
    → pos 0 ≤ℤ x
    → pos 1 ≤ℤ a
    → y ≡ a
    → Computes div_op x y z
    → z ≡ pos (pos_part x / pos_part a)
quotient_by x y z (pos zero) e o s h = absurd (omega arith)
quotient_by x y z (pos (suc n)) e o s h = h (pos_part x) n (as_pos x e) s
quotient_by x y z (negsuc n) e o s h = absurd (omega arith)

remainder_bounds :
    (x y z : ℤ) → pos 0 ≤ℤ x → pos 1 ≤ℤ y → Computes mod_op x y z → (pos 0 ≤ℤ z) × (z ≤ℤ y -ℤ pos 1)
remainder_bounds x (pos zero) z e o h = absurd (omega arith)
remainder_bounds x (pos (suc n)) z e o h =
    let s = h (pos_part x) n (as_pos x e) refl in
    rw s (omega arith, omega (int_laws, mod-lt (pos_part x) {m = suc n} (omega arith)))
remainder_bounds x (negsuc n) z e o h = absurd (omega arith)

div-Contains :
    (d l : IntInterval) (a b : Option ℤ) (x y z : ℤ)
    → is_non_negative l ≡ true
    → Contains l x
    → AtLeast a y
    → AtMost b y
    → Contains d z
    → Computes div_op x y z
    → Contains (div_range d l a b) z
div-Contains d l none b x y z e c p q k h = k
div-Contains d l (some a) none x y z e c p q k h = k
div-Contains d l (some a) (some b) x y z e c p q k h =
    elim (Bool-cases ((leb_ℤ a b && leb_ℤ b a) && ltb_ℤ (pos 0) a)) [
      | inl f ↦
          let (same, one) = constant_of a b f in
          rw
            (
              f,
              quotient_by x y z a (low_non_negative l x e c) one
                  (between a y p (rw (sym same) at q)) h,
            )
            (Contains-div_const_pos l (pos_part x) (pos_part a) e
              (rw (as_pos x (low_non_negative l x e c)) at c))
      | inr f ↦ rw f k
    ]

mod-Contains :
    (d : IntInterval) (a b : Option ℤ) (x y z : ℤ)
    → pos 0 ≤ℤ x
    → AtLeast a y
    → AtMost b y
    → Contains d z
    → Computes mod_op x y z
    → Contains (mod_range d a b) z
mod-Contains d none b x y z c p q k h = k
mod-Contains d (some a) none x y z c p q k h = k
mod-Contains d (some a) (some b) x y z c p q k h = elim (Bool-cases (ltb_ℤ (pos 0) a)) [
  | inl f ↦
      let (h₀, h₁) = remainder_bounds x y z c (omega (arith, ltb→lt_ℤ (pos 0) a f)) h in
      rw f ((Contains-closed (pos 0) (b -ℤ pos 1) z).1 (h₀, omega int_laws))
  | inr f ↦ rw f k
]

and-Contains :
    (d : IntInterval) (a b : Option ℤ) (x y z : ℤ)
    → pos 0 ≤ℤ x
    → pos 0 ≤ℤ y
    → AtMost a x
    → AtMost b y
    → Contains d z
    → Computes and_op x y z
    → Contains (and_range d a b) z
and-Contains d none b x y z e f p q k h = k
and-Contains d (some a) none x y z e f p q k h = k
and-Contains d (some a) (some b) x y z e f p q k h =
    let (h₀, h₁, h₂) = h e f in
    (Contains-closed (pos 0) (if leb_ℤ a b then a else b) z).1 (h₀, ground arith)

zero_of : (m : ℤ) → (leb_ℤ m (pos 0) && leb_ℤ (pos 0) m) ≡ true → m ≤ℤ pos 0
zero_of m z = ground arith

below_of : (m c : ℤ) → leb_ℤ m c ≡ true → m ≤ℤ c
below_of m c f = ground arith

above_of : (m c : ℤ) → leb_ℤ m c ≡ false → pos_part c + neg_part m < pos_part m + neg_part c
above_of m c f = ground arith

-- `next_pow2_minus_one` is one below a power of two, and not below its argument.
mask_above :
    (bits : ℕ → ℕ) (m : ℤ)
    → ((n : ℕ) → n < 2 ^ bits n)
    → pos 0 ≤ℤ m
    → (k : ℕ) × (next_pow2_minus_one bits m ≡ pos (2 ^ k) -ℤ pos 1) × (m ≤ℤ pos (2 ^ k) -ℤ pos 1)
unfolding next_pow2_minus_one
mask_above bits m B e = elim (Bool-cases (leb_ℤ m (pos 0) && leb_ℤ (pos 0) m)) [
  | inl z ↦ (0, rw z (eq_of_parts _ _ (omega int_laws)), omega (int_laws, zero_of m z))
  | inr z ↦ elim (Bool-cases (leb_ℤ m (pos (2 ^ bits (pos_part m + neg_part m)) -ℤ pos 1))) [
    | inl f ↦ (bits (pos_part m + neg_part m), rw (z, f) refl, below_of m _ f)
    | inr f ↦ absurd (omega (int_laws, above_of m _ f, B (pos_part m + neg_part m)))
  ]
]

larger_above : (a b : ℤ) → (a ≤ℤ (if leb_ℤ b a then a else b)) × (b ≤ℤ (if leb_ℤ b a then a else b))
larger_above a b = ground arith

or_bounded :
    (bits : ℕ → ℕ) (m x y z : ℤ)
    → ((n : ℕ) → n < 2 ^ bits n)
    → pos 0 ≤ℤ x
    → pos 0 ≤ℤ y
    → x ≤ℤ m
    → y ≤ℤ m
    → Computes or_op x y z
    → (pos 0 ≤ℤ z) × (z ≤ℤ next_pow2_minus_one bits m)
or_bounded bits m x y z B e f p q h =
    let (h₀, h₁) = h e f in
    let (k, same, below) = mask_above bits m B (≤ℤ_trans (pos 0) x m e p) in
    let c = pos (2 ^ k) -ℤ pos 1 in
    (h₀, rw same (h₁ k (≤ℤ_trans x m c p below) (≤ℤ_trans y m c q below)))

-- `or_op` stands for XOR too: both only keep the operands' bit length.
or-Contains :
    (bits : ℕ → ℕ) (d : IntInterval) (a b : Option ℤ) (x y z : ℤ)
    → ((n : ℕ) → n < 2 ^ bits n)
    → pos 0 ≤ℤ x
    → pos 0 ≤ℤ y
    → AtMost a x
    → AtMost b y
    → Contains d z
    → Computes or_op x y z
    → Contains (or_range bits d a b) z
or-Contains bits d none b x y z B e f p q c h = c
or-Contains bits d (some a) none x y z B e f p q c h = c
or-Contains bits d (some a) (some b) x y z B e f p q c h =
    let m = if leb_ℤ b a then a else b in
    let (am, bm) = larger_above a b in
    (Contains-closed (pos 0) (next_pow2_minus_one bits m) z).1
      (or_bounded bits m x y z B e f (≤ℤ_trans x a m p am) (≤ℤ_trans y b m q bm) h)

module _ (env : Env) (d l r : IntInterval) (x y z : ℤ) (bits_hold : (n : ℕ) → n < 2 ^ env.bits n)
    (cd : Contains d z) (cl : Contains l x) (cr : Contains r y) where
  when_non_negative :
      (new : IntInterval)
      → (pos 0 ≤ℤ x → pos 0 ≤ℤ y → Contains new z)
      → Contains (if is_non_negative l && is_non_negative r then new else d) z
  when_non_negative new h = elim (Bool-cases (is_non_negative l && is_non_negative r)) [
    | inl e ↦
        let (p, q) = and_split _ _ e in
        rw e (h (low_non_negative l x p cl) (low_non_negative r y q cr))
    | inr e ↦ rw e cd
  ]

  -- The range of an arithmetic instruction holds its result.
  pub binary-Contains :
      (k : BinaryArithOpKind) → Computes k x y z → Contains (binary_range env k d l r) z
  unfolding binary_range
  binary-Contains add_op h = rw h (Contains-add l r x y cl cr)
  binary-Contains sub_op h = rw h (Contains-sub l r x y cl cr)
  binary-Contains mul_op h = rw h (Contains-mul l r x y cl cr)
  binary-Contains div_op h = elim (Bool-cases (is_non_negative l)) [
    | inl e ↦ rw e (div-Contains d l r.lo r.hi x y z e cl cr.0 cr.1 cd h)
    | inr e ↦ rw e cd
  ]
  binary-Contains mod_op h = elim (Bool-cases (is_non_negative l)) [
    | inl e ↦ rw e (mod-Contains d r.lo r.hi x y z (low_non_negative l x e cl) cr.0 cr.1 cd h)
    | inr e ↦ rw e cd
  ]
  binary-Contains and_op h =
      when_non_negative _ (λ e f. and-Contains d l.hi r.hi x y z e f cl.1 cr.1 cd h)
  binary-Contains or_op h =
      when_non_negative _
        (λ e f. or-Contains env.bits d l.hi r.hi x y z bits_hold e f cl.1 cr.1 cd h)
  binary-Contains xor_op h =
      when_non_negative _
        (λ e f. or-Contains env.bits d l.hi r.hi x y z bits_hold e f cl.1 cr.1 cd h)
  binary-Contains shl_op h = cd
  binary-Contains shr_op h = cd
