-- ===== src/Range/Transfer/Sound.antt =====
-- `transfer` (value_range_analysis.rs) keeps every value inside its bound.
use mathlib.Core.Path.{subst}
use mavros.Prelude.{
  ==_eq, arith, ℕ, ◌^◌, ◌<◌, ◌≡◌, ◌⊎◌, inl, inr, Option, none, some, List, [], ◌∷◌, ◌==◌,
  Bool-cases, if◌then◌else◌,
}
use mavros.Prelude.Int.{ℤ, pos, ◌-ℤ◌}
use mavros.Types.{TypeExpr, strip_witness}
use mavros.Range.Interval.{
  IntInterval, top, for_type, for_stripped, unsigned_full, closed, join, mul,
}
use mavros.Range.Interval.Lattice.{Contains, Contains-intersect, Contains-join}
use mavros.Range.Interval.Mul.{Contains-mul}
use mavros.Range.Transfer.{
  OpCode, cast, sext, bit_range, write_witness, fresh_witness, value_of, cmp, not_op,
  binary_arith_op, mul_const, select, guard, other, Env, State, with_default, eq_bound, get,
  overwrite, signed_within, bit_range_range, type_range, cap_to_type, default_all, transfer,
}
use mavros.Range.Transfer.Meaning.{Covers, Typed, Holds}
use mavros.Range.Transfer.Binary.{binary-Contains}
use mavros.Range.Transfer.Single.{cast-Contains, sext-Contains, not-Contains}

covered_entry :
    (r : IntInterval) (b : Option IntInterval) (ρ : ℕ → ℤ) (v w : ℕ)
    → Contains r (ρ v)
    → Contains (with_default b top) (ρ w)
    → Contains (with_default (if w == v then some r else b) top) (ρ w)
covered_entry r b ρ v w d c = elim (Bool-cases (w == v)) [
  | inl e ↦ rw (e, ==_eq w v e) d
  | inr e ↦ rw e c
]

overwrite-Covers :
    (s : State) (ρ : ℕ → ℤ) (v : ℕ) (r : IntInterval)
    → Covers s ρ
    → Contains r (ρ v)
    → Covers (overwrite s v r) ρ
unfolding get overwrite
overwrite-Covers s ρ v r c d w = elim (Bool-cases (eq_bound (s.bounds v) r)) [
  | inl e ↦ rw e (c w)
  | inr e ↦ rw e (covered_entry r (s.bounds w) ρ v w d (c w))
]

cap-Contains :
    (env : Env) (ρ : ℕ → ℤ) (v : ℕ) (r : IntInterval)
    → Typed env ρ
    → Contains r (ρ v)
    → Contains (cap_to_type env v r) (ρ v)
unfolding cap_to_type
cap-Contains env ρ v r t d = (Contains-intersect r (type_range env v) (ρ v)).1 (d, t v)

type-Contains :
    (env : Env) (ρ : ℕ → ℤ) (v : ℕ)
    → Typed env ρ
    → Contains (for_type env.modulus (env.value_type v)) (ρ v)
unfolding type_range
type-Contains env ρ v t = t v

default_all-Covers :
    (env : Env) (ρ : ℕ → ℤ) (rs : List ℕ) (s : State)
    → Typed env ρ
    → Covers s ρ
    → Covers (default_all env rs s) ρ
default_all-Covers env ρ [] s t c = c
default_all-Covers env ρ (v ∷ vs) s t c =
    default_all-Covers env ρ vs (overwrite s v (type_range env v)) t
      (overwrite-Covers s ρ v (type_range env v) c (t v))

bit_range-Contains :
    (env : Env) (ρ : ℕ → ℤ) (r w : ℕ)
    → Typed env ρ
    → Holds env (bit_range r w) ρ
    → Contains (bit_range_range env r w) (ρ r)
unfolding bit_range_range
bit_range-Contains env ρ r w t h =
    elim (Bool-cases (signed_within w (strip_witness (env.value_type r)))) [
      | inl e ↦ rw e (type-Contains env ρ r t)
      | inr e ↦ rw e (h e)
    ]

witness-Contains :
    (env : Env) (ρ : ℕ → ℤ) (r : ℕ) (t : TypeExpr)
    → Typed env ρ
    → strip_witness (env.value_type r) ≡ strip_witness t
    → Contains (for_type env.modulus t) (ρ r)
unfolding for_type
witness-Contains env ρ r t typed h =
    subst (λ x. Contains (for_stripped env.modulus x) (ρ r)) h (type-Contains env ρ r typed)

truth-Contains : (z : ℤ) → (z ≡ pos 0) ⊎ (z ≡ pos 1) → Contains (unsigned_full 1) z
unfolding unsigned_full closed ◌-ℤ◌
truth-Contains z (inl e) = rw e (ground arith)
truth-Contains z (inr e) = rw e (ground arith)

module _ (env : Env) (ρ : ℕ → ℤ) (bits_hold : (n : ℕ) → n < 2 ^ env.bits n)
    (typed : Typed env ρ) where
  capped :
      (s : State) (v : ℕ) (r : IntInterval)
      → Covers s ρ
      → Contains r (ρ v)
      → Covers (overwrite s v (cap_to_type env v r)) ρ
  capped s v r c d = overwrite-Covers s ρ v (cap_to_type env v r) c (cap-Contains env ρ v r typed d)

  chosen :
      (s : State) (r t f : ℕ)
      → Covers s ρ
      → Holds env (select r t f) ρ
      → Contains (join (get s t) (get s f)) (ρ r)
  chosen s r t f c (inl e) = Contains-join (get s t) (get s f) (ρ r) (inl (rw e (c t)))
  chosen s r t f c (inr e) = Contains-join (get s t) (get s f) (ρ r) (inr (rw e (c f)))

  -- Let every value lie in the range of its type and in its bound, and let an instruction relate its
  -- values as the computation on integers does: a sum, a difference or a product, that of `MulConst`
  -- included, does not wrap; a quotient or a remainder of a non-negative number by a positive one is
  -- that of the integers, so that a division is none of field elements; `SExt` gives a signed value of
  -- the width it extends; a comparison gives 0 or 1; and a fresh witness has the type that the
  -- instruction names. Then every value still lies in its bound after `transfer`.
  pub transfer-Covers :
      (op : OpCode) (s : State) → Covers s ρ → Holds env op ρ → Covers (transfer env op s) ρ
  unfolding transfer
  transfer-Covers (cast r x t) s c h =
      capped s r _ c (cast-Contains env.modulus t (get s x) (ρ x) (ρ r) (c x) h)
  transfer-Covers (sext r x n) s c h =
      capped s r _ c (sext-Contains n (get s x) (ρ x) (ρ r) (c x) h.0 h.1)
  transfer-Covers (bit_range r w) s c h = capped s r _ c (bit_range-Contains env ρ r w typed h)
  transfer-Covers (write_witness (some r) x) s c h = capped s r (get s x) c (rw h (c x))
  transfer-Covers (write_witness none x) s c h = c
  transfer-Covers (fresh_witness r t) s c h =
      overwrite-Covers s ρ r _ c (witness-Contains env ρ r t typed h)
  transfer-Covers (value_of r x) s c h = capped s r (get s x) c (rw h (c x))
  transfer-Covers (cmp r) s c h = overwrite-Covers s ρ r _ c (truth-Contains (ρ r) h)
  transfer-Covers (not_op r x) s c h = capped s r _ c (
      not-Contains (type_range env r) (strip_witness (env.value_type r)) (get s x).lo (get s x).hi
        (ρ x) (ρ r) (typed r) (c x).0 (c x).1 h)
  transfer-Covers (binary_arith_op k r x y) s c h = capped s r _ c (
      binary-Contains env (type_range env r) (get s x) (get s y) (ρ x) (ρ y) (ρ r) bits_hold
        (typed r) (c x) (c y) k h)
  transfer-Covers (mul_const r k x) s c h =
      capped s r (mul (get s k) (get s x)) c
        (rw h (Contains-mul (get s k) (get s x) (ρ k) (ρ x) (c k) (c x)))
  transfer-Covers (select r t f) s c h = capped s r _ c (chosen s r t f c h)
  transfer-Covers (guard inner) s c h = transfer-Covers inner s c h
  transfer-Covers (other rs) s c h = default_all-Covers env ρ rs s typed c
