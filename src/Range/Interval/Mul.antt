-- ===== src/Range/Interval/Mul.antt =====
-- The product of two intervals holds the products of their members.
use mavros.Prelude.{
  ◌≡◌, refl, ◌∙◌, ◌⊎◌, inl, inr, true, false, ◌||◌, Option, none, some, arith, ap, Bool-cases,
}
use mavros.Prelude.Int.{
  ℤ, pos, ◌*ℤ◌, ◌≤ℤ◌, *ℤ_mono, *ℤ_anti, *ℤ_comm, ≤ℤ_trans, *ℤ_parts, eq_of_parts,
}
use mavros.Range.Interval.{IntInterval, is_empty, opt_mul, mul, lower_end, upper_end, is_zero}
use mavros.Range.Interval.Lattice.{Bounds, AtLeast, AtMost, Contains, Contains-ne-empty}

zero_eq : (z : ℤ) → is_zero z ≡ true → z ≡ pos 0
zero_eq z h = ground arith

mul-zero : (a : ℤ) → a *ℤ pos 0 ≡ pos 0
mul-zero a = eq_of_parts _ _ (omega (arith, *ℤ_parts a (pos 0)))

zero-mul : (a : ℤ) → pos 0 *ℤ a ≡ pos 0
zero-mul a = *ℤ_comm (pos 0) a ∙ mul-zero a

sign : (b : ℤ) → (pos 0 ≤ℤ b) ⊎ (b ≤ℤ pos 0)
sign b = omega arith

squeezed : (b : ℤ) → pos 0 ≤ℤ b → b ≤ℤ pos 0 → b ≡ pos 0
squeezed b p q = ground arith

-- An order on the integers that multiplication keeps or turns by the sign: `≤` or its converse. So
-- both ends of the product are one argument.
abbrev Order : Type 1
Order = ℤ → ℤ → Type 0

record IsSigned (R : Order) : Type 0 where
  reflexive : (a : ℤ) → R a a
  transitive : (a b c : ℤ) → R a b → R b c → R a c
  grows : (a b c : ℤ) → R a b → pos 0 ≤ℤ c → R (a *ℤ c) (b *ℤ c)
  falls : (a b c : ℤ) → R a b → c ≤ℤ pos 0 → R (b *ℤ c) (a *ℤ c)
  antisymmetric : (a b : ℤ) → R a b → R b a → a ≡ b

≤ℤ-IsSigned : IsSigned ◌≤ℤ◌
≤ℤ-IsSigned = record {
  reflexive = λ a. omega arith;
  transitive = ≤ℤ_trans;
  grows = *ℤ_mono;
  falls = *ℤ_anti;
  antisymmetric = λ a b p q. eq_of_parts a b (omega arith);
}

≥ℤ-IsSigned : IsSigned (λ a b. b ≤ℤ a)
≥ℤ-IsSigned = record {
  reflexive = λ a. omega arith;
  transitive = λ a b c p q. ≤ℤ_trans c b a q p;
  grows = λ a b c p q. *ℤ_mono b a c p q;
  falls = λ a b c p q. *ℤ_anti b a c p q;
  antisymmetric = λ a b p q. eq_of_parts a b (omega arith);
}

module _ (R : Order) (signed : IsSigned R) where
  -- An end that passes `v`; an infinite end passes everything. `After` is the other side.
  abbrev Passes : Option ℤ → ℤ → Type 0
  Passes = Bounds R

  abbrev After : Option ℤ → ℤ → Type 0
  After = Bounds (λ x v. R v x)

  -- A finite end `x` of the first interval, with both ends of the second around `b`.
  corner_some :
      (x b v : ℤ) (m k : Option ℤ)
      → R (x *ℤ b) v
      → Passes m b
      → After k b
      → Passes (opt_mul (some x) m) v ⊎ Passes (opt_mul (some x) k) v
  corner_some x b v m k h p q = elim (sign x) [
    | inl s ↦ inl (go_m m p s)
    | inr s ↦ inr (go_k k q s)
  ]
    where
      swap : (y : ℤ) → R (y *ℤ x) (b *ℤ x) → R (x *ℤ y) v
      swap y r = signed.transitive _ _ _ (rw (*ℤ_comm x y, *ℤ_comm x b) r) h

      vanish : is_zero x ≡ true → R (pos 0) v
      vanish e = rw (zero_eq x e, zero-mul b) at h

      go_m : (m : Option ℤ) → Passes m b → pos 0 ≤ℤ x → Passes (opt_mul (some x) m) v
      go_m (some y) p s = swap y (signed.grows y b x p s)
      go_m none p s = elim (Bool-cases (is_zero x)) [ inl e ↦ rw e (vanish e) | inr e ↦ rw e tt ]

      go_k : (k : Option ℤ) → After k b → x ≤ℤ pos 0 → Passes (opt_mul (some x) k) v
      go_k (some y) q s = swap y (signed.falls b y x q s)
      go_k none q s = elim (Bool-cases (is_zero x)) [ inl e ↦ rw e (vanish e) | inr e ↦ rw e tt ]

  -- An infinite end of the first interval: the product is finite only where `b` is zero.
  corner_none :
      (a b : ℤ) (m k : Option ℤ)
      → Passes m b
      → After k b
      → Passes (opt_mul none m) (a *ℤ b) ⊎ Passes (opt_mul none k) (a *ℤ b)
  corner_none a b none k p q = inl tt
  corner_none a b (some y) none p q = inr tt
  corner_none a b (some y) (some z) p q = elim (Bool-cases (is_zero y)) [
    | inr e ↦ inl (rw e tt)
    | inl e ↦ elim (Bool-cases (is_zero z)) [
      | inr f ↦ inr (rw f tt)
      | inl f ↦ inl (
          rw (e, product_zero (rw (zero_eq y e) at p) (rw (zero_eq z f) at q))
            (signed.reflexive (pos 0)))
    ]
  ]
    where
      product_zero : R (pos 0) b → R b (pos 0) → a *ℤ b ≡ pos 0
      product_zero p q = ap (λ t. a *ℤ t) (signed.antisymmetric b (pos 0) q p) ∙ mul-zero a

  corner :
      (e m k : Option ℤ) (a b : ℤ)
      → Passes (opt_mul e (some b)) (a *ℤ b) ⊎ (e ≡ none)
      → Passes m b
      → After k b
      → Passes (opt_mul e m) (a *ℤ b) ⊎ Passes (opt_mul e k) (a *ℤ b)
  corner none m k a b h p q = corner_none a b m k p q
  corner (some x) m k a b (inl h) p q = corner_some x b (a *ℤ b) m k h p q
  corner (some x) m k a b (inr h) p q = cc

  -- One of the four products of ends passes the product of two members.
  corners :
      (l h m k : Option ℤ) (a b : ℤ)
      → Passes l a
      → After h a
      → Passes m b
      → After k b
      → (Passes (opt_mul l m) (a *ℤ b) ⊎ Passes (opt_mul l k) (a *ℤ b))
        ⊎ (Passes (opt_mul h m) (a *ℤ b) ⊎ Passes (opt_mul h k) (a *ℤ b))
  corners l h m k a b pl ph pm pk = elim (sign b) [
    | inl s ↦ inl (corner l m k a b (by_low l pl s) pm pk)
    | inr s ↦ inr (corner h m k a b (by_high h ph s) pm pk)
  ]
    where
      by_low :
          (l : Option ℤ)
          → Passes l a
          → pos 0 ≤ℤ b
          → Passes (opt_mul l (some b)) (a *ℤ b) ⊎ (l ≡ none)
      by_low none p s = inr refl
      by_low (some x) p s = inl (signed.grows x a b p s)

      by_high :
          (h : Option ℤ)
          → After h a
          → b ≤ℤ pos 0
          → Passes (opt_mul h (some b)) (a *ℤ b) ⊎ (h ≡ none)
      by_high none p s = inr refl
      by_high (some x) p s = inl (signed.falls a x b p s)

AtLeast-lower_end : (p q : Option ℤ) (v : ℤ) → AtLeast p v ⊎ AtLeast q v → AtLeast (lower_end p q) v
AtLeast-lower_end none q v h = tt
AtLeast-lower_end (some p) none v h = tt
AtLeast-lower_end (some p) (some q) v h = ground arith

AtMost-upper_end : (p q : Option ℤ) (v : ℤ) → AtMost p v ⊎ AtMost q v → AtMost (upper_end p q) v
AtMost-upper_end none q v h = tt
AtMost-upper_end (some p) none v h = tt
AtMost-upper_end (some p) (some q) v h = ground arith

-- The three rounds of the loop.
lowest :
    (p q v w : Option ℤ) (x : ℤ)
    → (AtLeast p x ⊎ AtLeast q x) ⊎ (AtLeast v x ⊎ AtLeast w x)
    → AtLeast (lower_end (lower_end (lower_end p q) v) w) x
lowest p q v w x (inl h) =
    AtLeast-lower_end _ w x (inl (AtLeast-lower_end _ v x (inl (AtLeast-lower_end p q x h))))
lowest p q v w x (inr (inl h)) = AtLeast-lower_end _ w x (inl (AtLeast-lower_end _ v x (inr h)))
lowest p q v w x (inr (inr h)) = AtLeast-lower_end _ w x (inr h)

highest :
    (p q v w : Option ℤ) (x : ℤ)
    → (AtMost p x ⊎ AtMost q x) ⊎ (AtMost v x ⊎ AtMost w x)
    → AtMost (upper_end (upper_end (upper_end p q) v) w) x
highest p q v w x (inl h) =
    AtMost-upper_end _ w x (inl (AtMost-upper_end _ v x (inl (AtMost-upper_end p q x h))))
highest p q v w x (inr (inl h)) = AtMost-upper_end _ w x (inl (AtMost-upper_end _ v x (inr h)))
highest p q v w x (inr (inr h)) = AtMost-upper_end _ w x (inr h)

mul_neither_empty :
    (r s : IntInterval) (a b : ℤ) → Contains r a → Contains s b → (is_empty r || is_empty s) ≡ false
mul_neither_empty r s a b c d = rw (Contains-ne-empty r a c, Contains-ne-empty s b d)

swap_sums {ℓ} : {A B C D : Type ℓ} → (A ⊎ B) ⊎ (C ⊎ D) → (D ⊎ C) ⊎ (B ⊎ A)
swap_sums (inl (inl a)) = inr (inr a)
swap_sums (inl (inr b)) = inr (inl b)
swap_sums (inr (inl c)) = inl (inr c)
swap_sums (inr (inr d)) = inl (inl d)

-- The product of two intervals, infinite ends included, holds the products of their members.
pub Contains-mul :
    (r s : IntInterval) (a b : ℤ) → Contains r a → Contains s b → Contains (mul r s) (a *ℤ b)
unfolding mul
Contains-mul r s a b c d = rw (mul_neither_empty r s a b c d) (
  lowest _ _ _ _ _ (corners ◌≤ℤ◌ ≤ℤ-IsSigned r.lo r.hi s.lo s.hi a b c.0 c.1 d.0 d.1),
  highest _ _ _ _ _
      (swap_sums (corners (λ x y. y ≤ℤ x) ≥ℤ-IsSigned r.hi r.lo s.hi s.lo a b c.1 c.0 d.1 d.0)),
)
