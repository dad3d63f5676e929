-- ===== src/Range/Interval/Lattice.antt =====
-- The members of an interval, and the set operations on intervals.
use mavros.Prelude.{
  ◌≡◌, refl, ◌↔◌, ◌⊎◌, inl, inr, Bool, true, false, ◌||◌, Option, none, some, arith, Bool-cases,
}
use mavros.Prelude.Int.{ℤ, ◌≤ℤ◌}
use mavros.Range.Interval.{
  IntInterval, empty, crossed, is_empty, closed, join, intersect, min_lo, max_hi, max_lo, min_hi,
}

-- `R` between an end and `v`, where the end is finite.
abbrev pub Bounds : (ℤ → ℤ → Type 0) → Option ℤ → ℤ → Type 0
Bounds R none v = Unit
Bounds R (some x) v = R x v

-- `v` is at least a lower end, at most an upper end.
abbrev pub AtLeast : Option ℤ → ℤ → Type 0
AtLeast = Bounds ◌≤ℤ◌

abbrev pub AtMost : Option ℤ → ℤ → Type 0
AtMost = Bounds (λ h v. v ≤ℤ h)

abbrev pub Contains : IntInterval → ℤ → Type 0
Contains r v = AtLeast r.lo v × AtMost r.hi v

ends_not_crossed : (l h : Option ℤ) (v : ℤ) → AtLeast l v → AtMost h v → crossed l h ≡ false
ends_not_crossed (some l) (some h) v p q = ground arith
ends_not_crossed (some l) none v p q = refl
ends_not_crossed none h v p q = refl

-- An interval with a member is not empty.
pub Contains-ne-empty : (r : IntInterval) (v : ℤ) → Contains r v → is_empty r ≡ false
unfolding is_empty
Contains-ne-empty r v c = ends_not_crossed r.lo r.hi v c.0 c.1

not_in_empty : (v : ℤ) → Contains empty v → ⊥
not_in_empty v c = omega arith

not_crossed_in : (l h : Option ℤ) (v : ℤ) → crossed l h ≡ true → AtLeast l v → AtMost h v → ⊥
not_crossed_in l h v e p q = cc (ends_not_crossed l h v p q)

max_lo_iff : (l m : Option ℤ) (v : ℤ) → AtLeast (max_lo l m) v ↔ (AtLeast l v × AtLeast m v)
max_lo_iff none m v = (λ p. (tt, p), λ p. p.1)
max_lo_iff (some l) none v = (λ p. (p, tt), λ p. p.0)
max_lo_iff (some l) (some m) v = ground arith

min_hi_iff : (l m : Option ℤ) (v : ℤ) → AtMost (min_hi l m) v ↔ (AtMost l v × AtMost m v)
min_hi_iff none m v = (λ p. (tt, p), λ p. p.1)
min_hi_iff (some l) none v = (λ p. (p, tt), λ p. p.0)
min_hi_iff (some l) (some m) v = ground arith

or_false : (a b : Bool) → a ≡ false → b ≡ false → (a || b) ≡ false
or_false a b p q = ground arith

-- The intersection holds exactly the common members.
pub Contains-intersect :
    (r s : IntInterval) (v : ℤ) → Contains (intersect r s) v ↔ (Contains r v × Contains s v)
unfolding intersect
Contains-intersect r s v = (
  λ c. elim (Bool-cases (is_empty r || is_empty s)) [
    | inl e ↦ absurd (not_in_empty v (rw e at c))
    | inr e ↦
        let c' = rw e at c in
        elim (Bool-cases (crossed (max_lo r.lo s.lo) (min_hi r.hi s.hi))) [
          | inl f ↦ absurd (not_in_empty v (rw f at c'))
          | inr f ↦
              let (p, q) = rw f at c' in
              let (p₁, p₂) = (max_lo_iff r.lo s.lo v).0 p in
              let (q₁, q₂) = (min_hi_iff r.hi s.hi v).0 q in ((p₁, q₁), (p₂, q₂))
        ]
  ],
  λ (c, d).
      let p = (max_lo_iff r.lo s.lo v).1 (c.0, d.0) in
      let q = (min_hi_iff r.hi s.hi v).1 (c.1, d.1) in
      rw
        (
          or_false _ _ (Contains-ne-empty r v c) (Contains-ne-empty s v d),
          ends_not_crossed (max_lo r.lo s.lo) (min_hi r.hi s.hi) v p q,
        )
        (p, q),
)

min_lo_below : (l m : Option ℤ) (v : ℤ) → AtLeast l v ⊎ AtLeast m v → AtLeast (min_lo l m) v
min_lo_below none m v p = tt
min_lo_below (some l) none v p = tt
min_lo_below (some l) (some m) v p = ground arith

max_hi_above : (l m : Option ℤ) (v : ℤ) → AtMost l v ⊎ AtMost m v → AtMost (max_hi l m) v
max_hi_above none m v p = tt
max_hi_above (some l) none v p = tt
max_hi_above (some l) (some m) v p = ground arith

-- The join holds the members of both.
pub Contains-join :
    (r s : IntInterval) (v : ℤ) → Contains r v ⊎ Contains s v → Contains (join r s) v
unfolding join
Contains-join r s v (inl c) = rw (Contains-ne-empty r v c) (elim (Bool-cases (is_empty s)) [
  | inl e ↦ rw e c
  | inr e ↦ rw e (min_lo_below r.lo s.lo v (inl c.0), max_hi_above r.hi s.hi v (inl c.1))
])
Contains-join r s v (inr c) = elim (Bool-cases (is_empty r)) [
  | inl e ↦ rw e c
  | inr e ↦
      rw (e, Contains-ne-empty s v c)
        (min_lo_below r.lo s.lo v (inr c.0), max_hi_above r.hi s.hi v (inr c.1))
]

-- `closed` holds exactly the integers between its ends.
pub Contains-closed : (lo hi v : ℤ) → Contains (closed lo hi) v ↔ ((lo ≤ℤ v) × (v ≤ℤ hi))
unfolding closed
Contains-closed lo hi v = ground arith
