-- ===== src/Ssa/Program/Duplicate/Fresh.antt =====
-- The identifiers that `duplicate_function` (compiler/src/compiler/ssa/mod.rs) gives to the values of
-- a copy.
use mathlib.Core.List.{Memᴰ}
use mavros.Prelude.{
  ℕ, suc, ◌+◌, ◌^◌, ◌%◌, ◌<◌, ◌≤◌, ◌≡◌, refl, sym, ap, ◌∙◌, false, ◌||◌, some, List, [], ◌∷◌,
  length, inl, inr, Bool-cases, none-some, arith,
}
use mavros.Ssa.Dict.{
  Dict, get, insert, contains_key, get-insert_self, get-insert_ne, contains_key-get,
  get-insert_cases, contains_key-some,
}
use mavros.Ssa.BiMap.{BiMap}
use mavros.Ssa.Program.{Ssa, is_const, fresh_value}
use mavros.Ssa.Program.Duplicate.{allocate_one, allocate}

module _ {Op Ty C : Type 0} {bimap : BiMap C} where
  abbrev pub with_next : ℕ → Ssa Op Ty bimap → Ssa Op Ty bimap
  with_next n s = record s { next_value_id = n }

  -- What holds of `remap` while the loop that began at `s0` is at `s`.
  pub record IsRemap (s0 : Ssa Op Ty bimap) (remap : Dict ℕ) (s : Ssa Op Ty bimap) : Type 0 where
    pub above : (v w : ℕ) → get v remap ≡ some w → s0.next_value_id ≤ w
    pub below : (v w : ℕ) → get v remap ≡ some w → w < s.next_value_id
    pub single : (v x w : ℕ) → get v remap ≡ some w → get x remap ≡ some w → v ≡ x
    pub variable : (v w : ℕ) → get v remap ≡ some w → is_const v s0 ≡ false
    pub started : s0.next_value_id ≤ s.next_value_id
    pub rest : s ≡ with_next (s.next_value_id) s0

  pub empty-IsRemap : (s : Ssa Op Ty bimap) → IsRemap s [] s
  empty-IsRemap s = record {
    above = λ v w e. absurd (none-some e);
    below = λ v w e. absurd (none-some e);
    single = λ v x w e. absurd (none-some e);
    variable = λ v w e. absurd (none-some e);
    started = omega arith;
    rest = refl;
  }

  is_const_rest :
      (s0 s : Ssa Op Ty bimap) (v : ℕ)
      → s ≡ with_next (s.next_value_id) s0
      → is_const v s ≡ is_const v s0
  unfolding is_const
  is_const_rest s0 s v e = rw e refl

  allocate_one-IsRemap :
      (s0 s : Ssa Op Ty bimap) (remap : Dict ℕ) (v : ℕ)
      → suc (s.next_value_id) < 2 ^ 64
      → IsRemap s0 remap s
      → IsRemap s0 ((allocate_one v remap s).0) ((allocate_one v remap s).1)
  unfolding allocate_one fresh_value
  allocate_one-IsRemap s0 s remap v b inv =
      elim (Bool-cases (contains_key v remap || is_const v s)) [
        | inl t ↦ rw t inv
        | inr t ↦ rw t (record {
          above = λ x w e. elim (get-insert_cases x v n w remap e) [
            | inl (p, q) ↦ omega (arith, q, inv.started)
            | inr q ↦ inv.above x w q
          ];
          below = λ x w e. elim (get-insert_cases x v n w remap e) [
            | inl (p, q) ↦ omega (arith, q, b)
            | inr q ↦ omega (arith, b, inv.below x w q)
          ];
          single = single t;
          variable = λ x w e. elim (get-insert_cases x v n w remap e) [
            | inl (p, q) ↦ rw p (variable t)
            | inr q ↦ inv.variable x w q
          ];
          started = omega (arith, b, inv.started);
          rest = ap (with_next (suc n % 2 ^ 64)) (inv.rest);
        })
      ]
    where
      n : ℕ
      n = s.next_value_id

      variable : (contains_key v remap || is_const v s) ≡ false → is_const v s0 ≡ false
      variable t = sym (is_const_rest s0 s v (inv.rest)) ∙ ground arith

      single :
          (contains_key v remap || is_const v s) ≡ false
          → (x y w : ℕ) → get x (insert v n remap) ≡ some w
          → get y (insert v n remap) ≡ some w
          → x ≡ y
      single t x y w e h = elim (get-insert_cases x v n w remap e) [
        | inl (p, q) ↦ elim (get-insert_cases y v n w remap h) [
          | inl (r, z) ↦ p ∙ sym r
          | inr r ↦ absurd (omega (arith, q, inv.below y w r))
        ]
        | inr p ↦ elim (get-insert_cases y v n w remap h) [
          | inl (r, z) ↦ absurd (omega (arith, z, inv.below x w p))
          | inr r ↦ inv.single x y w p r
        ]
      ]

  -- The value has its place in `remap` after its round, unless it is a constant.
  get-allocate_one :
      (s : Ssa Op Ty bimap) (remap : Dict ℕ) (v : ℕ)
      → is_const v s ≡ false
      → (w : ℕ) × (get v ((allocate_one v remap s).0) ≡ some w)
  unfolding allocate_one fresh_value
  get-allocate_one s remap v c = elim (Bool-cases (contains_key v remap)) [
    | inl t ↦ rw t (contains_key-some v remap t)
    | inr t ↦ rw (t, c) (s.next_value_id, get-insert_self v (s.next_value_id) remap)
  ]

  get-allocate_one_kept :
      (s : Ssa Op Ty bimap) (remap : Dict ℕ) (v x w : ℕ)
      → get x remap ≡ some w
      → get x ((allocate_one v remap s).0) ≡ some w
  unfolding allocate_one fresh_value
  get-allocate_one_kept s remap v x w e = elim (Bool-cases (contains_key v remap || is_const v s)) [
    | inl t ↦ rw t e
    | inr t ↦ rw t (get-insert_ne x v (s.next_value_id) remap (λ p. clash t p) ∙ e)
  ]
    where
      clash : (contains_key v remap || is_const v s) ≡ false → x ≡ v → ⊥
      clash t p =
          none-some
            (sym (contains_key-get v remap (ground arith)) ∙ ap (λ y. get y remap) (sym p) ∙ e)

  next_value_id-allocate_one :
      (s : Ssa Op Ty bimap) (remap : Dict ℕ) (v : ℕ)
      → suc (s.next_value_id) < 2 ^ 64
      → (allocate_one v remap s).1.next_value_id ≤ suc (s.next_value_id)
  unfolding allocate_one fresh_value
  next_value_id-allocate_one s remap v b =
      elim (Bool-cases (contains_key v remap || is_const v s)) [
        | inl t ↦ rw t (omega arith)
        | inr t ↦ rw t (omega (arith, b))
      ]

  pub allocate-IsRemap :
      (s0 : Ssa Op Ty bimap) (vs : List ℕ) (remap : Dict ℕ) (s : Ssa Op Ty bimap)
      → s.next_value_id + length vs < 2 ^ 64
      → IsRemap s0 remap s
      → IsRemap s0 ((allocate vs remap s).0) ((allocate vs remap s).1)
  unfolding allocate
  allocate-IsRemap s0 [] remap s b inv = inv
  allocate-IsRemap s0 (v ∷ vs) remap s b inv =
      allocate-IsRemap s0 vs ((allocate_one v remap s).0) ((allocate_one v remap s).1)
        (omega (arith, b, next_value_id-allocate_one s remap v (omega (arith, b))))
        (allocate_one-IsRemap s0 s remap v (omega (arith, b)) inv)

  pub get-allocate_kept :
      (vs : List ℕ) (remap : Dict ℕ) (s : Ssa Op Ty bimap) (x w : ℕ)
      → get x remap ≡ some w
      → get x ((allocate vs remap s).0) ≡ some w
  unfolding allocate
  get-allocate_kept [] remap s x w e = e
  get-allocate_kept (v ∷ vs) remap s x w e =
      get-allocate_kept vs ((allocate_one v remap s).0) ((allocate_one v remap s).1) x w
        (get-allocate_one_kept s remap v x w e)

  pub get-allocate :
      (s0 : Ssa Op Ty bimap) (vs : List ℕ) (remap : Dict ℕ) (s : Ssa Op Ty bimap) (x : ℕ)
      → s.next_value_id + length vs < 2 ^ 64
      → IsRemap s0 remap s
      → Memᴰ x vs
      → is_const x s0 ≡ false
      → (w : ℕ) × (get x ((allocate vs remap s).0) ≡ some w)
  unfolding allocate
  get-allocate s0 [] remap s x b inv m c = elim m [ ]
  get-allocate s0 (v ∷ vs) remap s x b inv (Memᴰ.head e) c =
      let (w, p) = get-allocate_one s remap x (is_const_rest s0 s x (inv.rest) ∙ c) in
      (
        w,
        get-allocate_kept vs ((allocate_one v remap s).0) ((allocate_one v remap s).1) x w
            (ap (λ y. get x ((allocate_one y remap s).0)) (sym e) ∙ p),
      )
  get-allocate s0 (v ∷ vs) remap s x b inv (Memᴰ.tail m) c =
      get-allocate s0 vs ((allocate_one v remap s).0) ((allocate_one v remap s).1) x
        (omega (arith, b, next_value_id-allocate_one s remap v (omega (arith, b))))
        (allocate_one-IsRemap s0 s remap v (omega (arith, b)) inv) m c

  pub next_value_id-allocate :
      (vs : List ℕ) (remap : Dict ℕ) (s : Ssa Op Ty bimap)
      → s.next_value_id + length vs < 2 ^ 64
      → (allocate vs remap s).1.next_value_id ≤ s.next_value_id + length vs
  unfolding allocate
  next_value_id-allocate [] remap s b = omega arith
  next_value_id-allocate (v ∷ vs) remap s b =
      let one = next_value_id-allocate_one s remap v (omega (arith, b)) in
      omega (
        arith,
        one,
        b,
        next_value_id-allocate vs ((allocate_one v remap s).0) ((allocate_one v remap s).1)
            (omega (arith, b, one)),
      )
