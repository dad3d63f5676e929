-- ===== src/Artifacts/R1cs/Ad.antt =====
-- `compute_derivatives` and `check_ad_output`: the derivatives are the columns of the transposed
-- system, and the check accepts exactly them.
use mathlib.Core.Path.{ap₂}
use mavros.Prelude.{
  ℕ, zero, suc, ◌≤◌, ◌≡◌, refl, sym, ap, ◌∙◌, ◌↔◌, Bool, true, Option, none, some, List, [], ◌∷◌,
  ◌==◌, if◌then◌else◌, length, replicate, arith, Bool-cases, inl, inr, length-replicate, if_ap,
}
use mavros.Prelude.Field.{Field}
use mavros.Artifacts.R1cs.{
  R1C, Derivs, ◌>>=◌, compute_derivatives, check_ad_output, count_wrongs, count_wrong, felt_eq_iff,
}
use mavros.Artifacts.R1cs.Columns.{
  shift, column, derivs_fit, shift_columns, IsAction, add_rows_eq, length-shift,
}

module _ (F : Field) where
  open F use {Elem, nought, ◌⊕◌, ◌⊖◌, ◌⊗◌, ⊕_assoc, ⊕_comm, ⊕-nought, ⊖-⊕, ⊕-⊖, felt_discrete}

  add-IsAction : IsAction F ◌⊕◌
  add-IsAction = record { op-nought = ⊕-nought; op-op = ⊕_assoc }

  ⊖-nought : (x : Elem) → x ⊖ nought ≡ x
  ⊖-nought x = ap (λ y. y ⊖ nought) (sym (⊕-nought x)) ∙ ⊖-⊕ x nought

  restore : (x v w : Elem) → x ⊖ v ⊖ w ⊕ (v ⊕ w) ≡ x
  restore x v w = rw (⊕_comm v w, ← ⊕_assoc, ⊕-⊖, ⊕-⊖)

  ⊖-⊖ : (x v w : Elem) → x ⊖ v ⊖ w ≡ x ⊖ (v ⊕ w)
  ⊖-⊖ x v w = sym (⊖-⊕ (x ⊖ v ⊖ w) (v ⊕ w)) ∙ ap (λ y. y ⊖ (v ⊕ w)) (restore x v w)

  sub-IsAction : IsAction F ◌⊖◌
  sub-IsAction = record { op-nought = ⊖-nought; op-op = ⊖-⊖ }

  -- The derivatives are the given vectors plus the columns of the transposed system times the
  -- coefficients; the loop panics exactly when an index of a row with a coefficient is out of range.
  pub compute_derivatives_lem :
      (constraints : List (R1C F)) (coeffs : List Elem) (res : Derivs F)
      → compute_derivatives F constraints coeffs res ≡ (
          if derivs_fit F constraints coeffs res
          then some (shift_columns F ◌⊕◌ constraints coeffs res)
          else none)
  unfolding compute_derivatives
  compute_derivatives_lem constraints coeffs res =
      add_rows_eq F ◌⊕◌ add-IsAction constraints coeffs res

  shift-add-sub : (f : ℕ → Elem) (xs : List Elem) → shift F ◌⊕◌ f (shift F ◌⊖◌ f xs) ≡ xs
  unfolding shift
  shift-add-sub f [] = refl
  shift-add-sub f (x ∷ xs) = ap₂ ◌∷◌ (⊕-⊖ x (f 0)) (shift-add-sub (λ i. f (suc i)) xs)

  shift-sub-add : (f : ℕ → Elem) (xs : List Elem) → shift F ◌⊖◌ f (shift F ◌⊕◌ f xs) ≡ xs
  unfolding shift
  shift-sub-add f [] = refl
  shift-sub-add f (x ∷ xs) = ap₂ ◌∷◌ (⊖-⊕ x (f 0)) (shift-sub-add (λ i. f (suc i)) xs)

  abbrev zeros : ℕ → List Elem
  zeros n = replicate n nought

  abbrev pub no_derivs : ℕ → Derivs F
  no_derivs n = record { da = zeros n; db = zeros n; dc = zeros n }

  count_wrongs-zeros : (n w : ℕ) → count_wrongs F (zeros n) (zeros n) (zeros n) w ≡ some w
  unfolding count_wrongs
  count_wrongs-zeros zero w = refl
  count_wrongs-zeros (suc n) w = rw ((felt_eq_iff F nought nought).1 refl) (count_wrongs-zeros n w)

  count_wrongs-le : (a b c : List Elem) (w n : ℕ) → count_wrongs F a b c w ≡ some n → w ≤ n
  unfolding count_wrongs
  count_wrongs-le [] b c w n h = ground arith
  count_wrongs-le (x ∷ a) [] c w n h = cc
  count_wrongs-le (x ∷ a) (y ∷ b) [] w n h = cc
  count_wrongs-le (x ∷ a) (y ∷ b) (z ∷ c) w n h =
      ground
        (arith, count_wrongs-le a b c (count_wrong F z (count_wrong F y (count_wrong F x w))) n h)

  -- No entry is counted only where all three vectors are zero.
  count_wrongs_sound :
      (a b c : List Elem)
      → length b ≡ length a
      → length c ≡ length a
      → count_wrongs F a b c 0 ≡ some 0
      → (a ≡ zeros (length a)) × (b ≡ zeros (length a)) × (c ≡ zeros (length a))
  unfolding count_wrongs
  count_wrongs_sound [] [] [] hb hc h = (refl, refl, refl)
  count_wrongs_sound [] (y ∷ b) c hb hc h = absurd (omega arith)
  count_wrongs_sound [] [] (z ∷ c) hb hc h = absurd (omega arith)
  count_wrongs_sound (x ∷ a) [] c hb hc h = cc
  count_wrongs_sound (x ∷ a) (y ∷ b) [] hb hc h = cc
  count_wrongs_sound (x ∷ a) (y ∷ b) (z ∷ c) hb hc h = ground (
    arith,
    count_wrongs-le a b c (count_wrong F z (count_wrong F y (count_wrong F x 0))) 0 h,
    felt_eq_iff F x nought,
    felt_eq_iff F y nought,
    felt_eq_iff F z nought,
    count_wrongs_sound a b c (omega arith) (omega arith),
  )

  module _ (constraints : List (R1C F)) (coeffs : List Elem) (d : Derivs F)
      (hb : length d.db ≡ length d.da) (hc : length d.dc ≡ length d.da) where
    abbrev n : ℕ
    n = length d.da

    abbrev removed : Derivs F
    removed = shift_columns F ◌⊖◌ constraints coeffs d

    no_derivs_fit :
        derivs_fit F constraints coeffs (no_derivs n) ≡ derivs_fit F constraints coeffs d
    no_derivs_fit = simp (length-replicate, hb, hc)

    abbrev AllZero : Type 0
    AllZero = (removed.da ≡ zeros n) × (removed.db ≡ zeros n) × (removed.dc ≡ zeros n)

    removed_zero : count_wrongs F removed.da removed.db removed.dc 0 ≡ some 0 → AllZero
    removed_zero h = rw (length-shift F ◌⊖◌ _ d.da) at (
        count_wrongs_sound removed.da removed.db removed.dc (simp length-shift hb)
          (simp length-shift hc) h)

    restored : AllZero → shift_columns F ◌⊕◌ constraints coeffs (no_derivs n) ≡ d
    restored (za, zb, zc) = rw (← za) (λ i. record {
      da = shift-add-sub (column F (λ r. r.a) constraints coeffs) d.da i;
      db = (ap (shift F ◌⊕◌ _) (za ∙ sym zb) ∙ shift-add-sub _ d.db) i;
      dc = (ap (shift F ◌⊕◌ _) (za ∙ sym zc) ∙ shift-add-sub _ d.dc) i;
    })

    abbrev verdict : Derivs F → Option Bool
    verdict e = do wrongs ← count_wrongs F e.da e.db e.dc 0; some (wrongs == 0)

    check_eq :
        check_ad_output F constraints coeffs d
        ≡ (if derivs_fit F constraints coeffs d then verdict removed else none)
    unfolding check_ad_output
    check_eq =
        rw (add_rows_eq F ◌⊖◌ sub-IsAction constraints coeffs d)
          (if_ap (λ r. r >>= verdict) (derivs_fit F constraints coeffs d) (some removed) none)

    compute_eq : compute_derivatives F constraints coeffs (no_derivs n) ≡ (
        if derivs_fit F constraints coeffs d
        then some (shift_columns F ◌⊕◌ constraints coeffs (no_derivs n))
        else none)
    compute_eq = rw (compute_derivatives_lem, no_derivs_fit)

    verdict_count :
        verdict removed ≡ some true → count_wrongs F removed.da removed.db removed.dc 0 ≡ some 0
    verdict_count h = ground arith

    verdict_zero :
        shift_columns F ◌⊕◌ constraints coeffs (no_derivs n) ≡ d → verdict removed ≡ some true
    verdict_zero q =
        rw
          (
            ap (λ (e : Derivs F). shift F ◌⊖◌ (column F (λ r. r.a) constraints coeffs) e.da) (sym q)
                ∙ shift-sub-add _ (zeros n),
            ap (λ (e : Derivs F). shift F ◌⊖◌ (column F (λ r. r.b) constraints coeffs) e.db) (sym q)
                ∙ shift-sub-add _ (zeros n),
            ap (λ (e : Derivs F). shift F ◌⊖◌ (column F (λ r. r.c) constraints coeffs) e.dc) (sym q)
                ∙ shift-sub-add _ (zeros n),
            count_wrongs-zeros n 0,
          )
          refl

    accepted :
        check_ad_output F constraints coeffs d ≡ some true
        → compute_derivatives F constraints coeffs (no_derivs n) ≡ some d
    accepted h = elim (Bool-cases (derivs_fit F constraints coeffs d)) [
      | inr e ↦ absurd (cc (rw (check_eq, e) at h))
      | inl e ↦
          rw (compute_eq, e)
            (ap some (restored (removed_zero (verdict_count (rw (check_eq, e) at h)))))
    ]

    complete :
        compute_derivatives F constraints coeffs (no_derivs n) ≡ some d
        → check_ad_output F constraints coeffs d ≡ some true
    complete h = elim (Bool-cases (derivs_fit F constraints coeffs d)) [
      | inr e ↦ absurd (cc (rw (compute_eq, e) at h))
      | inl e ↦ rw (check_eq, e) (verdict_zero (cc (rw (compute_eq, e) at h)))
    ]

  -- For three vectors of one length the check accepts exactly the derivatives that
  -- `compute_derivatives` adds to zero vectors of that length.
  pub check_ad_output_iff :
      (constraints : List (R1C F)) (coeffs : List Elem) (d : Derivs F)
      → length d.db ≡ length d.da
      → length d.dc ≡ length d.da
      → (check_ad_output F constraints coeffs d ≡ some true)
        ↔ (compute_derivatives F constraints coeffs (no_derivs (length d.da)) ≡ some d)
  check_ad_output_iff constraints coeffs d hb hc =
      (accepted constraints coeffs d hb hc, complete constraints coeffs d hb hc)
