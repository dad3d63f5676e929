-- ===== src/Artifacts/R1cs/Witgen.antt =====
-- `check_witgen_output` accepts exactly the outputs of the right length whose entries are the values
-- of the linear combinations and satisfy every constraint.
use mavros.Prelude.{
  ◌≡◌, refl, ap, ◌∙◌, ◌↔◌, true, false, some, List, [], ◌∷◌, ◌++◌, length, if◌then◌else◌, arith,
  Bool-cases, inl, inr, Option-cases,
}
use mavros.Prelude.Field.{Field}
use mavros.Artifacts.Layout.{constraints_size}
use mavros.Artifacts.R1cs.{
  R1C, R1cs, eval_lc, felt_eq_iff, row_passes, check_rows, check_witgen_output,
}

module _ (F : Field) where
  open F use {Elem, nought, ◌⊗◌}

  -- The value of each linear combination of a constraint at the witness is the entry of its vector
  -- at the index of the constraint, and the entries satisfy the constraint.
  abbrev pub Satisfies : List (R1C F) → List Elem → List Elem → List Elem → List Elem → Type 0
  Satisfies [] witness a b c = Unit
  Satisfies (r ∷ rs) witness (x ∷ a) (y ∷ b) (z ∷ c) =
      (eval_lc F r.a witness nought ≡ some x)
      × (eval_lc F r.b witness nought ≡ some y)
      × (eval_lc F r.c witness nought ≡ some z)
      × (x ⊗ y ≡ z)
      × Satisfies rs witness a b c
  Satisfies (r ∷ rs) witness a b c = ⊥

  row_passes_iff :
      (av bv cv x y z : Elem)
      → (row_passes F av bv cv x y z ≡ true) ↔ ((av ≡ x) × (bv ≡ y) × (cv ≡ z) × (x ⊗ y ≡ z))
  row_passes_iff av bv cv x y z = ground (
    arith,
    felt_eq_iff F (av ⊗ bv) cv,
    felt_eq_iff F av x,
    felt_eq_iff F bv y,
    felt_eq_iff F cv z,
  )

  -- One constraint, once its three values are known.
  row_sound :
      (r : R1C F) (rs : List (R1C F)) (witness : List Elem) (x : Elem) (a : List Elem) (y : Elem)
      (b : List Elem) (z : Elem) (c : List Elem) (av bv cv : Elem)
      → eval_lc F r.a witness nought ≡ some av
      → eval_lc F r.b witness nought ≡ some bv
      → eval_lc F r.c witness nought ≡ some cv
      → (if row_passes F av bv cv x y z then check_rows F rs witness a b c else some false)
        ≡ some true
      → (check_rows F rs witness a b c ≡ some true → Satisfies rs witness a b c)
      → Satisfies (r ∷ rs) witness (x ∷ a) (y ∷ b) (z ∷ c)
  row_sound r rs witness x a y b z c av bv cv ea eb ec h rest =
      elim (Bool-cases (row_passes F av bv cv x y z)) [
        | inr e ↦ absurd (cc (rw e at h))
        | inl e ↦
            let (p, q, s, t) = (row_passes_iff av bv cv x y z).0 e in
            (ea ∙ ap some p, eb ∙ ap some q, ec ∙ ap some s, t, rest (rw e at h))
      ]

  check_rows_sound :
      (rs : List (R1C F)) (witness a b c : List Elem)
      → check_rows F rs witness a b c ≡ some true
      → Satisfies rs witness a b c
  unfolding check_rows
  check_rows_sound [] witness a b c h = tt
  check_rows_sound (r ∷ rs) witness (x ∷ a) (y ∷ b) (z ∷ c) h =
      elim (Option-cases (eval_lc F r.a witness nought)) [
        | inl e ↦ absurd (cc (rw e at h))
        | inr (av, ea) ↦ elim (Option-cases (eval_lc F r.b witness nought)) [
          | inl e ↦ absurd (cc (rw (ea, e) at h))
          | inr (bv, eb) ↦ elim (Option-cases (eval_lc F r.c witness nought)) [
            | inl e ↦ absurd (cc (rw (ea, eb, e) at h))
            | inr (cv, ec) ↦
                row_sound r rs witness x a y b z c av bv cv ea eb ec (rw (ea, eb, ec) at h)
                  (check_rows_sound rs witness a b c)
          ]
        ]
      ]
  check_rows_sound (r ∷ rs) witness [] b c h = ground arith
  check_rows_sound (r ∷ rs) witness (x ∷ a) [] c h = ground arith
  check_rows_sound (r ∷ rs) witness (x ∷ a) (y ∷ b) [] h = ground arith

  check_rows_complete :
      (rs : List (R1C F)) (witness a b c : List Elem)
      → Satisfies rs witness a b c
      → check_rows F rs witness a b c ≡ some true
  unfolding check_rows
  check_rows_complete [] witness a b c h = refl
  check_rows_complete (r ∷ rs) witness (x ∷ a) (y ∷ b) (z ∷ c) (ha, hb, hc, p, t) =
      rw (ha, hb, hc)
        (rw ((row_passes_iff x y z x y z).1 (refl, refl, refl, p))
          (check_rows_complete rs witness a b c t))
  check_rows_complete (r ∷ rs) witness [] b c h = absurd h
  check_rows_complete (r ∷ rs) witness (x ∷ a) [] c h = absurd h
  check_rows_complete (r ∷ rs) witness (x ∷ a) (y ∷ b) [] h = absurd h

  -- The check accepts exactly when the three vectors have the length that the layout gives and
  -- satisfy every constraint at the joined witness.
  pub check_witgen_output_iff :
      (s : R1cs F) (pre post a b c : List Elem)
      → (check_witgen_output F s pre post a b c ≡ some true) ↔ (
          (length a ≡ constraints_size s.constraints_layout)
          × (length b ≡ constraints_size s.constraints_layout)
          × (length c ≡ constraints_size s.constraints_layout)
          × Satisfies s.constraints (pre ++ post) a b c)
  unfolding check_witgen_output
  check_witgen_output_iff s pre post a b c = (
    ground (arith, check_rows_sound s.constraints (pre ++ post) a b c),
    ground (arith, check_rows_complete s.constraints (pre ++ post) a b c),
  )
