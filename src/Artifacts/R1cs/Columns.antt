-- ===== src/Artifacts/R1cs/Columns.antt =====
-- The loops over the constraints in closed form: each vector is shifted by the columns of the
-- transposed matrix times the coefficients, and the loops panic exactly on an index out of range.
use mathlib.Core.Path.{ap₂}
use mavros.Prelude.{
  ℕ, zero, suc, ◌≡◌, refl, sym, ap, Bool, true, ◌&&◌, none, some, List, [], ◌∷◌, ltb, if◌then◌else◌,
  length, arith, ltb_zero_right, ltb_zero_suc, Bool-cases, inl, inr,
}
use mavros.Prelude.Field.{Field}
use mavros.Artifacts.R1cs.{Lc, R1C, Derivs, assign_at, add_row, add_rows}

module _ (F : Field) where
  open F use {Elem, nought, ◌⊕◌, ◌⊖◌, ◌⊗◌}

  -- `op` with the value that `f` has at each index.
  unfoldable pub shift : (Elem → Elem → Elem) → (ℕ → Elem) → List Elem → List Elem
  shift op f [] = []
  shift op f (x ∷ xs) = op x (f 0) ∷ shift op (λ i. f (suc i)) xs

  -- The value `v` at index `ix`, zero elsewhere.
  abbrev pub entry : ℕ → Elem → ℕ → Elem
  entry zero v zero = v
  entry zero v (suc i) = nought
  entry (suc ix) v zero = nought
  entry (suc ix) v (suc i) = entry ix v i

  -- Entry `i` of a row times the coefficient.
  unfoldable pub row_at : Lc F → Elem → ℕ → Elem
  row_at [] coeff i = nought
  row_at ((ix, k) ∷ lc) coeff i = entry ix (k ⊗ coeff) i ⊕ row_at lc coeff i

  -- Entry `i` of the sum of the rows that `side` selects, each times its coefficient.
  unfoldable pub column : (R1C F → Lc F) → List (R1C F) → List Elem → ℕ → Elem
  column side [] coeffs i = nought
  column side (r ∷ rs) [] i = nought
  column side (r ∷ rs) (coeff ∷ coeffs) i = row_at (side r) coeff i ⊕ column side rs coeffs i

  -- Every index of the row is below `n`.
  unfoldable pub row_fits : Lc F → ℕ → Bool
  row_fits [] n = true
  row_fits ((ix, k) ∷ lc) n = ltb ix n && row_fits lc n

  -- So for the rows that have a coefficient.
  unfoldable pub rows_fit : List (R1C F) → List Elem → ℕ → ℕ → ℕ → Bool
  rows_fit [] coeffs na nb nc = true
  rows_fit (r ∷ rs) [] na nb nc = true
  rows_fit (r ∷ rs) (coeff ∷ coeffs) na nb nc =
      (row_fits r.a na && row_fits r.b nb && row_fits r.c nc) && rows_fit rs coeffs na nb nc

  pub length-shift :
      (op : Elem → Elem → Elem) (f : ℕ → Elem) (xs : List Elem) → length (shift op f xs) ≡ length xs
  unfolding shift
  length-shift op f [] = refl
  length-shift op f (x ∷ xs) = ap suc (length-shift op (λ i. f (suc i)) xs)

  abbrev pub derivs_fit : List (R1C F) → List Elem → Derivs F → Bool
  derivs_fit rs coeffs d = rows_fit rs coeffs (length d.da) (length d.db) (length d.dc)

  -- Each vector shifted by its column sums.
  abbrev pub shift_columns : (Elem → Elem → Elem) → List (R1C F) → List Elem → Derivs F → Derivs F
  shift_columns op rs coeffs d = record {
    da = shift op (column (λ r. r.a) rs coeffs) d.da;
    db = shift op (column (λ r. r.b) rs coeffs) d.db;
    dc = shift op (column (λ r. r.c) rs coeffs) d.dc;
  }

  -- What the two operations have in common: they let the second argument act on the first.
  pub record IsAction (op : Elem → Elem → Elem) : Type 0 where
    pub op-nought : (x : Elem) → op x nought ≡ x
    pub op-op : (x v w : Elem) → op (op x v) w ≡ op x (v ⊕ w)

  module _ (op : Elem → Elem → Elem) (act : IsAction op) where
    pub shift-nought : (xs : List Elem) → shift op (λ i. nought) xs ≡ xs
    unfolding shift
    shift-nought [] = refl
    shift-nought (x ∷ xs) = ap₂ ◌∷◌ (act.op-nought x) (shift-nought xs)

    pub shift-shift :
        (f g : ℕ → Elem) (xs : List Elem)
        → shift op g (shift op f xs) ≡ shift op (λ i. f i ⊕ g i) xs
    unfolding shift
    shift-shift f g [] = refl
    shift-shift f g (x ∷ xs) =
        ap₂ ◌∷◌ (act.op-op x (f 0) (g 0)) (shift-shift (λ i. f (suc i)) (λ i. g (suc i)) xs)

    assign_at_eq :
        (ix : ℕ) (v : Elem) (xs : List Elem)
        → assign_at F op ix v xs
          ≡ (if ltb ix (length xs) then some (shift op (entry ix v) xs) else none)
    unfolding assign_at shift
    assign_at_eq ix v [] = rw ltb_zero_right
    assign_at_eq zero v (x ∷ xs) = rw (ltb_zero_suc, shift-nought)
    assign_at_eq (suc ix) v (x ∷ xs) = ground (arith, assign_at_eq ix v xs, act.op-nought x)

    -- A row in closed form.
    pub add_row_eq :
        (lc : Lc F) (coeff : Elem) (xs : List Elem)
        → add_row F op lc coeff xs
          ≡ (if row_fits lc (length xs) then some (shift op (row_at lc coeff) xs) else none)
    unfolding add_row row_fits row_at
    add_row_eq [] coeff xs = ap some (sym (shift-nought xs))
    add_row_eq ((ix, k) ∷ lc) coeff xs =
        rw (assign_at_eq ix (k ⊗ coeff) xs) (elim (Bool-cases (ltb ix (length xs))) [
          | inl h ↦ rw (h, add_row_eq lc coeff, length-shift, shift-shift)
          | inr h ↦ rw h
        ])

    -- All rows in closed form.
    pub add_rows_eq :
        (rs : List (R1C F)) (coeffs : List Elem) (d : Derivs F)
        → add_rows F op rs coeffs d
          ≡ (if derivs_fit rs coeffs d then some (shift_columns op rs coeffs d) else none)
    unfolding add_rows rows_fit column
    add_rows_eq [] coeffs d = simp shift-nought
    add_rows_eq (r ∷ rs) [] d = simp shift-nought
    add_rows_eq (r ∷ rs) (coeff ∷ coeffs) d =
        rw (add_row_eq r.a coeff d.da) (elim (Bool-cases (row_fits r.a (length d.da))) [
          | inr h ↦ rw h
          | inl ha ↦
              rw (ha, add_row_eq r.b coeff d.db)
                (elim (Bool-cases (row_fits r.b (length d.db))) [
                  | inr h ↦ rw h
                  | inl hb ↦
                      rw (hb, add_row_eq r.c coeff d.dc)
                        (elim (Bool-cases (row_fits r.c (length d.dc))) [
                          | inr h ↦ rw h
                          | inl hc ↦
                              rw (hc, add_rows_eq rs coeffs) (simp (length-shift, shift-shift))
                        ])
                ])
        ])
