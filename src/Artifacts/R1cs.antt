-- ===== src/Artifacts/R1cs.antt =====
-- `R1C`, `R1CS` and its methods (mavros-artifacts/src/lib.rs). The result vectors that a method
-- takes as `&mut [Field]` are its state; an index out of bounds, a panic in the source, is `none`.
-- The log messages of a failed check are left out.
pub mod Columns
pub mod Witgen
pub mod Ad
mod Tests
use mavros.Prelude.{
  ℕ, zero, suc, ◌+◌, Bool, true, false, ◌&&◌, Option, none, some, List, [], ◌∷◌, ◌++◌, ◌==◌, ◌≡◌,
  ◌↔◌, refl, if◌then◌else◌, length, get_elem?, set,
}
use mavros.Prelude.Field.{Field}
use mavros.Artifacts.Layout.{WitnessLayout, ConstraintsLayout, constraints_size}

-- Rust's panics, as the failure of a step.
infixl 5 ◌>>=◌
abbrev pub ◌>>=◌ {ℓ κ} : {A : Type ℓ} {B : Type κ} → Option A → (A → Option B) → Option B
none >>= f = none
some a >>= f = f a

-- The entry at the running index of a vector, and the rest.
abbrev pub uncons {ℓ} : {A : Type ℓ} → List A → Option (A × List A)
uncons [] = none
uncons (x ∷ xs) = some (x, xs)

module _ (F : Field) where
  open F use {Elem, nought, ◌⊕◌, ◌⊖◌, ◌⊗◌, felt_discrete}

  -- A linear combination: pairs of a witness index and a coefficient.
  abbrev pub Lc : Type 0
  Lc = List (ℕ × Elem)

  pub record R1C : Type 0 where
    pub a : Lc
    pub b : Lc
    pub c : Lc

  -- The three vectors that the derivatives are added to.
  pub record Derivs : Type 0 where
    pub da : List Elem
    pub db : List Elem
    pub dc : List Elem

  unfoldable pub felt_eq : Elem → Elem → Bool
  felt_eq x y = elim (felt_discrete x y) [ yes _ ↦ true | no _ ↦ false ]

  pub felt_eq_iff : (x y : Elem) → (felt_eq x y ≡ true) ↔ (x ≡ y)
  unfolding felt_eq
  felt_eq_iff x y =
      elim (felt_discrete x y) as (λ d. (elim d [ yes _ ↦ true | no _ ↦ false ] ≡ true) ↔ (x ≡ y)) [
        | yes e ↦ (λ _. e, λ _. refl)
        | no ne ↦ (λ h. cc, λ e. absurd (ne e))
      ]

  -- `v[ix] += x` and `v[ix] -= x`, for the operation `op`.
  unfoldable pub assign_at : (Elem → Elem → Elem) → ℕ → Elem → List Elem → Option (List Elem)
  assign_at op ix x v = do y ← get_elem? v ix; some (set v ix (op y x))

  -- One of the inner loops: `for (ix, k) in lc { v[ix] op= k * coeff }`.
  unfoldable pub add_row : (Elem → Elem → Elem) → Lc → Elem → List Elem → Option (List Elem)
  unfolding assign_at
  add_row op [] coeff v = some v
  add_row op ((ix, k) ∷ lc) coeff v = do v' ← assign_at op ix (k ⊗ coeff) v; add_row op lc coeff v'

  -- The loop over the constraints zipped with the coefficients.
  unfoldable pub add_rows : (Elem → Elem → Elem) → List R1C → List Elem → Derivs → Option Derivs
  add_rows op [] coeffs d = some d
  add_rows op (r ∷ rs) [] d = some d
  add_rows op (r ∷ rs) (coeff ∷ coeffs) d = do
    da ← add_row op r.a coeff d.da
    db ← add_row op r.b coeff d.db
    dc ← add_row op r.c coeff d.dc
    add_rows op rs coeffs (record { da = da; db = db; dc = dc })

  unfoldable pub compute_derivatives : List R1C → List Elem → Derivs → Option Derivs
  compute_derivatives constraints coeffs res = add_rows ◌⊕◌ constraints coeffs res

  -- `if v != 0 { wrongs += 1 }`
  abbrev pub count_wrong : Elem → ℕ → ℕ
  count_wrong v wrongs = if felt_eq v nought then wrongs else wrongs + 1

  -- The loop over the indices of the first vector, which reads all three.
  unfoldable pub count_wrongs : List Elem → List Elem → List Elem → ℕ → Option ℕ
  count_wrongs [] b c wrongs = some wrongs
  count_wrongs (x ∷ a) [] c wrongs = none
  count_wrongs (x ∷ a) (y ∷ b) [] wrongs = none
  count_wrongs (x ∷ a) (y ∷ b) (z ∷ c) wrongs =
      count_wrongs a b c (count_wrong z (count_wrong y (count_wrong x wrongs)))

  unfoldable pub check_ad_output : List R1C → List Elem → Derivs → Option Bool
  check_ad_output constraints coeffs d = do
    e ← add_rows ◌⊖◌ constraints coeffs d
    wrongs ← count_wrongs e.da e.db e.dc 0
    some (wrongs == 0)

  -- `lc.iter().map(|(i, c)| c * witness[i]).sum()`
  unfoldable pub eval_lc : Lc → List Elem → Elem → Option Elem
  eval_lc [] witness acc = some acc
  eval_lc ((ix, k) ∷ lc) witness acc = do w ← get_elem? witness ix; eval_lc lc witness (acc ⊕ k ⊗ w)

  -- The four tests of one constraint.
  abbrev pub row_passes : Elem → Elem → Elem → Elem → Elem → Elem → Bool
  row_passes av bv cv a b c = felt_eq (av ⊗ bv) cv && felt_eq av a && felt_eq bv b && felt_eq cv c

  -- The loop over the constraints, with the entries of `a`, `b` and `c` at the same index.
  unfoldable pub check_rows : List R1C → List Elem → List Elem → List Elem → List Elem → Option Bool
  check_rows [] witness a b c = some true
  check_rows (r ∷ rs) witness a b c = do
    av ← eval_lc r.a witness nought
    bv ← eval_lc r.b witness nought
    cv ← eval_lc r.c witness nought
    (x, a') ← uncons a
    (y, b') ← uncons b
    (z, c') ← uncons c
    let rest = check_rows rs witness a' b' c'
    if row_passes av bv cv x y z then rest else some false

  pub record R1cs : Type 0 where
    pub witness_layout : WitnessLayout
    pub constraints_layout : ConstraintsLayout
    pub constraints : List R1C

  unfoldable pub check_witgen_output :
      R1cs → List Elem → List Elem → List Elem → List Elem → List Elem → Option Bool
  check_witgen_output s pre_comm_witness post_comm_witness a b c =
      let witness = pre_comm_witness ++ post_comm_witness in
      let n = constraints_size s.constraints_layout in
      let rest = check_rows s.constraints witness a b c in
      if length a == n
      then if length b == n then if length c == n then rest else some false else some false
      else some false
