-- ===== src/Artifacts/R1cs/Tests.antt =====
-- A system of two constraints over the field with three elements.
use mavros.Prelude.{◌≡◌, refl, ◌↔◌, true, some, none, List, [], ◌∷◌, length, if◌then◌else◌}
use mavros.Prelude.Field.{t0, t1, t2, gf3, trit_discrete}
use mavros.Artifacts.R1cs.{
  R1C, R1cs, Derivs, compute_derivatives, check_ad_output, check_witgen_output, add_rows, add_row,
  felt_eq, check_rows, eval_lc,
}
use mavros.Artifacts.R1cs.Columns.{derivs_fit, shift_columns}
use mavros.Artifacts.R1cs.Ad.{compute_derivatives_lem, check_ad_output_iff, no_derivs}
use mavros.Artifacts.R1cs.Witgen.{Satisfies, check_witgen_output_iff}

-- w1 * w1 = w2, and (w0 + w1) * w0 = w0 + w1.
abbrev sample : List (R1C gf3)
sample =
    record { a = (1, t1) ∷ []; b = (1, t1) ∷ []; c = (2, t1) ∷ [] }
    ∷ record { a = (0, t1) ∷ (1, t1) ∷ []; b = (0, t1) ∷ []; c = (0, t1) ∷ (1, t1) ∷ [] }
    ∷ []

abbrev sample_system : R1cs gf3
sample_system = record {
  witness_layout = record {
    algebraic_size = 3;
    multiplicities_size = 0;
    challenges_size = 0;
    tables_data_size = 0;
    lookups_data_size = 0;
  };
  constraints_layout = record { algebraic_size = 2; tables_data_size = 0; lookups_data_size = 0 };
  constraints = sample;
}

abbrev zero_derivs : Derivs gf3
zero_derivs = no_derivs gf3 3

abbrev sample_derivs : Derivs gf3
sample_derivs = record { da = t1 ∷ t0 ∷ t0 ∷ []; db = t1 ∷ t2 ∷ t0 ∷ []; dc = t1 ∷ t1 ∷ t2 ∷ [] }

sample_derivs_run : compute_derivatives gf3 sample (t2 ∷ t1 ∷ []) zero_derivs ≡ some sample_derivs
unfolding compute_derivatives add_rows add_row
sample_derivs_run = refl

out_of_range_run : compute_derivatives gf3 sample (t2 ∷ t1 ∷ []) (no_derivs gf3 2) ≡ none
unfolding compute_derivatives add_rows add_row
out_of_range_run = refl

witness_accepted :
    check_witgen_output gf3 sample_system
      (t1 ∷ t2 ∷ t1 ∷ [])
      []
      (t2 ∷ t0 ∷ [])
      (t2 ∷ t1 ∷ [])
      (t1 ∷ t0 ∷ [])
    ≡ some true
unfolding check_witgen_output check_rows eval_lc felt_eq trit_discrete
witness_accepted = refl

compute_derivatives_lem_example : compute_derivatives gf3 sample (t2 ∷ t1 ∷ []) zero_derivs ≡ (
    if derivs_fit gf3 sample (t2 ∷ t1 ∷ []) zero_derivs
    then some (shift_columns gf3 (gf3.◌⊕◌) sample (t2 ∷ t1 ∷ []) zero_derivs)
    else none)
compute_derivatives_lem_example = compute_derivatives_lem gf3 sample (t2 ∷ t1 ∷ []) zero_derivs

check_ad_output_iff_example :
    (check_ad_output gf3 sample (t2 ∷ t1 ∷ []) sample_derivs ≡ some true)
    ↔ (compute_derivatives gf3 sample (t2 ∷ t1 ∷ []) zero_derivs ≡ some sample_derivs)
check_ad_output_iff_example = check_ad_output_iff gf3 sample (t2 ∷ t1 ∷ []) sample_derivs refl refl

check_witgen_output_iff_example :
    (check_witgen_output gf3 sample_system
        (t1 ∷ t2 ∷ t1 ∷ [])
        []
        (t2 ∷ t0 ∷ [])
        (t2 ∷ t1 ∷ [])
        (t1 ∷ t0 ∷ [])
      ≡ some true)
    ↔ ((length (t2 ∷ t0 ∷ []) ≡ 2)
        × (length (t2 ∷ t1 ∷ []) ≡ 2)
        × (length (t1 ∷ t0 ∷ []) ≡ 2)
        × Satisfies gf3 sample (t1 ∷ t2 ∷ t1 ∷ []) (t2 ∷ t0 ∷ []) (t2 ∷ t1 ∷ []) (t1 ∷ t0 ∷ []))
check_witgen_output_iff_example =
    check_witgen_output_iff gf3 sample_system (t1 ∷ t2 ∷ t1 ∷ []) [] (t2 ∷ t0 ∷ []) (t2 ∷ t1 ∷ [])
      (t1 ∷ t0 ∷ [])
