-- ===== src/Artifacts/Layout/Tests.antt =====
-- Layouts at concrete sizes.
use mavros.Prelude.{◌+◌, ◌≡◌, ◌<◌, arith}
use mavros.Artifacts.Layout.{WitnessLayout, size}
use mavros.Artifacts.Layout.Sections.{
  section_of, start_of, length_of, tables_data, section_of-start_of,
}

abbrev sample : WitnessLayout
sample = record {
  algebraic_size = 10;
  multiplicities_size = 256;
  challenges_size = 2;
  tables_data_size = 5;
  lookups_data_size = 3;
}

section_of-start_of_example :
    (section_of sample (start_of sample tables_data + 4) ≡ tables_data)
    × (start_of sample tables_data + 4 < size sample)
unfolding length_of
section_of-start_of_example = section_of-start_of sample tables_data 4 (omega arith)
