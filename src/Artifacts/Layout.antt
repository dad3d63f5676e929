-- ===== src/Artifacts/Layout.antt =====
-- `WitnessLayout` and `ConstraintsLayout` (mavros-artifacts/src/lib.rs). A method that takes
-- `&mut self` returns the new layout and its result.
pub mod Sections
mod Tests
use mavros.Prelude.{ℕ, ◌+◌}

pub record WitnessLayout : Type 0 where
  pub algebraic_size : ℕ
  pub multiplicities_size : ℕ
  pub challenges_size : ℕ
  pub tables_data_size : ℕ
  pub lookups_data_size : ℕ

abbrev pub algebraic_start : WitnessLayout → ℕ
algebraic_start l = 0

abbrev pub algebraic_end : WitnessLayout → ℕ
algebraic_end l = l.algebraic_size

abbrev pub multiplicities_start : WitnessLayout → ℕ
multiplicities_start l = algebraic_end l

abbrev pub multiplicities_end : WitnessLayout → ℕ
multiplicities_end l = multiplicities_start l + l.multiplicities_size

abbrev pub challenges_start : WitnessLayout → ℕ
challenges_start l = multiplicities_end l

abbrev pub challenges_end : WitnessLayout → ℕ
challenges_end l = challenges_start l + l.challenges_size

unfoldable pub next_challenge : WitnessLayout → WitnessLayout × ℕ
next_challenge l = (record l { challenges_size = l.challenges_size + 1 }, challenges_end l)

abbrev pub tables_data_start : WitnessLayout → ℕ
tables_data_start l = challenges_end l

abbrev pub tables_data_end : WitnessLayout → ℕ
tables_data_end l = l.tables_data_size + tables_data_start l

unfoldable pub next_table_data : WitnessLayout → WitnessLayout × ℕ
next_table_data l = (record l { tables_data_size = l.tables_data_size + 1 }, tables_data_end l)

abbrev pub lookups_data_start : WitnessLayout → ℕ
lookups_data_start l = tables_data_end l

abbrev pub lookups_data_end : WitnessLayout → ℕ
lookups_data_end l = l.lookups_data_size + lookups_data_start l

unfoldable pub next_lookups_data : WitnessLayout → WitnessLayout × ℕ
next_lookups_data l = (record l { lookups_data_size = l.lookups_data_size + 1 }, lookups_data_end l)

unfoldable pub size : WitnessLayout → ℕ
size l =
    l.algebraic_size + l.multiplicities_size + l.challenges_size + l.tables_data_size
    + l.lookups_data_size

unfoldable pub pre_commitment_size : WitnessLayout → ℕ
pre_commitment_size l = l.algebraic_size + l.multiplicities_size

unfoldable pub post_commitment_size : WitnessLayout → ℕ
post_commitment_size l = l.challenges_size + l.tables_data_size + l.lookups_data_size

pub record ConstraintsLayout : Type 0 where
  pub algebraic_size : ℕ
  pub tables_data_size : ℕ
  pub lookups_data_size : ℕ

abbrev pub constraints_size : ConstraintsLayout → ℕ
constraints_size l = l.algebraic_size + l.tables_data_size + l.lookups_data_size

abbrev pub constraints_tables_data_start : ConstraintsLayout → ℕ
constraints_tables_data_start l = l.algebraic_size

abbrev pub constraints_lookups_data_start : ConstraintsLayout → ℕ
constraints_lookups_data_start l = l.algebraic_size + l.tables_data_size
