-- ===== src/Artifacts.antt =====
-- mavros-artifacts/src/lib.rs: the layouts of the witness and of the constraint vectors, and the
-- rank-1 constraint system with the checks of its outputs.
pub mod Input
pub mod Layout
pub mod R1cs
