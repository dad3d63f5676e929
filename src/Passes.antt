-- ===== src/Passes.antt =====
-- compiler/src/compiler/passes: passes over the SSA.
pub mod Replacements
pub mod SimplifyAsserts
pub mod Simplifier
pub mod Unreachable
pub mod DeduplicatePhis
