-- ===== src/Analysis.antt =====
-- compiler/src/compiler/analysis: what the passes ask about a function.
pub mod ValueDefinitions
