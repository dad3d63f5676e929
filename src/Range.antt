-- ===== src/Range.antt =====
-- compiler/src/compiler/analysis/value_range_analysis.rs: the intervals of the value-range analysis
-- and the transfer of one instruction.
pub mod Interval
pub mod Constants
pub mod Transfer
pub mod FixedPoint
