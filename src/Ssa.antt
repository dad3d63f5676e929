-- ===== src/Ssa.antt =====
-- compiler/src/compiler/ssa: the intermediate representation.
pub mod Dict
pub mod Op
pub mod Instruction
pub mod Constant
pub mod Meaning
pub mod Function
pub mod BiMap
pub mod Program
