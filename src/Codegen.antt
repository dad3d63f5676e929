-- ===== src/Codegen.antt =====
-- compiler/src/compiler/codegen/bytecode/layout.rs: where the bytecode keeps its values.
pub mod Frame
pub mod Structs
pub mod Globals
