-- ===== src/Vm.antt =====
-- vm/src: the bytecode machine.
pub mod Layout
pub mod Heap
