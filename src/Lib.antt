-- ===== src/Lib.antt =====
-- Mavros, a compiler from Noir programs to rank-1 constraint systems with a bytecode machine that
-- computes witnesses and derivatives. The development follows the repository's files:
--
-- mavros-artifacts/src/lib.rs, what the compiler hands to a prover. Artifacts/Layout.antt has
--   `WitnessLayout` and `ConstraintsLayout` with their methods under their names (the methods of the
--   second with the prefix constraints_), Artifacts/Layout/Sections.antt the partition of the
--   witness into its five sections. Artifacts/R1cs.antt has `R1CS::compute_derivatives`,
--   `check_witgen_output` and `check_ad_output`; R1cs/Columns.antt the columns of the system as an
--   independent description, R1cs/Ad.antt and R1cs/Witgen.antt the two checks. Artifacts/Input.antt
--   has `InputValueOrdered`. The scalar field is ark-bn254's, a parameter: the record `Field` of
--   Prelude/Field.antt with the laws that the checks use, which the field with three elements fills.
--   An index out of bounds, a panic, is `none`.
-- compiler/src/compiler/ssa/hlssa/type_system.rs, the types of the high-level SSA. Types.antt has
--   `TypeExpr` (`Type` wraps it), subtyping, `join`, the strippers of `WitnessOf` and `contains_ptrs`;
--   a panic is `none`. Types/Order.antt is about subtyping, Types/Join.antt gives `join` as a
--   relation, on which Types/Join/Upper.antt and Types/Join/Least.antt work; Types/Strip.antt is about
--   the stripped types, Types/Access.antt has the predicates and accessors.
-- compiler/src/compiler/analysis/value_range_analysis.rs, the value-range analysis.
--   Range/Interval.antt has `IntInterval` with its operations over the integers of Prelude/Int.antt,
--   Range/Interval/ their members; Range/Constants.antt the ranges of the constants;
--   Range/Transfer.antt the transfer of one instruction, on the opcodes of
--   compiler/src/compiler/ssa/hlssa/mod.rs as far as it reads them. The field's modulus and the bit
--   length of a big integer are parameters. Transfer/Meaning.antt says what an instruction requires
--   of the values, Transfer/Sound.antt is about `transfer`, Transfer/Wrap.antt about field elements.
--   Range/FixedPoint.antt has the passes of `run_function`, with the order of the blocks and their
--   predecessors as data, FixedPoint/Stable.antt is about their end.
-- compiler/src/compiler/ssa/hlssa/mod.rs, the instructions of the high-level SSA. Ssa/Op.antt has
--   `OpCode` with all its fields, Op/Inputs.antt and Op/Results.antt `get_inputs`, `get_results` and
--   `get_static_call_targets`. An iterator over mutable references is the loop that puts `f v` in
--   place of every value `v` it gives: `map_inputs`, `map_results` and `map_operands` of
--   Op/Mutate.antt. Op/Traverse.antt says how they agree, and makes the instructions an instance of
--   the record `Instruction` of Ssa/Instruction.antt, the trait of compiler/src/compiler/ssa/traits.rs.
-- compiler/src/compiler/ssa/mod.rs, the program, generic in its instructions. Ssa/Function.antt has
--   `Block`, `Function` and `Terminator`, Ssa/Program.antt `SSA` with its constants. A `HashMap` with
--   numbers for keys is a list of entries, Ssa/Dict.antt, in the order of an iteration; the bimap
--   crate's table is a parameter, the record `BiMap` of Ssa/BiMap.antt, which a log of operations fills.
--   Program/Constants.antt is about the table of constants, Program/Duplicate.antt has
--   `duplicate_function` in its two phases, with Duplicate/Values.antt, Duplicate/Fresh.antt and
--   Duplicate/Copy.antt about the copy and Duplicate/Apart.antt about what is beside it;
--   Program/Operations.antt makes the operations a step relation, Program/Steps.antt is about runs of it.
-- compiler/src/compiler/ssa/llssa, the low-level SSA: Llssa.antt has the struct layouts,
--   Llssa/Op.antt the instructions, with Llssa/Op/Inputs.antt and Llssa/Op/Mutate.antt as above.
-- compiler/src/compiler/codegen/bytecode/layout.rs, where the bytecode keeps its values:
--   Codegen/Frame.antt has `FrameLayouter`, Codegen/Structs.antt `StructLayoutInterner` and
--   Codegen/Globals.antt `GlobalFrameLayouter`.
-- compiler/src/compiler/passes/fix_double_jumps.rs, of which Passes/Replacements.antt has
--   `ValueReplacements`; Replacements/Chain.antt is about one value, Replacements/Applied.antt about a
--   function. compiler/src/compiler/passes/deduplicate_phis.rs is Passes/DeduplicatePhis.antt, with
--   DeduplicatePhis/Forward.antt for what the pass keeps of a function; Passes/Unreachable.antt has the
--   passes of remove_unreachable_blocks.rs and remove_unreachable_functions.rs beside it.
-- compiler/src/compiler/passes/simplify_asserts.rs is Passes/SimplifyAsserts.antt, a function at a time:
--   SimplifyAsserts/Equal.antt and SimplifyAsserts/Sound.antt say what the new assertions mean,
--   SimplifyAsserts/Keeps.antt is about the function, SimplifyAsserts/Ends.antt about the recursion.
-- compiler/src/compiler/passes/simplifier.rs: Passes/Simplifier.antt has its rewrites, tests on
--   constants and new constants, Simplifier/Algebraic.antt `try_algebraic`, Simplifier/Rounds.antt the
--   loops of `run_function` and `do_run`, on the definitions of Analysis/ValueDefinitions.antt
--   (compiler/src/compiler/analysis/value_definitions.rs). The inference of types is an argument.
--   Simplifier/Rules.antt, Simplifier/Binary.antt, Simplifier/Shift.antt and Simplifier/Sound.antt are
--   about one rewrite, Simplifier/Adds.antt about the constants it adds, Simplifier/Keeps.antt about the
--   aliases, Simplifier/Definitions.antt about the definitions; Simplifier/Steps.antt,
--   Simplifier/Typed.antt, Simplifier/Loops.antt, Simplifier/Repeated.antt and Simplifier/Whole.antt go from one instruction
--   to the program, and Simplifier/Stale.antt is about a constant without a type.
--   Simplifier/Inference.antt has an inference of three instructions, for the tests.
-- What an instruction means is a specification, Ssa/Meaning.antt: a relation between the values of its
--   operands and results. Order, signed division, division in the field, conversions and the
--   instructions that are not scalar are the record `Scalars` of parameters, with the laws that the
--   passes use, which Meaning/Instance.antt fills. `WitnessOf` has no meaning of its own there.
-- vm/src/array.rs, the heap objects of the machine. Vm/Layout.antt has `BoxedLayout`, whose word is
--   a number, and `StructDescriptor`; a failed assertion is `none`. The sizes of the derivative
--   nodes' structs, which the Rust compiler gives, are parameters (`NodeSizes`). Layout/Packing.antt
--   is about the header word, Layout/Fields.antt about descriptors and the sizes of objects.
--   Vm/Heap.antt has the heap as a list of slots with the three bumps of `BoxedValue` (one function
--   over the output matrix), Vm/Heap/Release.antt `inc_rc`, `free` and the loop of `dec_rc`; a use
--   after a free, a panic and an overflow are the outcome `fault`. Heap/Release/Fuel.antt is about
--   the rounds of that loop. Vm/Heap/Copy.antt has `alloc` and `copy_if_reused`, with the first
--   contents of new memory as an argument, Heap/Copy/Array.antt is about the copy of an array. What the
--   allocation instrumenter is told is a list of events.
--
-- Sizes and indices (usize) are natural numbers: the sums of the layouts and the positions of a frame
-- are taken not to pass 2^64. The counters of blocks and functions panic at 2^64, as in a build with
-- overflow checks; the atomic counter of values wraps.
-- The passes of `run_function` are limited as in the source, by `ITER_LIMIT`.
-- The loop of `dec_rc` has fuel: the length of the queue plus the number of pointers that the objects
-- of the heap would put in it is enough. The recursion of `emit_assert` has fuel, more than any chain of
-- conjunctions is long. `get_replacement` has one round more than it has entries, as
-- in the source, which is enough away from a cycle. Every other loop is a recursion on its list or type.
-- Not modelled: the log messages, the text formats, the lock of the constants, the initial bounds of
-- the value-range analysis, and the parts of the compiler and of the machine that are not named here.
pub mod Prelude
pub mod Analysis
pub mod Artifacts
pub mod Types
pub mod Range
pub mod Vm
pub mod Codegen
pub mod Llssa
pub mod Passes
pub mod Ssa
