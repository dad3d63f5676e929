-- ===== src/Ssa/Op/Tests.antt =====
-- A guarded addition.
use mavros.Prelude.{suc, ◌≡◌, map}
use mavros.Range.Transfer.{add_op}
use mavros.Ssa.Op.{OpCode, binary_arith_op, guard}
use mavros.Ssa.Op.Inputs.{get_inputs}
use mavros.Ssa.Op.Mutate.{map_inputs}
use mavros.Ssa.Op.Traverse.Read.{get_inputs-map_inputs}

abbrev guarded : OpCode
guarded = guard 1 (binary_arith_op add_op 2 3 4)

get_inputs-map_inputs_example : get_inputs (map_inputs suc guarded) ≡ map suc (get_inputs guarded)
get_inputs-map_inputs_example = get_inputs-map_inputs suc guarded
