-- ===== src/Ssa/Op/Traverse.antt =====
-- The iterators of an instruction (compiler/src/compiler/ssa/hlssa/mod.rs) agree with one another.
pub mod Read
pub mod Defined
use mavros.Prelude.{ℕ, ◌≡◌, refl, ap, ◌∙◌, map, map-++, Option, none, some, ◌∷◌}
use mavros.Ssa.Op.{
  OpCode, cmp, binary_arith_op, cast, sext, bit_range, not_op, mk_seq, mk_repeated, alloc, store,
  load, assert, assert_cmp, assert_r1c, call, array_get, array_set, slice_push, slice_len, select,
  to_bits, to_radix, mem_op, value_of, write_witness, fresh_witness, next_d_coeff, bump_d,
  constrain, lookup, d_lookup, mul_const, rangecheck, read_global, tuple_proj, mk_tuple, todo,
  init_global, drop_global, spread, unspread, guard, CallTarget, static, dynamic, Radix, bytes, dyn,
  LookupTarget, rangecheck_target, dyn_rangecheck, array_target, spread_target,
}
use mavros.Ssa.Instruction.{Instruction}
use mavros.Ssa.Op.Inputs.{get_inputs, call_target_inputs, radix_inputs, lookup_target_inputs}
use mavros.Ssa.Op.Results.{get_results, to_list}
use mavros.Ssa.Op.Mutate.{
  map_option, map_call_target, map_radix, map_lookup_target, map_results, map_inputs, map_operands,
}
use mavros.Ssa.Op.Traverse.Read.{get_inputs-map_inputs, get_inputs-map_results}
use mavros.Ssa.Op.Traverse.Defined.{get_results-map_results, get_results-map_inputs}

map_operands_lem : (f : ℕ → ℕ) (op : OpCode) → map_operands f op ≡ map_inputs f (map_results f op)
unfolding map_operands map_inputs map_results
map_operands_lem f (cmp _ _ _ _) = refl
map_operands_lem f (binary_arith_op _ _ _ _) = refl
map_operands_lem f (cast _ _ _) = refl
map_operands_lem f (sext _ _ _ _) = refl
map_operands_lem f (bit_range _ _ _ _) = refl
map_operands_lem f (not_op _ _) = refl
map_operands_lem f (mk_seq _ _ _ _) = refl
map_operands_lem f (mk_repeated _ _ _ _ _) = refl
map_operands_lem f (alloc _ _) = refl
map_operands_lem f (store _ _) = refl
map_operands_lem f (load _ _) = refl
map_operands_lem f (assert _) = refl
map_operands_lem f (assert_cmp _ _ _) = refl
map_operands_lem f (assert_r1c _ _ _) = refl
map_operands_lem f (call _ _ _ _) = refl
map_operands_lem f (array_get _ _ _) = refl
map_operands_lem f (array_set _ _ _ _) = refl
map_operands_lem f (slice_push _ _ _ _) = refl
map_operands_lem f (slice_len _ _) = refl
map_operands_lem f (select _ _ _ _) = refl
map_operands_lem f (to_bits _ _ _ _) = refl
map_operands_lem f (to_radix _ _ _ _ _) = refl
map_operands_lem f (mem_op _ _) = refl
map_operands_lem f (value_of _ _) = refl
map_operands_lem f (write_witness _ _ _) = refl
map_operands_lem f (fresh_witness _ _) = refl
map_operands_lem f (next_d_coeff _) = refl
map_operands_lem f (bump_d _ _ _) = refl
map_operands_lem f (constrain _ _ _) = refl
map_operands_lem f (lookup _ _ _) = refl
map_operands_lem f (d_lookup _ _ _) = refl
map_operands_lem f (mul_const _ _ _) = refl
map_operands_lem f (rangecheck _ _) = refl
map_operands_lem f (read_global _ _ _) = refl
map_operands_lem f (tuple_proj _ _ _) = refl
map_operands_lem f (mk_tuple _ _ _) = refl
map_operands_lem f (todo _ _ _) = refl
map_operands_lem f (init_global _ _) = refl
map_operands_lem f (drop_global _) = refl
map_operands_lem f (spread _ _ _) = refl
map_operands_lem f (unspread _ _ _ _) = refl
map_operands_lem f (guard p op) = ap (guard (f p)) (map_operands_lem f op)

pub get_inputs-map_operands :
    (f : ℕ → ℕ) (op : OpCode) → get_inputs (map_operands f op) ≡ map f (get_inputs op)
get_inputs-map_operands f op =
    ap get_inputs (map_operands_lem f op)
    ∙ get_inputs-map_inputs f (map_results f op)
    ∙ ap (map f) (get_inputs-map_results f op)

pub get_results-map_operands :
    (f : ℕ → ℕ) (op : OpCode) → get_results (map_operands f op) ≡ map f (get_results op)
get_results-map_operands f op =
    ap get_results (map_operands_lem f op)
    ∙ get_results-map_inputs f (map_results f op)
    ∙ get_results-map_results f op

-- `impl Instruction for OpCode`
abbrev pub op_code_instruction : Instruction OpCode
op_code_instruction = record {
  get_inputs = get_inputs;
  get_results = get_results;
  map_operands = map_operands;
  get_inputs-map_operands = get_inputs-map_operands;
  get_results-map_operands = get_results-map_operands;
}
