-- ===== src/Ssa/Op/Inputs.antt =====
-- compiler/src/compiler/ssa/hlssa/mod.rs: the values an instruction reads and the functions it names.
use mavros.Prelude.{ℕ, List, [], ◌∷◌, ◌++◌}
use mavros.Ssa.Op.{
  OpCode, cmp, binary_arith_op, cast, sext, bit_range, not_op, mk_seq, mk_repeated, alloc, store,
  load, assert, assert_cmp, assert_r1c, call, array_get, array_set, slice_push, slice_len, select,
  to_bits, to_radix, mem_op, value_of, write_witness, fresh_witness, next_d_coeff, bump_d,
  constrain, lookup, d_lookup, mul_const, rangecheck, read_global, tuple_proj, mk_tuple, todo,
  init_global, drop_global, spread, unspread, guard, CallTarget, static, dynamic, Radix, bytes, dyn,
  LookupTarget, rangecheck_target, dyn_rangecheck, array_target, spread_target,
}

-- `Instruction::get_static_call_targets`
unfoldable pub get_static_call_targets : OpCode → List ℕ
get_static_call_targets (call _ (static g) _ _) = g ∷ []
get_static_call_targets (guard _ op) = get_static_call_targets op
get_static_call_targets _ = []

-- The function pointer of an indirect call.
unfoldable pub call_target_inputs : CallTarget → List ℕ
call_target_inputs (static _) = []
call_target_inputs (dynamic v) = v ∷ []

unfoldable pub radix_inputs : Radix ℕ → List ℕ
radix_inputs bytes = []
radix_inputs (dyn v) = v ∷ []

unfoldable pub lookup_target_inputs : LookupTarget ℕ → List ℕ
lookup_target_inputs (rangecheck_target _) = []
lookup_target_inputs (dyn_rangecheck v) = v ∷ []
lookup_target_inputs (array_target v) = v ∷ []
lookup_target_inputs (spread_target _) = []

-- `Instruction::get_inputs`
unfoldable pub get_inputs : OpCode → List ℕ
get_inputs (cmp _ _ x y) = x ∷ y ∷ []
get_inputs (binary_arith_op _ _ x y) = x ∷ y ∷ []
get_inputs (cast _ v _) = v ∷ []
get_inputs (sext _ v _ _) = v ∷ []
get_inputs (bit_range _ v _ _) = v ∷ []
get_inputs (not_op _ v) = v ∷ []
get_inputs (mk_seq _ vs _ _) = vs
get_inputs (mk_repeated _ v _ _ _) = v ∷ []
get_inputs (alloc _ _) = []
get_inputs (store p v) = p ∷ v ∷ []
get_inputs (load _ p) = p ∷ []
get_inputs (assert v) = v ∷ []
get_inputs (assert_cmp _ x y) = x ∷ y ∷ []
get_inputs (assert_r1c x y z) = x ∷ y ∷ z ∷ []
get_inputs (call _ fn vs _) = call_target_inputs fn ++ vs
get_inputs (array_get _ xs n) = xs ∷ n ∷ []
get_inputs (array_set _ xs n v) = xs ∷ n ∷ v ∷ []
get_inputs (slice_push _ _ s vs) = s ∷ vs
get_inputs (slice_len _ s) = s ∷ []
get_inputs (select _ p x y) = p ∷ x ∷ y ∷ []
get_inputs (to_bits _ v _ _) = v ∷ []
get_inputs (to_radix _ v d _ _) = v ∷ radix_inputs d
get_inputs (mem_op _ v) = v ∷ []
get_inputs (value_of _ v) = v ∷ []
get_inputs (write_witness _ v _) = v ∷ []
get_inputs (fresh_witness _ _) = []
get_inputs (next_d_coeff _) = []
get_inputs (bump_d _ x d) = x ∷ d ∷ []
get_inputs (constrain x y z) = x ∷ y ∷ z ∷ []
get_inputs (lookup t vs p) = lookup_target_inputs t ++ vs ++ p ∷ []
get_inputs (d_lookup t vs p) = lookup_target_inputs t ++ vs ++ p ∷ []
get_inputs (mul_const _ x y) = x ∷ y ∷ []
get_inputs (rangecheck v _) = v ∷ []
get_inputs (read_global _ _ _) = []
get_inputs (tuple_proj _ v _) = v ∷ []
get_inputs (mk_tuple _ vs _) = vs
get_inputs (todo _ _ _) = []
get_inputs (init_global _ v) = v ∷ []
get_inputs (drop_global _) = []
get_inputs (spread _ v _) = v ∷ []
get_inputs (unspread _ _ v _) = v ∷ []
get_inputs (guard p op) = p ∷ get_inputs op
