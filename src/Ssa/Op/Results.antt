-- ===== src/Ssa/Op/Results.antt =====
-- compiler/src/compiler/ssa/hlssa/mod.rs: the values an instruction defines.
use mavros.Prelude.{ℕ, Option, none, some, List, [], ◌∷◌}
use mavros.Ssa.Op.{
  OpCode, cmp, binary_arith_op, cast, sext, bit_range, not_op, mk_seq, mk_repeated, alloc, store,
  load, assert, assert_cmp, assert_r1c, call, array_get, array_set, slice_push, slice_len, select,
  to_bits, to_radix, mem_op, value_of, write_witness, fresh_witness, next_d_coeff, bump_d,
  constrain, lookup, d_lookup, mul_const, rangecheck, read_global, tuple_proj, mk_tuple, todo,
  init_global, drop_global, spread, unspread, guard,
}

unfoldable pub to_list : Option ℕ → List ℕ
to_list none = []
to_list (some v) = v ∷ []

-- `Instruction::get_results`
unfoldable pub get_results : OpCode → List ℕ
get_results (cmp _ r _ _) = r ∷ []
get_results (binary_arith_op _ r _ _) = r ∷ []
get_results (cast r _ _) = r ∷ []
get_results (sext r _ _ _) = r ∷ []
get_results (bit_range r _ _ _) = r ∷ []
get_results (not_op r _) = r ∷ []
get_results (mk_seq r _ _ _) = r ∷ []
get_results (mk_repeated r _ _ _ _) = r ∷ []
get_results (alloc r _) = r ∷ []
get_results (store _ _) = []
get_results (load r _) = r ∷ []
get_results (assert _) = []
get_results (assert_cmp _ _ _) = []
get_results (assert_r1c _ _ _) = []
get_results (call rs _ _ _) = rs
get_results (array_get r _ _) = r ∷ []
get_results (array_set r _ _ _) = r ∷ []
get_results (slice_push _ r _ _) = r ∷ []
get_results (slice_len r _) = r ∷ []
get_results (select r _ _ _) = r ∷ []
get_results (to_bits r _ _ _) = r ∷ []
get_results (to_radix r _ _ _ _) = r ∷ []
get_results (mem_op _ _) = []
get_results (value_of r _) = r ∷ []
get_results (write_witness r _ _) = to_list r
get_results (fresh_witness r _) = r ∷ []
get_results (next_d_coeff r) = r ∷ []
get_results (bump_d _ _ _) = []
get_results (constrain _ _ _) = []
get_results (lookup _ _ _) = []
get_results (d_lookup _ _ _) = []
get_results (mul_const r _ _) = r ∷ []
get_results (rangecheck _ _) = []
get_results (read_global r _ _) = r ∷ []
get_results (tuple_proj r _ _) = r ∷ []
get_results (mk_tuple r _ _) = r ∷ []
get_results (todo _ rs _) = rs
get_results (init_global _ _) = []
get_results (drop_global _) = []
get_results (spread r _ _) = r ∷ []
get_results (unspread r q _ _) = r ∷ q ∷ []
get_results (guard _ op) = get_results op
