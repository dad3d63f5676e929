-- ===== src/Ssa/Op/Traverse/Defined.antt =====
-- The values that an instruction (compiler/src/compiler/ssa/hlssa/mod.rs) defines after a loop over its
-- mutable inputs or results.
use mavros.Prelude.{ℕ, ◌≡◌, refl, map, Option, none, some}
use mavros.Ssa.Op.{
  OpCode, cmp, binary_arith_op, cast, sext, bit_range, not_op, mk_seq, mk_repeated, alloc, store,
  load, assert, assert_cmp, assert_r1c, call, array_get, array_set, slice_push, slice_len, select,
  to_bits, to_radix, mem_op, value_of, write_witness, fresh_witness, next_d_coeff, bump_d,
  constrain, lookup, d_lookup, mul_const, rangecheck, read_global, tuple_proj, mk_tuple, todo,
  init_global, drop_global, spread, unspread, guard,
}
use mavros.Ssa.Op.Results.{get_results, to_list}
use mavros.Ssa.Op.Mutate.{map_option, map_results, map_inputs}

to_list-map_option : (f : ℕ → ℕ) (o : Option ℕ) → to_list (map_option f o) ≡ map f (to_list o)
unfolding to_list map_option
to_list-map_option f none = refl
to_list-map_option f (some _) = refl

pub get_results-map_results :
    (f : ℕ → ℕ) (op : OpCode) → get_results (map_results f op) ≡ map f (get_results op)
unfolding get_results map_results
get_results-map_results f (cmp _ _ _ _) = refl
get_results-map_results f (binary_arith_op _ _ _ _) = refl
get_results-map_results f (cast _ _ _) = refl
get_results-map_results f (sext _ _ _ _) = refl
get_results-map_results f (bit_range _ _ _ _) = refl
get_results-map_results f (not_op _ _) = refl
get_results-map_results f (mk_seq _ _ _ _) = refl
get_results-map_results f (mk_repeated _ _ _ _ _) = refl
get_results-map_results f (alloc _ _) = refl
get_results-map_results f (store _ _) = refl
get_results-map_results f (load _ _) = refl
get_results-map_results f (assert _) = refl
get_results-map_results f (assert_cmp _ _ _) = refl
get_results-map_results f (assert_r1c _ _ _) = refl
get_results-map_results f (call _ _ _ _) = refl
get_results-map_results f (array_get _ _ _) = refl
get_results-map_results f (array_set _ _ _ _) = refl
get_results-map_results f (slice_push _ _ _ _) = refl
get_results-map_results f (slice_len _ _) = refl
get_results-map_results f (select _ _ _ _) = refl
get_results-map_results f (to_bits _ _ _ _) = refl
get_results-map_results f (to_radix _ _ _ _ _) = refl
get_results-map_results f (mem_op _ _) = refl
get_results-map_results f (value_of _ _) = refl
get_results-map_results f (write_witness r _ _) = to_list-map_option f r
get_results-map_results f (fresh_witness _ _) = refl
get_results-map_results f (next_d_coeff _) = refl
get_results-map_results f (bump_d _ _ _) = refl
get_results-map_results f (constrain _ _ _) = refl
get_results-map_results f (lookup _ _ _) = refl
get_results-map_results f (d_lookup _ _ _) = refl
get_results-map_results f (mul_const _ _ _) = refl
get_results-map_results f (rangecheck _ _) = refl
get_results-map_results f (read_global _ _ _) = refl
get_results-map_results f (tuple_proj _ _ _) = refl
get_results-map_results f (mk_tuple _ _ _) = refl
get_results-map_results f (todo _ _ _) = refl
get_results-map_results f (init_global _ _) = refl
get_results-map_results f (drop_global _) = refl
get_results-map_results f (spread _ _ _) = refl
get_results-map_results f (unspread _ _ _ _) = refl
get_results-map_results f (guard _ op) = get_results-map_results f op

pub get_results-map_inputs :
    (f : ℕ → ℕ) (op : OpCode) → get_results (map_inputs f op) ≡ get_results op
unfolding get_results map_inputs
get_results-map_inputs f (cmp _ _ _ _) = refl
get_results-map_inputs f (binary_arith_op _ _ _ _) = refl
get_results-map_inputs f (cast _ _ _) = refl
get_results-map_inputs f (sext _ _ _ _) = refl
get_results-map_inputs f (bit_range _ _ _ _) = refl
get_results-map_inputs f (not_op _ _) = refl
get_results-map_inputs f (mk_seq _ _ _ _) = refl
get_results-map_inputs f (mk_repeated _ _ _ _ _) = refl
get_results-map_inputs f (alloc _ _) = refl
get_results-map_inputs f (store _ _) = refl
get_results-map_inputs f (load _ _) = refl
get_results-map_inputs f (assert _) = refl
get_results-map_inputs f (assert_cmp _ _ _) = refl
get_results-map_inputs f (assert_r1c _ _ _) = refl
get_results-map_inputs f (call _ _ _ _) = refl
get_results-map_inputs f (array_get _ _ _) = refl
get_results-map_inputs f (array_set _ _ _ _) = refl
get_results-map_inputs f (slice_push _ _ _ _) = refl
get_results-map_inputs f (slice_len _ _) = refl
get_results-map_inputs f (select _ _ _ _) = refl
get_results-map_inputs f (to_bits _ _ _ _) = refl
get_results-map_inputs f (to_radix _ _ _ _ _) = refl
get_results-map_inputs f (mem_op _ _) = refl
get_results-map_inputs f (value_of _ _) = refl
get_results-map_inputs f (write_witness _ _ _) = refl
get_results-map_inputs f (fresh_witness _ _) = refl
get_results-map_inputs f (next_d_coeff _) = refl
get_results-map_inputs f (bump_d _ _ _) = refl
get_results-map_inputs f (constrain _ _ _) = refl
get_results-map_inputs f (lookup _ _ _) = refl
get_results-map_inputs f (d_lookup _ _ _) = refl
get_results-map_inputs f (mul_const _ _ _) = refl
get_results-map_inputs f (rangecheck _ _) = refl
get_results-map_inputs f (read_global _ _ _) = refl
get_results-map_inputs f (tuple_proj _ _ _) = refl
get_results-map_inputs f (mk_tuple _ _ _) = refl
get_results-map_inputs f (todo _ _ _) = refl
get_results-map_inputs f (init_global _ _) = refl
get_results-map_inputs f (drop_global _) = refl
get_results-map_inputs f (spread _ _ _) = refl
get_results-map_inputs f (unspread _ _ _ _) = refl
get_results-map_inputs f (guard _ op) = get_results-map_inputs f op
