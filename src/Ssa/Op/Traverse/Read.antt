-- ===== src/Ssa/Op/Traverse/Read.antt =====
-- The values that an instruction (compiler/src/compiler/ssa/hlssa/mod.rs) reads after a loop over its
-- mutable inputs or results.
use mavros.Prelude.{ℕ, ◌≡◌, refl, ap, map, map-++, ◌∷◌}
use mavros.Ssa.Op.{
  OpCode, cmp, binary_arith_op, cast, sext, bit_range, not_op, mk_seq, mk_repeated, alloc, store,
  load, assert, assert_cmp, assert_r1c, call, array_get, array_set, slice_push, slice_len, select,
  to_bits, to_radix, mem_op, value_of, write_witness, fresh_witness, next_d_coeff, bump_d,
  constrain, lookup, d_lookup, mul_const, rangecheck, read_global, tuple_proj, mk_tuple, todo,
  init_global, drop_global, spread, unspread, guard, CallTarget, static, dynamic, Radix, bytes, dyn,
  LookupTarget, rangecheck_target, dyn_rangecheck, array_target, spread_target,
}
use mavros.Ssa.Op.Inputs.{get_inputs, call_target_inputs, radix_inputs, lookup_target_inputs}
use mavros.Ssa.Op.Mutate.{map_call_target, map_radix, map_lookup_target, map_results, map_inputs}

call_target_inputs-map_call_target :
    (f : ℕ → ℕ) (t : CallTarget)
    → call_target_inputs (map_call_target f t) ≡ map f (call_target_inputs t)
unfolding call_target_inputs map_call_target
call_target_inputs-map_call_target f (static _) = refl
call_target_inputs-map_call_target f (dynamic _) = refl

radix_inputs-map_radix :
    (f : ℕ → ℕ) (t : Radix ℕ) → radix_inputs (map_radix f t) ≡ map f (radix_inputs t)
unfolding radix_inputs map_radix
radix_inputs-map_radix f bytes = refl
radix_inputs-map_radix f (dyn _) = refl

lookup_target_inputs-map_lookup_target :
    (f : ℕ → ℕ) (t : LookupTarget ℕ)
    → lookup_target_inputs (map_lookup_target f t) ≡ map f (lookup_target_inputs t)
unfolding lookup_target_inputs map_lookup_target
lookup_target_inputs-map_lookup_target f (rangecheck_target _) = refl
lookup_target_inputs-map_lookup_target f (dyn_rangecheck _) = refl
lookup_target_inputs-map_lookup_target f (array_target _) = refl
lookup_target_inputs-map_lookup_target f (spread_target _) = refl

-- The values that an instruction reads after `f` went through its mutable inputs are `f` of those that
-- it read before, in the same order.
pub get_inputs-map_inputs :
    (f : ℕ → ℕ) (op : OpCode) → get_inputs (map_inputs f op) ≡ map f (get_inputs op)
unfolding get_inputs map_inputs
get_inputs-map_inputs f (cmp _ _ _ _) = refl
get_inputs-map_inputs f (binary_arith_op _ _ _ _) = refl
get_inputs-map_inputs f (cast _ _ _) = refl
get_inputs-map_inputs f (sext _ _ _ _) = refl
get_inputs-map_inputs f (bit_range _ _ _ _) = refl
get_inputs-map_inputs f (not_op _ _) = refl
get_inputs-map_inputs f (mk_seq _ vs _ _) = refl
get_inputs-map_inputs f (mk_repeated _ _ _ _ _) = refl
get_inputs-map_inputs f (alloc _ _) = refl
get_inputs-map_inputs f (store _ _) = refl
get_inputs-map_inputs f (load _ _) = refl
get_inputs-map_inputs f (assert _) = refl
get_inputs-map_inputs f (assert_cmp _ _ _) = refl
get_inputs-map_inputs f (assert_r1c _ _ _) = refl
get_inputs-map_inputs f (call _ fn vs _) =
    rw (call_target_inputs-map_call_target f fn, map-++ f (call_target_inputs fn) vs) refl
get_inputs-map_inputs f (array_get _ _ _) = refl
get_inputs-map_inputs f (array_set _ _ _ _) = refl
get_inputs-map_inputs f (slice_push _ _ _ vs) = refl
get_inputs-map_inputs f (slice_len _ _) = refl
get_inputs-map_inputs f (select _ _ _ _) = refl
get_inputs-map_inputs f (to_bits _ _ _ _) = refl
get_inputs-map_inputs f (to_radix _ _ d _ _) = rw (radix_inputs-map_radix f d) refl
get_inputs-map_inputs f (mem_op _ _) = refl
get_inputs-map_inputs f (value_of _ _) = refl
get_inputs-map_inputs f (write_witness _ _ _) = refl
get_inputs-map_inputs f (fresh_witness _ _) = refl
get_inputs-map_inputs f (next_d_coeff _) = refl
get_inputs-map_inputs f (bump_d _ _ _) = refl
get_inputs-map_inputs f (constrain _ _ _) = refl
get_inputs-map_inputs f (lookup t vs p) = simp (lookup_target_inputs-map_lookup_target, map-++)
get_inputs-map_inputs f (d_lookup t vs p) = simp (lookup_target_inputs-map_lookup_target, map-++)
get_inputs-map_inputs f (mul_const _ _ _) = refl
get_inputs-map_inputs f (rangecheck _ _) = refl
get_inputs-map_inputs f (read_global _ _ _) = refl
get_inputs-map_inputs f (tuple_proj _ _ _) = refl
get_inputs-map_inputs f (mk_tuple _ vs _) = refl
get_inputs-map_inputs f (todo _ _ _) = refl
get_inputs-map_inputs f (init_global _ _) = refl
get_inputs-map_inputs f (drop_global _) = refl
get_inputs-map_inputs f (spread _ _ _) = refl
get_inputs-map_inputs f (unspread _ _ _ _) = refl
get_inputs-map_inputs f (guard p op) = ap (λ vs. f p ∷ vs) (get_inputs-map_inputs f op)

pub get_inputs-map_results :
    (f : ℕ → ℕ) (op : OpCode) → get_inputs (map_results f op) ≡ get_inputs op
unfolding get_inputs map_results
get_inputs-map_results f (cmp _ _ _ _) = refl
get_inputs-map_results f (binary_arith_op _ _ _ _) = refl
get_inputs-map_results f (cast _ _ _) = refl
get_inputs-map_results f (sext _ _ _ _) = refl
get_inputs-map_results f (bit_range _ _ _ _) = refl
get_inputs-map_results f (not_op _ _) = refl
get_inputs-map_results f (mk_seq _ _ _ _) = refl
get_inputs-map_results f (mk_repeated _ _ _ _ _) = refl
get_inputs-map_results f (alloc _ _) = refl
get_inputs-map_results f (store _ _) = refl
get_inputs-map_results f (load _ _) = refl
get_inputs-map_results f (assert _) = refl
get_inputs-map_results f (assert_cmp _ _ _) = refl
get_inputs-map_results f (assert_r1c _ _ _) = refl
get_inputs-map_results f (call _ _ _ _) = refl
get_inputs-map_results f (array_get _ _ _) = refl
get_inputs-map_results f (array_set _ _ _ _) = refl
get_inputs-map_results f (slice_push _ _ _ _) = refl
get_inputs-map_results f (slice_len _ _) = refl
get_inputs-map_results f (select _ _ _ _) = refl
get_inputs-map_results f (to_bits _ _ _ _) = refl
get_inputs-map_results f (to_radix _ _ _ _ _) = refl
get_inputs-map_results f (mem_op _ _) = refl
get_inputs-map_results f (value_of _ _) = refl
get_inputs-map_results f (write_witness _ _ _) = refl
get_inputs-map_results f (fresh_witness _ _) = refl
get_inputs-map_results f (next_d_coeff _) = refl
get_inputs-map_results f (bump_d _ _ _) = refl
get_inputs-map_results f (constrain _ _ _) = refl
get_inputs-map_results f (lookup _ _ _) = refl
get_inputs-map_results f (d_lookup _ _ _) = refl
get_inputs-map_results f (mul_const _ _ _) = refl
get_inputs-map_results f (rangecheck _ _) = refl
get_inputs-map_results f (read_global _ _ _) = refl
get_inputs-map_results f (tuple_proj _ _ _) = refl
get_inputs-map_results f (mk_tuple _ _ _) = refl
get_inputs-map_results f (todo _ _ _) = refl
get_inputs-map_results f (init_global _ _) = refl
get_inputs-map_results f (drop_global _) = refl
get_inputs-map_results f (spread _ _ _) = refl
get_inputs-map_results f (unspread _ _ _ _) = refl
get_inputs-map_results f (guard p op) = ap (λ vs. p ∷ vs) (get_inputs-map_results f op)
