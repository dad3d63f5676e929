-- ===== src/Ssa/Op/Mutate.antt =====
-- compiler/src/compiler/ssa/hlssa/mod.rs: the iterators over mutable references, as the loop that puts
-- `f v` in place of every `v` they give.
use mavros.Prelude.{ℕ, Option, none, some, map}
use mavros.Ssa.Op.{
  OpCode, cmp, binary_arith_op, cast, sext, bit_range, not_op, mk_seq, mk_repeated, alloc, store,
  load, assert, assert_cmp, assert_r1c, call, array_get, array_set, slice_push, slice_len, select,
  to_bits, to_radix, mem_op, value_of, write_witness, fresh_witness, next_d_coeff, bump_d,
  constrain, lookup, d_lookup, mul_const, rangecheck, read_global, tuple_proj, mk_tuple, todo,
  init_global, drop_global, spread, unspread, guard, CallTarget, static, dynamic, Radix, bytes, dyn,
  LookupTarget, rangecheck_target, dyn_rangecheck, array_target, spread_target,
}

unfoldable pub map_option : (ℕ → ℕ) → Option ℕ → Option ℕ
map_option f none = none
map_option f (some v) = some (f v)

unfoldable pub map_call_target : (ℕ → ℕ) → CallTarget → CallTarget
map_call_target f (static g) = static g
map_call_target f (dynamic v) = dynamic (f v)

unfoldable pub map_radix : (ℕ → ℕ) → Radix ℕ → Radix ℕ
map_radix f bytes = bytes
map_radix f (dyn v) = dyn (f v)

unfoldable pub map_lookup_target : (ℕ → ℕ) → LookupTarget ℕ → LookupTarget ℕ
map_lookup_target f (rangecheck_target n) = rangecheck_target n
map_lookup_target f (dyn_rangecheck v) = dyn_rangecheck (f v)
map_lookup_target f (array_target v) = array_target (f v)
map_lookup_target f (spread_target n) = spread_target n

-- `Instruction::get_results_mut`
unfoldable pub map_results : (ℕ → ℕ) → OpCode → OpCode
map_results f (cmp k r x y) = cmp k (f r) x y
map_results f (binary_arith_op k r x y) = binary_arith_op k (f r) x y
map_results f (cast r v t) = cast (f r) v t
map_results f (sext r v m n) = sext (f r) v m n
map_results f (bit_range r v m n) = bit_range (f r) v m n
map_results f (not_op r v) = not_op (f r) v
map_results f (mk_seq r vs s t) = mk_seq (f r) vs s t
map_results f (mk_repeated r v s n t) = mk_repeated (f r) v s n t
map_results f (alloc r t) = alloc (f r) t
map_results f (store p v) = store p v
map_results f (load r p) = load (f r) p
map_results f (assert v) = assert v
map_results f (assert_cmp k x y) = assert_cmp k x y
map_results f (assert_r1c x y z) = assert_r1c x y z
map_results f (call rs fn vs w) = call (map f rs) fn vs w
map_results f (array_get r xs n) = array_get (f r) xs n
map_results f (array_set r xs n v) = array_set (f r) xs n v
map_results f (slice_push d r s vs) = slice_push d (f r) s vs
map_results f (slice_len r s) = slice_len (f r) s
map_results f (select r p x y) = select (f r) p x y
map_results f (to_bits r v e n) = to_bits (f r) v e n
map_results f (to_radix r v d e n) = to_radix (f r) v d e n
map_results f (mem_op k v) = mem_op k v
map_results f (value_of r v) = value_of (f r) v
map_results f (write_witness r v w) = write_witness (map_option f r) v w
map_results f (fresh_witness r t) = fresh_witness (f r) t
map_results f (next_d_coeff r) = next_d_coeff (f r)
map_results f (bump_d m x d) = bump_d m x d
map_results f (constrain x y z) = constrain x y z
map_results f (lookup t vs p) = lookup t vs p
map_results f (d_lookup t vs p) = d_lookup t vs p
map_results f (mul_const r x y) = mul_const (f r) x y
map_results f (rangecheck v n) = rangecheck v n
map_results f (read_global r m t) = read_global (f r) m t
map_results f (tuple_proj r v n) = tuple_proj (f r) v n
map_results f (mk_tuple r vs ts) = mk_tuple (f r) vs ts
map_results f (todo s rs ts) = todo s (map f rs) ts
map_results f (init_global g v) = init_global g v
map_results f (drop_global g) = drop_global g
map_results f (spread r v n) = spread (f r) v n
map_results f (unspread r q v n) = unspread (f r) (f q) v n
map_results f (guard p op) = guard p (map_results f op)

-- `Instruction::get_inputs_mut`
unfoldable pub map_inputs : (ℕ → ℕ) → OpCode → OpCode
map_inputs f (cmp k r x y) = cmp k r (f x) (f y)
map_inputs f (binary_arith_op k r x y) = binary_arith_op k r (f x) (f y)
map_inputs f (cast r v t) = cast r (f v) t
map_inputs f (sext r v m n) = sext r (f v) m n
map_inputs f (bit_range r v m n) = bit_range r (f v) m n
map_inputs f (not_op r v) = not_op r (f v)
map_inputs f (mk_seq r vs s t) = mk_seq r (map f vs) s t
map_inputs f (mk_repeated r v s n t) = mk_repeated r (f v) s n t
map_inputs f (alloc r t) = alloc r t
map_inputs f (store p v) = store (f p) (f v)
map_inputs f (load r p) = load r (f p)
map_inputs f (assert v) = assert (f v)
map_inputs f (assert_cmp k x y) = assert_cmp k (f x) (f y)
map_inputs f (assert_r1c x y z) = assert_r1c (f x) (f y) (f z)
map_inputs f (call rs fn vs w) = call rs (map_call_target f fn) (map f vs) w
map_inputs f (array_get r xs n) = array_get r (f xs) (f n)
map_inputs f (array_set r xs n v) = array_set r (f xs) (f n) (f v)
map_inputs f (slice_push d r s vs) = slice_push d r (f s) (map f vs)
map_inputs f (slice_len r s) = slice_len r (f s)
map_inputs f (select r p x y) = select r (f p) (f x) (f y)
map_inputs f (to_bits r v e n) = to_bits r (f v) e n
map_inputs f (to_radix r v d e n) = to_radix r (f v) (map_radix f d) e n
map_inputs f (mem_op k v) = mem_op k (f v)
map_inputs f (value_of r v) = value_of r (f v)
map_inputs f (write_witness r v w) = write_witness r (f v) w
map_inputs f (fresh_witness r t) = fresh_witness r t
map_inputs f (next_d_coeff r) = next_d_coeff r
map_inputs f (bump_d m x d) = bump_d m (f x) (f d)
map_inputs f (constrain x y z) = constrain (f x) (f y) (f z)
map_inputs f (lookup t vs p) = lookup (map_lookup_target f t) (map f vs) (f p)
map_inputs f (d_lookup t vs p) = d_lookup (map_lookup_target f t) (map f vs) (f p)
map_inputs f (mul_const r x y) = mul_const r (f x) (f y)
map_inputs f (rangecheck v n) = rangecheck (f v) n
map_inputs f (read_global r m t) = read_global r m t
map_inputs f (tuple_proj r v n) = tuple_proj r (f v) n
map_inputs f (mk_tuple r vs ts) = mk_tuple r (map f vs) ts
map_inputs f (todo s rs ts) = todo s rs ts
map_inputs f (init_global g v) = init_global g (f v)
map_inputs f (drop_global g) = drop_global g
map_inputs f (spread r v n) = spread r (f v) n
map_inputs f (unspread r q v n) = unspread r q (f v) n
map_inputs f (guard p op) = guard (f p) (map_inputs f op)

-- `Instruction::get_operands_mut`
unfoldable pub map_operands : (ℕ → ℕ) → OpCode → OpCode
map_operands f (cmp k r x y) = cmp k (f r) (f x) (f y)
map_operands f (binary_arith_op k r x y) = binary_arith_op k (f r) (f x) (f y)
map_operands f (cast r v t) = cast (f r) (f v) t
map_operands f (sext r v m n) = sext (f r) (f v) m n
map_operands f (bit_range r v m n) = bit_range (f r) (f v) m n
map_operands f (not_op r v) = not_op (f r) (f v)
map_operands f (mk_seq r vs s t) = mk_seq (f r) (map f vs) s t
map_operands f (mk_repeated r v s n t) = mk_repeated (f r) (f v) s n t
map_operands f (alloc r t) = alloc (f r) t
map_operands f (store p v) = store (f p) (f v)
map_operands f (load r p) = load (f r) (f p)
map_operands f (assert v) = assert (f v)
map_operands f (assert_cmp k x y) = assert_cmp k (f x) (f y)
map_operands f (assert_r1c x y z) = assert_r1c (f x) (f y) (f z)
map_operands f (call rs fn vs w) = call (map f rs) (map_call_target f fn) (map f vs) w
map_operands f (array_get r xs n) = array_get (f r) (f xs) (f n)
map_operands f (array_set r xs n v) = array_set (f r) (f xs) (f n) (f v)
map_operands f (slice_push d r s vs) = slice_push d (f r) (f s) (map f vs)
map_operands f (slice_len r s) = slice_len (f r) (f s)
map_operands f (select r p x y) = select (f r) (f p) (f x) (f y)
map_operands f (to_bits r v e n) = to_bits (f r) (f v) e n
map_operands f (to_radix r v d e n) = to_radix (f r) (f v) (map_radix f d) e n
map_operands f (mem_op k v) = mem_op k (f v)
map_operands f (value_of r v) = value_of (f r) (f v)
map_operands f (write_witness r v w) = write_witness (map_option f r) (f v) w
map_operands f (fresh_witness r t) = fresh_witness (f r) t
map_operands f (next_d_coeff r) = next_d_coeff (f r)
map_operands f (bump_d m x d) = bump_d m (f x) (f d)
map_operands f (constrain x y z) = constrain (f x) (f y) (f z)
map_operands f (lookup t vs p) = lookup (map_lookup_target f t) (map f vs) (f p)
map_operands f (d_lookup t vs p) = d_lookup (map_lookup_target f t) (map f vs) (f p)
map_operands f (mul_const r x y) = mul_const (f r) (f x) (f y)
map_operands f (rangecheck v n) = rangecheck (f v) n
map_operands f (read_global r m t) = read_global (f r) m t
map_operands f (tuple_proj r v n) = tuple_proj (f r) (f v) n
map_operands f (mk_tuple r vs ts) = mk_tuple (f r) (map f vs) ts
map_operands f (todo s rs ts) = todo s (map f rs) ts
map_operands f (init_global g v) = init_global g (f v)
map_operands f (drop_global g) = drop_global g
map_operands f (spread r v n) = spread (f r) (f v) n
map_operands f (unspread r q v n) = unspread (f r) (f q) (f v) n
map_operands f (guard p op) = guard (f p) (map_operands f op)
