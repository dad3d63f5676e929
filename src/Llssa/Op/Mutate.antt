-- ===== src/Llssa/Op/Mutate.antt =====
-- compiler/src/compiler/ssa/llssa/mod.rs: the iterators over mutable references.
use mavros.Prelude.{ℕ, Option, none, some, map}
use mavros.Llssa.Op.{
  LlOp, int_arith, not_op, spread, unspread, int_cmp, truncate, zext, field_arith, field_neg,
  field_eq, field_to_limbs, field_from_limbs, mk_struct, extract_field, heap_alloc, free, load,
  store, struct_field_ptr, array_elem_ptr, memcpy, select, call, global_addr, trap,
}

unfoldable pub map_option : (ℕ → ℕ) → Option ℕ → Option ℕ
map_option f none = none
map_option f (some v) = some (f v)

-- `Instruction::get_results_mut`
unfoldable pub map_results : (ℕ → ℕ) → LlOp → LlOp
map_results f (int_arith k r x y) = int_arith k (f r) x y
map_results f (not_op r v) = not_op (f r) v
map_results f (spread r v b n) = spread (f r) v b n
map_results f (unspread r q v b m k) = unspread (f r) (f q) v b m k
map_results f (int_cmp k r x y) = int_cmp k (f r) x y
map_results f (truncate r v n) = truncate (f r) v n
map_results f (zext r v n) = zext (f r) v n
map_results f (field_arith k r x y) = field_arith k (f r) x y
map_results f (field_neg r y) = field_neg (f r) y
map_results f (field_eq r x y) = field_eq (f r) x y
map_results f (field_to_limbs r y) = field_to_limbs (f r) y
map_results f (field_from_limbs r v) = field_from_limbs (f r) v
map_results f (mk_struct r s vs) = mk_struct (f r) s vs
map_results f (extract_field r v s n) = extract_field (f r) v s n
map_results f (heap_alloc r s o) = heap_alloc (f r) s o
map_results f (free p) = free p
map_results f (load r p t) = load (f r) p t
map_results f (store p v) = store p v
map_results f (struct_field_ptr r p s n) = struct_field_ptr (f r) p s n
map_results f (array_elem_ptr r p s w) = array_elem_ptr (f r) p s w
map_results f (memcpy x y s o) = memcpy x y s o
map_results f (select r p x y) = select (f r) p x y
map_results f (call rs g vs) = call (map f rs) g vs
map_results f (global_addr r n) = global_addr (f r) n
map_results f trap = trap

-- `Instruction::get_inputs_mut`
unfoldable pub map_inputs : (ℕ → ℕ) → LlOp → LlOp
map_inputs f (int_arith k r x y) = int_arith k r (f x) (f y)
map_inputs f (not_op r v) = not_op r (f v)
map_inputs f (spread r v b n) = spread r (f v) b n
map_inputs f (unspread r q v b m k) = unspread r q (f v) b m k
map_inputs f (int_cmp k r x y) = int_cmp k r (f x) (f y)
map_inputs f (truncate r v n) = truncate r (f v) n
map_inputs f (zext r v n) = zext r (f v) n
map_inputs f (field_arith k r x y) = field_arith k r (f x) (f y)
map_inputs f (field_neg r y) = field_neg r (f y)
map_inputs f (field_eq r x y) = field_eq r (f x) (f y)
map_inputs f (field_to_limbs r y) = field_to_limbs r (f y)
map_inputs f (field_from_limbs r v) = field_from_limbs r (f v)
map_inputs f (mk_struct r s vs) = mk_struct r s (map f vs)
map_inputs f (extract_field r v s n) = extract_field r (f v) s n
map_inputs f (heap_alloc r s o) = heap_alloc r s (map_option f o)
map_inputs f (free p) = free (f p)
map_inputs f (load r p t) = load r (f p) t
map_inputs f (store p v) = store (f p) (f v)
map_inputs f (struct_field_ptr r p s n) = struct_field_ptr r (f p) s n
map_inputs f (array_elem_ptr r p s w) = array_elem_ptr r (f p) s (f w)
map_inputs f (memcpy x y s o) = memcpy (f x) (f y) s (map_option f o)
map_inputs f (select r p x y) = select r (f p) (f x) (f y)
map_inputs f (call rs g vs) = call rs g (map f vs)
map_inputs f (global_addr r n) = global_addr r n
map_inputs f trap = trap

-- `Instruction::get_operands_mut`
unfoldable pub map_operands : (ℕ → ℕ) → LlOp → LlOp
map_operands f (int_arith k r x y) = int_arith k (f r) (f x) (f y)
map_operands f (not_op r v) = not_op (f r) (f v)
map_operands f (spread r v b n) = spread (f r) (f v) b n
map_operands f (unspread r q v b m k) = unspread (f r) (f q) (f v) b m k
map_operands f (int_cmp k r x y) = int_cmp k (f r) (f x) (f y)
map_operands f (truncate r v n) = truncate (f r) (f v) n
map_operands f (zext r v n) = zext (f r) (f v) n
map_operands f (field_arith k r x y) = field_arith k (f r) (f x) (f y)
map_operands f (field_neg r y) = field_neg (f r) (f y)
map_operands f (field_eq r x y) = field_eq (f r) (f x) (f y)
map_operands f (field_to_limbs r y) = field_to_limbs (f r) (f y)
map_operands f (field_from_limbs r v) = field_from_limbs (f r) (f v)
map_operands f (mk_struct r s vs) = mk_struct (f r) s (map f vs)
map_operands f (extract_field r v s n) = extract_field (f r) (f v) s n
map_operands f (heap_alloc r s o) = heap_alloc (f r) s (map_option f o)
map_operands f (free p) = free (f p)
map_operands f (load r p t) = load (f r) (f p) t
map_operands f (store p v) = store (f p) (f v)
map_operands f (struct_field_ptr r p s n) = struct_field_ptr (f r) (f p) s n
map_operands f (array_elem_ptr r p s w) = array_elem_ptr (f r) (f p) s (f w)
map_operands f (memcpy x y s o) = memcpy (f x) (f y) s (map_option f o)
map_operands f (select r p x y) = select (f r) (f p) (f x) (f y)
map_operands f (call rs g vs) = call (map f rs) g (map f vs)
map_operands f (global_addr r n) = global_addr (f r) n
map_operands f trap = trap
