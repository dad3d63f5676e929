-- ===== src/Llssa/Op/Inputs.antt =====
-- compiler/src/compiler/ssa/llssa/mod.rs: the values an instruction reads and defines, and the
-- functions it calls.
use mavros.Prelude.{ℕ, Option, none, some, List, [], ◌∷◌}
use mavros.Llssa.Op.{
  LlOp, int_arith, not_op, spread, unspread, int_cmp, truncate, zext, field_arith, field_neg,
  field_eq, field_to_limbs, field_from_limbs, mk_struct, extract_field, heap_alloc, free, load,
  store, struct_field_ptr, array_elem_ptr, memcpy, select, call, global_addr, trap,
}

-- `Option::iter`
unfoldable pub to_list : Option ℕ → List ℕ
to_list none = []
to_list (some v) = v ∷ []

-- `Instruction::get_inputs`
unfoldable pub get_inputs : LlOp → List ℕ
get_inputs (int_arith _ _ x y) = x ∷ y ∷ []
get_inputs (not_op _ v) = v ∷ []
get_inputs (spread _ v _ _) = v ∷ []
get_inputs (unspread _ _ v _ _ _) = v ∷ []
get_inputs (int_cmp _ _ x y) = x ∷ y ∷ []
get_inputs (truncate _ v _) = v ∷ []
get_inputs (zext _ v _) = v ∷ []
get_inputs (field_arith _ _ x y) = x ∷ y ∷ []
get_inputs (field_neg _ y) = y ∷ []
get_inputs (field_eq _ x y) = x ∷ y ∷ []
get_inputs (field_to_limbs _ y) = y ∷ []
get_inputs (field_from_limbs _ v) = v ∷ []
get_inputs (mk_struct _ _ vs) = vs
get_inputs (extract_field _ v _ _) = v ∷ []
get_inputs (heap_alloc _ _ o) = to_list o
get_inputs (free p) = p ∷ []
get_inputs (load _ p _) = p ∷ []
get_inputs (store p v) = p ∷ v ∷ []
get_inputs (struct_field_ptr _ p _ _) = p ∷ []
get_inputs (array_elem_ptr _ p _ w) = p ∷ w ∷ []
get_inputs (memcpy x y _ o) = x ∷ y ∷ to_list o
get_inputs (select _ p x y) = p ∷ x ∷ y ∷ []
get_inputs (call _ _ vs) = vs
get_inputs (global_addr _ _) = []
get_inputs trap = []

-- `Instruction::get_results`
unfoldable pub get_results : LlOp → List ℕ
get_results (int_arith _ r _ _) = r ∷ []
get_results (not_op r _) = r ∷ []
get_results (spread r _ _ _) = r ∷ []
get_results (unspread r q _ _ _ _) = r ∷ q ∷ []
get_results (int_cmp _ r _ _) = r ∷ []
get_results (truncate r _ _) = r ∷ []
get_results (zext r _ _) = r ∷ []
get_results (field_arith _ r _ _) = r ∷ []
get_results (field_neg r _) = r ∷ []
get_results (field_eq r _ _) = r ∷ []
get_results (field_to_limbs r _) = r ∷ []
get_results (field_from_limbs r _) = r ∷ []
get_results (mk_struct r _ _) = r ∷ []
get_results (extract_field r _ _ _) = r ∷ []
get_results (heap_alloc r _ _) = r ∷ []
get_results (free _) = []
get_results (load r _ _) = r ∷ []
get_results (store _ _) = []
get_results (struct_field_ptr r _ _ _) = r ∷ []
get_results (array_elem_ptr r _ _ _) = r ∷ []
get_results (memcpy _ _ _ _) = []
get_results (select r _ _ _) = r ∷ []
get_results (call rs _ _) = rs
get_results (global_addr r _) = r ∷ []
get_results trap = []

-- `Instruction::get_static_call_targets`
unfoldable pub get_static_call_targets : LlOp → List ℕ
get_static_call_targets (call _ g _) = g ∷ []
get_static_call_targets _ = []
