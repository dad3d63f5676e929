-- ===== src/Llssa/Op/Traverse.antt =====
-- The low-level instructions are instructions of a program of compiler/src/compiler/ssa/mod.rs.
use mavros.Prelude.{ℕ, ◌≡◌, refl, ap, map, Option, none, some, ◌∷◌}
use mavros.Ssa.Instruction.{Instruction}
use mavros.Llssa.Op.{
  LlOp, int_arith, not_op, spread, unspread, int_cmp, truncate, zext, field_arith, field_neg,
  field_eq, field_to_limbs, field_from_limbs, mk_struct, extract_field, heap_alloc, free, load,
  store, struct_field_ptr, array_elem_ptr, memcpy, select, call, global_addr, trap,
}
use mavros.Llssa.Op.Inputs.{to_list, get_inputs, get_results}
use mavros.Llssa.Op.Mutate.{map_option, map_results, map_inputs, map_operands}

to_list-map_option : (f : ℕ → ℕ) (o : Option ℕ) → to_list (map_option f o) ≡ map f (to_list o)
unfolding to_list map_option
to_list-map_option f none = refl
to_list-map_option f (some _) = refl

-- The loop over all operands of a low-level instruction is the one over its results and then the one
-- over its inputs.
pub map_operands_lem : (f : ℕ → ℕ) (op : LlOp) → map_operands f op ≡ map_inputs f (map_results f op)
unfolding map_operands map_inputs map_results
map_operands_lem f (int_arith _ _ _ _) = refl
map_operands_lem f (not_op _ _) = refl
map_operands_lem f (spread _ _ _ _) = refl
map_operands_lem f (unspread _ _ _ _ _ _) = refl
map_operands_lem f (int_cmp _ _ _ _) = refl
map_operands_lem f (truncate _ _ _) = refl
map_operands_lem f (zext _ _ _) = refl
map_operands_lem f (field_arith _ _ _ _) = refl
map_operands_lem f (field_neg _ _) = refl
map_operands_lem f (field_eq _ _ _) = refl
map_operands_lem f (field_to_limbs _ _) = refl
map_operands_lem f (field_from_limbs _ _) = refl
map_operands_lem f (mk_struct _ _ _) = refl
map_operands_lem f (extract_field _ _ _ _) = refl
map_operands_lem f (heap_alloc _ _ _) = refl
map_operands_lem f (free _) = refl
map_operands_lem f (load _ _ _) = refl
map_operands_lem f (store _ _) = refl
map_operands_lem f (struct_field_ptr _ _ _ _) = refl
map_operands_lem f (array_elem_ptr _ _ _ _) = refl
map_operands_lem f (memcpy _ _ _ _) = refl
map_operands_lem f (select _ _ _ _) = refl
map_operands_lem f (call _ _ _) = refl
map_operands_lem f (global_addr _ _) = refl
map_operands_lem f trap = refl

pub get_inputs-map_operands :
    (f : ℕ → ℕ) (op : LlOp) → get_inputs (map_operands f op) ≡ map f (get_inputs op)
unfolding get_inputs map_operands
get_inputs-map_operands f (int_arith _ _ _ _) = refl
get_inputs-map_operands f (not_op _ _) = refl
get_inputs-map_operands f (spread _ _ _ _) = refl
get_inputs-map_operands f (unspread _ _ _ _ _ _) = refl
get_inputs-map_operands f (int_cmp _ _ _ _) = refl
get_inputs-map_operands f (truncate _ _ _) = refl
get_inputs-map_operands f (zext _ _ _) = refl
get_inputs-map_operands f (field_arith _ _ _ _) = refl
get_inputs-map_operands f (field_neg _ _) = refl
get_inputs-map_operands f (field_eq _ _ _) = refl
get_inputs-map_operands f (field_to_limbs _ _) = refl
get_inputs-map_operands f (field_from_limbs _ _) = refl
get_inputs-map_operands f (mk_struct _ _ _) = refl
get_inputs-map_operands f (extract_field _ _ _ _) = refl
get_inputs-map_operands f (heap_alloc _ _ o) = to_list-map_option f o
get_inputs-map_operands f (free _) = refl
get_inputs-map_operands f (load _ _ _) = refl
get_inputs-map_operands f (store _ _) = refl
get_inputs-map_operands f (struct_field_ptr _ _ _ _) = refl
get_inputs-map_operands f (array_elem_ptr _ _ _ _) = refl
get_inputs-map_operands f (memcpy x y _ o) = ap (λ vs. f x ∷ (f y ∷ vs)) (to_list-map_option f o)
get_inputs-map_operands f (select _ _ _ _) = refl
get_inputs-map_operands f (call _ _ _) = refl
get_inputs-map_operands f (global_addr _ _) = refl
get_inputs-map_operands f trap = refl

pub get_results-map_operands :
    (f : ℕ → ℕ) (op : LlOp) → get_results (map_operands f op) ≡ map f (get_results op)
unfolding get_results map_operands
get_results-map_operands f (int_arith _ _ _ _) = refl
get_results-map_operands f (not_op _ _) = refl
get_results-map_operands f (spread _ _ _ _) = refl
get_results-map_operands f (unspread _ _ _ _ _ _) = refl
get_results-map_operands f (int_cmp _ _ _ _) = refl
get_results-map_operands f (truncate _ _ _) = refl
get_results-map_operands f (zext _ _ _) = refl
get_results-map_operands f (field_arith _ _ _ _) = refl
get_results-map_operands f (field_neg _ _) = refl
get_results-map_operands f (field_eq _ _ _) = refl
get_results-map_operands f (field_to_limbs _ _) = refl
get_results-map_operands f (field_from_limbs _ _) = refl
get_results-map_operands f (mk_struct _ _ _) = refl
get_results-map_operands f (extract_field _ _ _ _) = refl
get_results-map_operands f (heap_alloc _ _ _) = refl
get_results-map_operands f (free _) = refl
get_results-map_operands f (load _ _ _) = refl
get_results-map_operands f (store _ _) = refl
get_results-map_operands f (struct_field_ptr _ _ _ _) = refl
get_results-map_operands f (array_elem_ptr _ _ _ _) = refl
get_results-map_operands f (memcpy _ _ _ _) = refl
get_results-map_operands f (select _ _ _ _) = refl
get_results-map_operands f (call _ _ _) = refl
get_results-map_operands f (global_addr _ _) = refl
get_results-map_operands f trap = refl

-- `impl Instruction for LLOp`
abbrev pub ll_op_instruction : Instruction LlOp
ll_op_instruction = record {
  get_inputs = get_inputs;
  get_results = get_results;
  map_operands = map_operands;
  get_inputs-map_operands = get_inputs-map_operands;
  get_results-map_operands = get_results-map_operands;
}
