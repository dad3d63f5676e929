-- ===== src/Ssa/Instruction.antt =====
-- compiler/src/compiler/ssa/traits.rs: what an instruction provides to the functions that are generic
-- in it, and the laws that they rely on. An iterator over mutable references is the loop that puts
-- `f v` in place of every `v`.
use mavros.Prelude.{ℕ, ◌≡◌, List, map}

pub record Instruction (Op : Type 0) : Type 0 where
  pub get_inputs : Op → List ℕ
  pub get_results : Op → List ℕ
  pub map_operands : (ℕ → ℕ) → Op → Op
  pub get_inputs-map_operands :
      (f : ℕ → ℕ) (op : Op) → get_inputs (map_operands f op) ≡ map f (get_inputs op)
  pub get_results-map_operands :
      (f : ℕ → ℕ) (op : Op) → get_results (map_operands f op) ≡ map f (get_results op)
