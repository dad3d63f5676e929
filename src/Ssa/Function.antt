-- ===== src/Ssa/Function.antt =====
-- compiler/src/compiler/ssa/mod.rs: the blocks and functions of the SSA, generic in the instructions
-- and the types. A `BlockId` is a number and a panic is `none`; `next_block` has 64 bits and its
-- increment panics on overflow.
use Prim.Native.String.{String}
use mavros.Prelude.{
  ℕ, suc, ◌+◌, ◌^◌, Bool, true, false, Option, none, some, List, [], ◌∷◌, ◌++◌, map, ltb,
  if◌then◌else◌, length, get_elem?,
}
use mavros.Types.{◌>>=◌}
use mavros.Ssa.Dict.{Dict, get, insert, remove}
use mavros.Ssa.Instruction.{Instruction}

pub data Terminator : Type 0 where
  jmp : ℕ → List ℕ → Terminator
  jmp_if : (condition then_destination else_destination : ℕ) → Terminator
  return_values : List ℕ → Terminator

pub record Block (Op Ty : Type 0) : Type 0 where
  pub parameters : List (ℕ × Ty)
  pub instructions : List Op
  pub terminator : Option Terminator

pub record Function (Op Ty : Type 0) : Type 0 where
  pub entry_block : ℕ
  pub blocks : Dict (Block Op Ty)
  pub name : String
  pub returns : List Ty
  pub next_block : ℕ

module _ {Op Ty : Type 0} where
  abbrev pub empty_block : Block Op Ty
  empty_block = record { parameters = []; instructions = []; terminator = none }

  abbrev pub push_instruction : Op → Block Op Ty → Block Op Ty
  push_instruction op b = record b { instructions = b.instructions ++ op ∷ [] }

  abbrev pub push_parameter : ℕ → Ty → Block Op Ty → Block Op Ty
  push_parameter v t b = record b { parameters = b.parameters ++ (v, t) ∷ [] }

  abbrev pub set_terminator : Terminator → Block Op Ty → Block Op Ty
  set_terminator t b = record b { terminator = some t }

  -- What it took, and the block that stays.
  abbrev pub take_terminator : Block Op Ty → Option Terminator × Block Op Ty
  take_terminator b = (b.terminator, record b { terminator = none })

  abbrev pub take_instructions : Block Op Ty → List Op × Block Op Ty
  take_instructions b = (b.instructions, record b { instructions = [] })

  abbrev pub put_instructions : List Op → Block Op Ty → Block Op Ty
  put_instructions ops b = record b { instructions = ops }

  abbrev pub take_parameters : Block Op Ty → List (ℕ × Ty) × Block Op Ty
  take_parameters b = (b.parameters, record b { parameters = [] })

  abbrev pub put_parameters : List (ℕ × Ty) → Block Op Ty → Block Op Ty
  put_parameters ps b = record b { parameters = ps }

  abbrev pub get_instruction : ℕ → Block Op Ty → Option Op
  get_instruction n b = get_elem? (b.instructions) n

  abbrev pub has_parameters : Block Op Ty → Bool
  has_parameters b = ltb 0 (length (b.parameters))

  unfoldable pub empty : String → Function Op Ty
  empty name = record {
    entry_block = 0;
    blocks = (0, empty_block) ∷ [];
    name = name;
    returns = [];
    next_block = 1;
  }

  abbrev pub get_block : ℕ → Function Op Ty → Option (Block Op Ty)
  get_block b f = get b (f.blocks)

  abbrev pub get_entry : Function Op Ty → Option (Block Op Ty)
  get_entry f = get (f.entry_block) (f.blocks)

  abbrev pub put_block : ℕ → Block Op Ty → Function Op Ty → Function Op Ty
  put_block b block f = record f { blocks = insert b block (f.blocks) }

  unfoldable pub take_block : ℕ → Function Op Ty → Option (Block Op Ty × Function Op Ty)
  take_block b f = do
    block ← get b (f.blocks)
    some (block, record f { blocks = remove b (f.blocks) })

  -- `get_block_mut`, then a write through the reference.
  unfoldable pub update_block :
      ℕ → (Block Op Ty → Block Op Ty) → Function Op Ty → Option (Function Op Ty)
  update_block b change f = do block ← get b (f.blocks); some (put_block b (change block) f)

  -- The identifier, and the function with the counter moved on.
  unfoldable pub next_block_id : Function Op Ty → Option (ℕ × Function Op Ty)
  next_block_id f =
      if ltb (suc (f.next_block)) (2 ^ 64)
      then some (f.next_block, record f { next_block = suc (f.next_block) })
      else none

  unfoldable pub add_block : Function Op Ty → Option (ℕ × Function Op Ty)
  unfolding next_block_id
  add_block f = do (b, g) ← next_block_id f; some (b, put_block b empty_block g)

  unfoldable pub next_virtual_block : Function Op Ty → Option (ℕ × (Block Op Ty × Function Op Ty))
  unfolding next_block_id
  next_virtual_block f = do (b, g) ← next_block_id f; some (b, (empty_block, g))

  unfoldable pub block_is_terminated : ℕ → Function Op Ty → Option Bool
  block_is_terminated b f = do
    block ← get b (f.blocks)
    elim (block.terminator) [ none ↦ some false | some _ ↦ some true ]

  abbrev pub add_return_type : Ty → Function Op Ty → Function Op Ty
  add_return_type t f = record f { returns = f.returns ++ t ∷ [] }

  abbrev pub set_name : String → Function Op Ty → Function Op Ty
  set_name name f = record f { name = name }

  -- What it took, and the function that stays.
  abbrev pub take_blocks : Function Op Ty → Dict (Block Op Ty) × Function Op Ty
  take_blocks f = (f.blocks, record f { blocks = [] })

  abbrev pub put_blocks : Dict (Block Op Ty) → Function Op Ty → Function Op Ty
  put_blocks bs f = record f { blocks = bs }

  abbrev pub take_returns : Function Op Ty → List Ty × Function Op Ty
  take_returns f = (f.returns, record f { returns = [] })

  unfoldable pub get_param_types : Function Op Ty → Option (List Ty)
  get_param_types f = do entry ← get_entry f; some (map (λ p. p.1) (entry.parameters))

  unfoldable pub terminate_block_with_jmp_if :
      (block condition then_destination else_destination : ℕ)
      → Function Op Ty
      → Option (Function Op Ty)
  unfolding update_block
  terminate_block_with_jmp_if b p x y f = update_block b (set_terminator (jmp_if p x y)) f

  unfoldable pub terminate_block_with_return :
      (block : ℕ) → List ℕ → Function Op Ty → Option (Function Op Ty)
  unfolding update_block
  terminate_block_with_return b vs f = update_block b (set_terminator (return_values vs)) f

  unfoldable pub terminate_block_with_jmp :
      (block destination : ℕ) → List ℕ → Function Op Ty → Option (Function Op Ty)
  unfolding update_block
  terminate_block_with_jmp b x vs f = update_block b (set_terminator (jmp x vs)) f

  -- The function without its blocks and return types, then these.
  unfoldable pub prepare_rebuild : Function Op Ty → Function Op Ty × (Dict (Block Op Ty) × List Ty)
  prepare_rebuild f = (record f { blocks = []; returns = [] }, (f.blocks, f.returns))

module _ {Op : Type 0} (instr : Instruction Op) where
  unfoldable pub instructions_size : List Op → ℕ
  instructions_size [] = 0
  instructions_size (op ∷ ops) = length (instr.get_inputs op) + 1 + instructions_size ops

  module _ {Ty : Type 0} where
    unfoldable pub blocks_size : Dict (Block Op Ty) → ℕ
    blocks_size [] = 0
    blocks_size ((_, b) ∷ bs) = instructions_size (b.instructions) + blocks_size bs

    unfoldable pub code_size : Function Op Ty → ℕ
    code_size f = blocks_size (f.blocks)
