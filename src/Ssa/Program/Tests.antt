-- ===== src/Ssa/Program/Tests.antt =====
-- A program of two functions.
use mathlib.Core.Path.{subst}
use mathlib.Core.List.{Memᴰ}
use mavros.Prelude.{
  ℕ, ◌<◌, ◌≤◌, ◌≡◌, refl, sym, ◌⊎◌, inl, true, Option, none, some, [], ◌∷◌, arith, ◌==◌,
  if◌then◌else◌, length, map, ◌+◌, ◌^◌,
}
use mavros.Types.{TypeExpr, field}
use mavros.Range.Transfer.{add_op}
use mavros.Ssa.Op.{OpCode, binary_arith_op, guard}
use mavros.Ssa.Op.Traverse.{op_code_instruction}
use mavros.Ssa.Function.{Function, empty, return_values}
use mavros.Ssa.BiMap.Log.{log, numbers, right_of, left_of, without}
use mavros.Ssa.Program.{
  Ssa, with_main, get_function, take_function, get_const, is_const, add_const, fresh_value,
  insert_function,
}
use mavros.Ssa.Program.Constants.{IsWf, get_const-add_const, add_const_injective}
use mavros.Ssa.Program.Duplicate.{
  duplicate_function, all_ids, instruction_values, terminator_values, parameter_values, map_blocks,
  map_block, map_parameters, map_terminator, allocate, allocate_one, replacement,
}
use mavros.Ssa.Op.Inputs.{get_inputs}
use mavros.Ssa.Op.Results.{get_results}
use mavros.Ssa.Op.Mutate.{map_operands}
use mavros.Ssa.Program.Duplicate.Copy.{renaming, renamed, renamed_fresh, renaming_injective}
use mavros.Ssa.Program.Duplicate.Apart.{duplicate_function_apart}
use mavros.Ssa.Program.Operations.{const_added, minted, inserted, taken, Step-IsWf}
use mavros.Ssa.Program.Steps.{Steps, done, then_step, then_put, PutsBack, with_main-Steps-IsWf}

abbrev HlSsa : Type 0
HlSsa = Ssa OpCode TypeExpr (log numbers)

abbrev start : HlSsa
start = with_main "main"

abbrev main : Function OpCode TypeExpr
main = empty "main"

-- After the constant 7 and one value.
abbrev grown : HlSsa
grown = (fresh_value ((add_const 7 start).1)).1

-- `main` taken out and put back, the constant 7 and one value.
unfoldable growth : Steps start grown
unfolding with_main fresh_value add_const right_of take_function
growth =
    then_step
      (then_step (then_put (then_step (done start) (taken 0 main refl)) 0 main)
        (const_added 7 start (omega arith)))
      (minted ((add_const 7 start).1) (omega arith))

grown_back : PutsBack growth
unfolding growth with_main fresh_value add_const right_of take_function
grown_back = (tt, inl (main, refl))

abbrev body : Function OpCode TypeExpr
body = record {
  entry_block = 0;
  blocks =
      (
        0,
        record {
          parameters = (1, field) ∷ [];
          instructions = guard 1 (binary_arith_op add_op 2 1 0) ∷ [];
          terminator = some (return_values (2 ∷ []));
        },
      )
      ∷ [];
  name = "body";
  returns = field ∷ [];
  next_block = 1;
}

abbrev with_body : Option (ℕ × HlSsa)
with_body = insert_function body grown

abbrev program : HlSsa
program = elim with_body [ none ↦ grown | some (_, s) ↦ s ]

inserted_body : insert_function body grown ≡ some (1, program)
unfolding insert_function with_main fresh_value add_const right_of
inserted_body = refl

get_const-add_const_example :
    get_const 2 ((add_const 9 program).1)
    ≡ (if 2 == (add_const 9 program).0 then some 9 else get_const 2 program)
get_const-add_const_example = get_const-add_const 9 program 2

program-IsWf : IsWf program
unfolding insert_function with_main fresh_value add_const right_of
program-IsWf =
    Step-IsWf (inserted body 1 inserted_body) (with_main-Steps-IsWf "main" growth grown_back)

abbrev seven : ℕ
seven = 7

add_const_injective_example : seven ≡ seven
unfolding insert_function with_main fresh_value add_const right_of
add_const_injective_example = add_const_injective 7 7 program program-IsWf (omega arith) refl

room : program.next_value_id + length (all_ids op_code_instruction (body.blocks)) < 2 ^ 64
unfolding insert_function with_main fresh_value add_const right_of all_ids instruction_values
    terminator_values parameter_values get_inputs get_results
room = omega arith

body_there : get_function 1 program ≡ some body
unfolding insert_function with_main fresh_value add_const right_of
body_there = refl

duplicate_function_apart_example :
    (t : HlSsa) × (m : ℕ) × (g : Function OpCode TypeExpr) × (duplicate_function op_code_instruction
        1 program
      ≡ some (m, t))
    × (get_function m program ≡ none)
    × (get_function m t ≡ some g)
    × (all_ids op_code_instruction (g.blocks)
        ≡ map
            (renaming op_code_instruction body program)
            (all_ids op_code_instruction (body.blocks)))
    × (get_function 0 t ≡ some main)
    × (t.constants ≡ program.constants)
unfolding insert_function with_main fresh_value add_const right_of
duplicate_function_apart_example =
    duplicate_function_apart op_code_instruction 1 0 body main program program-IsWf body_there
      (omega arith) room refl

-- The copy has the values 2 and 3 in place of 1 and 2, and the constant 0.
copied :
    all_ids op_code_instruction ((renamed op_code_instruction body program).blocks)
    ≡ 2 ∷ 2 ∷ 2 ∷ 0 ∷ 3 ∷ 3 ∷ []
unfolding insert_function with_main fresh_value add_const right_of all_ids instruction_values
    terminator_values parameter_values get_inputs get_results map_blocks map_block map_parameters
    map_terminator map_operands allocate allocate_one is_const left_of without replacement
copied = refl

renamed_fresh_example : (is_const 3 program ≡ true) ⊎ (program.next_value_id ≤ 3)
renamed_fresh_example = renamed_fresh op_code_instruction body program room 3 (
    subst (λ vs. Memᴰ 3 vs) (sym copied)
      (Memᴰ.tail (Memᴰ.tail (Memᴰ.tail (Memᴰ.tail (Memᴰ.head refl))))))

read : all_ids op_code_instruction (body.blocks) ≡ 1 ∷ 1 ∷ 1 ∷ 0 ∷ 2 ∷ 2 ∷ []
unfolding all_ids instruction_values terminator_values parameter_values get_inputs get_results
read = refl

first_read : Memᴰ 1 (all_ids op_code_instruction (body.blocks))
first_read = subst (λ vs. Memᴰ 1 vs) (sym read) (Memᴰ.head refl)

abbrev one : ℕ
one = 1

renaming_injective_example : one ≡ one
renaming_injective_example =
    renaming_injective op_code_instruction body program room program-IsWf 1 1 first_read first_read
      refl
