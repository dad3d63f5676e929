-- ===== src/Passes/Simplifier/Tests.antt =====
-- A program whose function loses two instructions, with an assignment that satisfies it, and one at
-- which the pass panics.
use mavros.Prelude.{some, List, [], ◌∷◌, arith}
use mavros.Types.{TypeExpr, u}
use mavros.Range.Transfer.{sub_op, add_op, and_op, shr_op}
use mavros.Ssa.Dict.{Dict}
use mavros.Ssa.Constant.{Constant, u_const}
use mavros.Ssa.Op.{OpCode, eq, binary_arith_op, bit_range, assert_cmp}
use mavros.Ssa.BiMap.Log.{log, right_of}
use mavros.Ssa.Function.{Function, return_values}
use mavros.Ssa.Program.{with_main, add_const, fresh_value, put_function}
use mavros.Ssa.Meaning.Instance.{constants, same_const}
use mavros.Passes.Simplifier.{Program}
use mavros.Ssa.Program.Operations.{minted, const_added}
use mavros.Ssa.Program.Steps.{Steps, done, then_step}

abbrev HlSsa : Type 0
HlSsa = Program (log constants)

-- The values 0 and 1 are the constants 0 and 4.
abbrev constants_only : HlSsa
constants_only = (add_const (u_const 8 4) ((add_const (u_const 8 0) (with_main "main")).1)).1

abbrev with_ops : List OpCode → Function OpCode TypeExpr
with_ops ops = record {
  entry_block = 0;
  blocks =
      (
        0,
        record {
          parameters = (2, u 8) ∷ [];
          instructions = ops;
          terminator = some (return_values (5 ∷ []));
        },
      )
      ∷ [];
  name = "main";
  returns = u 8 ∷ [];
  next_block = 1;
}

-- v3 is v2 + 0, v4 is v2 & v3, and v5 is v4 >> 4, so that v4 is v2 only in the second round.
abbrev body : Function OpCode TypeExpr
body = with_ops (
    binary_arith_op add_op 3 2 0
    ∷ binary_arith_op and_op 4 2 3
    ∷ binary_arith_op shr_op 5 4 1
    ∷ assert_cmp eq 3 4
    ∷ [])

abbrev program : HlSsa
program = put_function 0 body constants_only

abbrev simplified : HlSsa
simplified = put_function 0 (with_ops (bit_range 5 2 4 4 ∷ assert_cmp eq 2 2 ∷ [])) constants_only

unfoldable made : Steps (with_main "main") constants_only
unfolding with_main add_const fresh_value right_of same_const
made =
    then_step
      (then_step (done (with_main "main"))
        (const_added (u_const 8 0) (with_main "main") (omega arith)))
      (const_added (u_const 8 4) ((add_const (u_const 8 0) (with_main "main")).1) (omega arith))

-- v1 is the parameter, v2 is v1 - v1, v3 is v2 >> v0, where v0 is the only constant.
abbrev minted_values : HlSsa
minted_values =
    (fresh_value (fresh_value (fresh_value ((add_const (u_const 8 1) (with_main "main")).1)).1).1).1

abbrev shifted : Function OpCode TypeExpr
shifted = record {
  entry_block = 0;
  blocks =
      (
        0,
        record {
          parameters = (1, u 8) ∷ [];
          instructions = binary_arith_op sub_op 2 1 1 ∷ binary_arith_op shr_op 3 2 0 ∷ [];
          terminator = some (return_values (3 ∷ []));
        },
      )
      ∷ [];
  name = "main";
  returns = u 8 ∷ [];
  next_block = 1;
}

abbrev four_bytes : Dict TypeExpr
four_bytes = (0, u 8) ∷ (1, u 8) ∷ (2, u 8) ∷ (3, u 8) ∷ []

unfoldable minted_steps : Steps (with_main "main") minted_values
unfolding with_main add_const fresh_value right_of same_const
minted_steps =
    let s : HlSsa = (add_const (u_const 8 1) (with_main "main")).1 in
    let s1 : HlSsa = (fresh_value s).1 in
    let s2 : HlSsa = (fresh_value s1).1 in
    then_step
      (then_step
        (then_step
          (then_step (done (with_main "main"))
            (const_added (u_const 8 1) (with_main "main") (omega arith)))
          (minted s (omega arith)))
        (minted s1 (omega arith)))
      (minted s2 (omega arith))
