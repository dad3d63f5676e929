-- ===== src/Passes/DeduplicatePhis/Tests.antt =====
-- Two blocks that jump to a third with the value 7.
use mavros.Prelude.{ℕ, ◌≡◌, refl, Option, some, [], ◌∷◌, arith}
use mavros.Types.{TypeExpr, field}
use mavros.Ssa.Op.{OpCode}
use mavros.Ssa.Dict.{Dict}
use mavros.Ssa.Function.{
  Block, Function, Terminator, jmp, jmp_if, return_values, get_block, add_block, next_block_id,
  terminate_block_with_jmp, update_block,
}
use mavros.Passes.DeduplicatePhis.{
  deduplicate_function, collect, collect_one, push_entry, ids_eq, unify_all, unify, redirect,
}
use mavros.Passes.DeduplicatePhis.Forward.{UniqueKeys, BlocksBelow, Keeps}
use mavros.Passes.DeduplicatePhis.Refine.{deduplicate_function_total, deduplicate_function-Keeps}

abbrev jumping : ℕ → Option Terminator → Dict (Block OpCode TypeExpr)
jumping n t = (n, record { parameters = []; instructions = []; terminator = t }) ∷ []

abbrev diamond : Function OpCode TypeExpr
diamond = record {
  entry_block = 0;
  blocks =
      (
        0,
        record {
          parameters = (5, field) ∷ [];
          instructions = [];
          terminator = some (jmp_if 5 1 2);
        },
      )
      ∷ (1, record { parameters = []; instructions = []; terminator = some (jmp 3 (7 ∷ [])) })
      ∷ (2, record { parameters = []; instructions = []; terminator = some (jmp 3 (7 ∷ [])) })
      ∷ (
        3,
        record {
          parameters = (6, field) ∷ [];
          instructions = [];
          terminator = some (return_values (6 ∷ []));
        },
      )
      ∷ [];
  name = "diamond";
  returns = field ∷ [];
  next_block = 4;
}

abbrev joined : Function OpCode TypeExpr
joined = record diamond {
  blocks =
      (
        0,
        record {
          parameters = (5, field) ∷ [];
          instructions = [];
          terminator = some (jmp_if 5 1 2);
        },
      )
      ∷ (1, record { parameters = []; instructions = []; terminator = some (jmp 4 []) })
      ∷ (2, record { parameters = []; instructions = []; terminator = some (jmp 4 []) })
      ∷ (
        3,
        record {
          parameters = (6, field) ∷ [];
          instructions = [];
          terminator = some (return_values (6 ∷ []));
        },
      )
      ∷ (4, record { parameters = []; instructions = []; terminator = some (jmp 3 (7 ∷ [])) })
      ∷ [];
  next_block = 5;
}

diamond-BlocksBelow : BlocksBelow diamond
diamond-BlocksBelow b block e = ground (arith, e)

diamond_keys : UniqueKeys (diamond.blocks)
diamond_keys = (refl, (refl, (refl, (refl, tt))))

deduplicate_function_total_example :
    (g : Function OpCode TypeExpr) × (deduplicate_function diamond ≡ some g) × (g.entry_block ≡ 0)
deduplicate_function_total_example =
    deduplicate_function_total diamond diamond_keys diamond-BlocksBelow (omega arith)

deduplicate_function-Keeps_example :
    (new : Block OpCode TypeExpr) × (get_block 1 joined ≡ some new)
    × Keeps 4 joined
        (record { parameters = []; instructions = []; terminator = some (jmp 3 (7 ∷ [])) })
        new
unfolding deduplicate_function collect collect_one push_entry ids_eq unify_all unify redirect
    add_block next_block_id terminate_block_with_jmp update_block
deduplicate_function-Keeps_example =
    deduplicate_function-Keeps diamond joined diamond_keys diamond-BlocksBelow (omega arith) refl 1
      (record { parameters = []; instructions = []; terminator = some (jmp 3 (7 ∷ [])) }) refl
