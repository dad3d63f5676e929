-- ===== src/Ssa/Program.antt =====
-- compiler/src/compiler/ssa/mod.rs: `SSA`, the functions, the globals and the table of constants of a
-- program. `next_value_id` is atomic and wraps; `next_function_id += 1` panics on overflow, which is
-- `none`. The lock around the table is not modelled: an operation takes the state it finds.
pub mod Duplicate
pub mod Constants
pub mod Operations
pub mod Steps
mod Tests
use Prim.Native.String.{String}
use mavros.Prelude.{
  ℕ, suc, ◌+◌, ◌%◌, ◌^◌, Bool, true, false, Option, none, some, List, [], ◌∷◌, ltb, if◌then◌else◌,
  length,
}
use mavros.Types.{◌>>=◌}
use mavros.Ssa.Dict.{Dict, get, insert, remove, retain}
use mavros.Ssa.Function.{Function, empty}
use mavros.Ssa.BiMap.{BiMap}

pub record Ssa (Op Ty : Type 0) {C : Type 0} (bimap : BiMap C) : Type 0 where
  pub functions : Dict (Function Op Ty)
  pub global_types : List Ty
  pub globals_init_fn : Option ℕ
  pub globals_deinit_fn : Option ℕ
  pub main_id : ℕ
  pub next_function_id : ℕ
  pub next_value_id : ℕ
  pub constants : bimap.Table

module _ {Op Ty C : Type 0} {bimap : BiMap C} where
  unfoldable pub with_main : String → Ssa Op Ty bimap
  unfolding empty
  with_main name = record {
    functions = (0, empty name) ∷ [];
    global_types = [];
    globals_init_fn = none;
    globals_deinit_fn = none;
    main_id = 0;
    next_function_id = 1;
    next_value_id = 0;
    constants = bimap.empty;
  }

  abbrev pub get_function : ℕ → Ssa Op Ty bimap → Option (Function Op Ty)
  get_function n s = get n (s.functions)

  abbrev pub get_main : Ssa Op Ty bimap → Option (Function Op Ty)
  get_main s = get (s.main_id) (s.functions)

  unfoldable pub insert_function : Function Op Ty → Ssa Op Ty bimap → Option (ℕ × Ssa Op Ty bimap)
  insert_function f s =
      if ltb (suc (s.next_function_id)) (2 ^ 64)
      then some (
        s.next_function_id,
        record s {
          functions = insert (s.next_function_id) f (s.functions);
          next_function_id = suc (s.next_function_id);
        },
      )
      else none

  abbrev pub add_function : String → Ssa Op Ty bimap → Option (ℕ × Ssa Op Ty bimap)
  add_function name s = insert_function (empty name) s

  -- What stood there, and the program without it.
  abbrev pub delete_function : ℕ → Ssa Op Ty bimap → Option (Function Op Ty) × Ssa Op Ty bimap
  delete_function n s = (get n (s.functions), record s { functions = remove n (s.functions) })

  abbrev pub put_function : ℕ → Function Op Ty → Ssa Op Ty bimap → Ssa Op Ty bimap
  put_function n f s = record s { functions = insert n f (s.functions) }

  unfoldable pub take_function : ℕ → Ssa Op Ty bimap → Option (Function Op Ty × Ssa Op Ty bimap)
  take_function n s = do
    f ← get n (s.functions)
    some (f, record s { functions = remove n (s.functions) })

  abbrev pub retain_functions : (ℕ → Function Op Ty → Bool) → Ssa Op Ty bimap → Ssa Op Ty bimap
  retain_functions keep s = record s { functions = retain keep (s.functions) }

  abbrev pub set_entry_point : ℕ → Ssa Op Ty bimap → Ssa Op Ty bimap
  set_entry_point n s = record s { main_id = n }

  -- The program without its functions and global types, then these.
  abbrev pub prepare_rebuild : Ssa Op Ty bimap → Ssa Op Ty bimap × (Dict (Function Op Ty) × List Ty)
  prepare_rebuild s =
      (record s { functions = []; global_types = [] }, (s.functions, s.global_types))

  abbrev pub set_global_types : List Ty → Ssa Op Ty bimap → Ssa Op Ty bimap
  set_global_types ts s = record s { global_types = ts }

  abbrev pub set_globals_init_fn : ℕ → Ssa Op Ty bimap → Ssa Op Ty bimap
  set_globals_init_fn n s = record s { globals_init_fn = some n }

  abbrev pub set_globals_deinit_fn : ℕ → Ssa Op Ty bimap → Ssa Op Ty bimap
  set_globals_deinit_fn n s = record s { globals_deinit_fn = some n }

  abbrev pub num_globals : Ssa Op Ty bimap → ℕ
  num_globals s = length (s.global_types)

  -- `fetch_add`, which gives the old value.
  unfoldable pub fresh_value : Ssa Op Ty bimap → ℕ × Ssa Op Ty bimap
  fresh_value s = (s.next_value_id, record s { next_value_id = suc (s.next_value_id) % 2 ^ 64 })

  abbrev pub get_const : ℕ → Ssa Op Ty bimap → Option C
  get_const v s = bimap.get_by_left v (s.constants)

  unfoldable pub is_const : ℕ → Ssa Op Ty bimap → Bool
  is_const v s = elim (get_const v s) [ none ↦ false | some _ ↦ true ]

  -- Both looks at the table find the same, since no other writer comes between them.
  unfoldable pub add_const : C → Ssa Op Ty bimap → ℕ × Ssa Op Ty bimap
  unfolding fresh_value
  add_const c s = elim (bimap.get_by_right c (s.constants)) [
    | some v ↦ (v, s)
    | none ↦
        let fresh = fresh_value s in
        (fresh.0, record (fresh.1) { constants = bimap.insert (fresh.0) c (s.constants) })
  ]

  unfoldable pub remove_const_by_id : ℕ → Ssa Op Ty bimap → Option (C × Ssa Op Ty bimap)
  remove_const_by_id v s = do
    c ← get_const v s
    some (c, record s { constants = bimap.remove_by_left v (s.constants) })

  abbrev pub retain_constants : (ℕ → C → Bool) → Ssa Op Ty bimap → Ssa Op Ty bimap
  retain_constants keep s = record s { constants = bimap.retain keep (s.constants) }
