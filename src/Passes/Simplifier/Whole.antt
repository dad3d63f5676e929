-- ===== src/Passes/Simplifier/Whole.antt =====
-- `Simplifier::do_run` (compiler/src/compiler/passes/simplifier.rs) keeps every assignment that satisfies
-- the functions of a program.
use mavros.Prelude.{◌↔◌, ℕ, ◌≤◌, ◌≡◌, Option, some}
use mavros.Prelude.Field.{Field}
use mavros.Types.{TypeExpr}
use mavros.Ssa.Dict.{Dict}
use mavros.Ssa.Constant.{Constant}
use mavros.Ssa.Op.{OpCode}
use mavros.Ssa.BiMap.{BiMap}
use mavros.Ssa.Function.{Function}
use mavros.Ssa.Program.{get_const, get_function}
use mavros.Ssa.Meaning.{Scalars, Assignment}
use mavros.Ssa.Meaning.Lists.{BlocksTyped, BlocksDefine, BlocksHold}
use mavros.Passes.Simplifier.{Program}
use mavros.Passes.Simplifier.Rules.{ConstsHold}
use mavros.Passes.Simplifier.Loops.{count_instructions}

module _ {F : Field} {bimap : BiMap (Constant F)} where
  -- No function has more than `k` instructions.
  abbrev pub AllShort : ℕ → Program bimap → Type 0
  AllShort k s =
      (n : ℕ) (f : Function OpCode TypeExpr)
      → get_function n s ≡ some f
      → count_instructions (f.blocks) ≤ k

module _ {F : Field} (env : Assignment F) {bimap : BiMap (Constant F)} where
  -- The parameters of every function have their types.
  abbrev pub FunctionsTyped : Program bimap → Type 0
  FunctionsTyped s =
      (n : ℕ) (f : Function OpCode TypeExpr)
      → get_function n s ≡ some f
      → BlocksTyped env (f.blocks)

module _ {F : Field} (S : Scalars F) (env : Assignment F) {bimap : BiMap (Constant F)} where
  -- Every instruction of every function holds.
  abbrev pub FunctionsHold : Program bimap → Type 0
  FunctionsHold s =
      (n : ℕ) (f : Function OpCode TypeExpr)
      → get_function n s ≡ some f
      → BlocksHold S env (f.blocks)

  -- Every instruction that defines a value holds.
  abbrev pub FunctionsDefine : Program bimap → Type 0
  FunctionsDefine s =
      (n : ℕ) (f : Function OpCode TypeExpr)
      → get_function n s ≡ some f
      → BlocksDefine S env (f.blocks)

  -- From a program to a later one: the constants stay, and under the later constants, where the
  -- instructions that define values hold, they do so later, and all instructions hold later exactly
  -- where they do now.
  abbrev Kept : Program bimap → Program bimap → Type 0
  Kept s s1 =
      ((v : ℕ) (c : Constant F) → get_const v s ≡ some c → get_const v s1 ≡ some c)
      × (ConstsHold env s1
          → FunctionsDefine s
          → (FunctionsHold s1 ↔ FunctionsHold s) × FunctionsDefine s1)
