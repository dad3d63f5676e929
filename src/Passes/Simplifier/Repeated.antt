-- ===== src/Passes/Simplifier/Repeated.antt =====
-- The rounds of the simplifier (compiler/src/compiler/passes/simplifier.rs) keep every assignment that
-- satisfies a function.
use native.Mathlib.Nat.{mul-le-mul_left}
use mathlib.Core.Option.{some-injective}
use mathlib.Core.Path.{subst}
use mavros.Prelude.{
  ℕ, zero, suc, ◌+◌, ◌*◌, ◌≤◌, ◌≡◌, refl, ap, Bool, Bool-cases, inl, inr, false, Option, some, [],
  arith, none-some,
}
use mavros.Prelude.Field.{Field}
use mavros.Types.{TypeExpr, bind_some}
use mavros.Analysis.ValueDefinitions.{from_function}
use mavros.Ssa.Dict.{Dict}
use mavros.Ssa.Constant.{Constant}
use mavros.Ssa.Op.{OpCode}
use mavros.Ssa.BiMap.{BiMap}
use mavros.Ssa.Function.{Function}
use mavros.Ssa.Meaning.{Scalars, Assignment, IsTyped}
use mavros.Ssa.Meaning.Lists.{BlocksTyped, BlocksDefine}
use mavros.Passes.Replacements.{inputs, apply_to_function, apply_to_blocks}
use mavros.Passes.Simplifier.{Program}
use mavros.Passes.Simplifier.Rounds.{Round, run_blocks, run_function, iterate}
use mavros.Passes.Simplifier.Rules.{ConstsHold}
use mavros.Passes.Simplifier.Adds.{Extends, Extends-trans, HasRoom}
use mavros.Passes.Simplifier.Keeps.{apply_to_blocks-Kept}
use mavros.Passes.Simplifier.Definitions.{from_function-DefinitionsHold}
use mavros.Passes.Simplifier.Steps.{Given}
use mavros.Passes.Simplifier.Typed.{run_function-Typed}
use mavros.Passes.Simplifier.Loops.{
  KeptBlocks, count_instructions, count-apply_to_blocks, run_blocks-Keeps,
}

module _ {F : Field} (S : Scalars F) (env : Assignment F) {bimap : BiMap (Constant F)} where
  -- What rounds give: room for `n` more constants, the constants and functions that were there, no
  -- more instructions than before, and, under what is given and the values of the constants, where
  -- the instructions that define values hold, the same of the new function, all of whose instructions
  -- hold exactly where those of the old one do.
  abbrev pub After : Type 0 → ℕ → (f g : Function OpCode TypeExpr) → (s s1 : Program bimap) → Type 0
  After Given n f g s s1 =
      HasRoom n s1
      × Extends s s1
      × (count_instructions (g.blocks) ≤ count_instructions (f.blocks))
      × (Given
          → ConstsHold env s1
          → BlocksDefine S env (f.blocks)
          → KeptBlocks S env (f.blocks) (g.blocks))

  pub run_function-After :
      (types : Dict TypeExpr) (f g : Function OpCode TypeExpr) (s s1 : Program bimap)
      (changed : Bool) (n : ℕ)
      → HasRoom (count_instructions (f.blocks) + n) s
      → run_function types f s ≡ some (changed, (g, s1))
      → After (IsTyped types env) n f g s s1
  unfolding run_function apply_to_function
  run_function-After types f g s s1 changed n room e =
      let start : Round bimap = record { ssa = s; aliases = []; changed = false } in
      let (p, e1, k1) = bind_some (run_blocks (from_function f) types (f.blocks) start) _ _ e in
      let (h, e2, k2) =
        bind_some (apply_to_function inputs (p.1.aliases) (record f { blocks = p.0 })) _ _ k1 in
      let (bs, e3, k3) = bind_some (apply_to_blocks inputs (p.1.aliases) (p.0)) _ _ e2 in
      let ((room1, extends, keep), small) =
        run_blocks-Keeps S env (from_function f) types (f.blocks) n start (p.1) (p.0) room e1 in
      subst
        (λ (x : Function OpCode TypeExpr × Program bimap).
          After (IsTyped types env) n f (x.0) s (x.1))
        (ap (λ x. x.1) (some-injective _ _ k2))
        (subst (λ (x : Function OpCode TypeExpr). After (IsTyped types env) n f x s (p.1.ssa))
          (some-injective _ _ k3)
          (
            room1,
            extends,
            omega (arith, small, count-apply_to_blocks (p.1.aliases) (p.0) bs e3),
            λ typed consts define.
                let given : Given S env (from_function f) types =
                  (from_function-DefinitionsHold S env f define, typed) in
                let ((same, defined), aliases) =
                  keep given consts (λ v w k. absurd (none-some k)) define in
                let (replaced, still) =
                  apply_to_blocks-Kept S env (p.1.aliases) aliases (p.0) bs e3 in
                ((λ h. same.0 (replaced.0 h), λ h. replaced.1 (same.1 h)), still defined),
          ))

  module _ (infer : Function OpCode TypeExpr → Program bimap → Option (Dict TypeExpr)) where
    -- The types that the inference finds for a function are types of the assignment's values, where
    -- these are the values of the program's constants, have the types of the function's parameters,
    -- and satisfy its instructions that define values.
    abbrev pub InfersTypes : Type 0
    InfersTypes =
        (f : Function OpCode TypeExpr) (s : Program bimap) (types : Dict TypeExpr)
        → infer f s ≡ some types
        → ConstsHold env s
        → BlocksTyped env (f.blocks)
        → BlocksDefine S env (f.blocks)
        → IsTyped types env

    -- With identifiers for `n` more constants left over, as `After` for one round.
    pub iterate-After :
        (max_iterations n : ℕ) (f g : Function OpCode TypeExpr) (s s1 : Program bimap)
        → HasRoom (max_iterations * count_instructions (f.blocks) + n) s
        → InfersTypes
        → iterate infer max_iterations f s ≡ some (g, s1)
        → After (BlocksTyped env (f.blocks)) n f g s s1
    unfolding iterate
    iterate-After zero n f g s s1 (wf, room) sound e =
        subst
          (λ (x : Function OpCode TypeExpr × Program bimap).
            After (BlocksTyped env (f.blocks)) n f (x.0) s (x.1))
          (some-injective _ _ e)
          (
            (wf, omega (arith, room)),
            (λ v c k. k, refl, refl),
            omega arith,
            λ u consts h. ((λ x. x, λ x. x), h),
          )
    iterate-After (suc m) n f g s s1 (wf, room) sound e =
        let (types, e1, k1) = bind_some (infer f s) _ _ e in
        let (p, e2, k2) = bind_some (run_function types f s) _ _ k1 in
        let ((wf1, free), extends, small, keep) =
          run_function-After types f (p.1.0) s (p.1.1) (p.0) (m * count_instructions (f.blocks) + n)
            (wf, omega (arith, room)) e2 in
        elim (Bool-cases (p.0)) [
          | inl t ↦
              let fewer = mul-le-mul_left m small in
              let (left, more, smaller, kept) =
                iterate-After m n (p.1.0) g (p.1.1) s1 (wf1, omega (arith, free, fewer)) sound
                  (rw t at k2) in
              (
                left,
                Extends-trans s (p.1.1) s1 extends more,
                omega (arith, small, smaller),
                λ u consts h.
                    let now : ConstsHold env (p.1.1) = λ v c k. consts v c (more.0 v c k) in
                    let before : ConstsHold env s = λ v c k. now v c (extends.0 v c k) in
                    let (same, define) = keep (sound f s types e1 before u h) now h in
                    let (later, defined) =
                      kept (run_function-Typed env types f (p.1.0) s (p.1.1) (p.0) e2 u) consts
                        define in
                    ((λ x. same.0 (later.0 x), λ x. later.1 (same.1 x)), defined),
              )
          | inr t ↦
              subst
                (λ (x : Function OpCode TypeExpr × Program bimap).
                  After (BlocksTyped env (f.blocks)) n f (x.0) s (x.1))
                (some-injective _ _ (rw t at k2))
                (
                  (wf1, omega (arith, free)),
                  extends,
                  small,
                  λ u consts h.
                      keep (sound f s types e1 (λ v c k. consts v c (extends.0 v c k)) u h) consts
                        h,
                )
        ]
