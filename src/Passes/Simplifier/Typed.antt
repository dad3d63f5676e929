-- ===== src/Passes/Simplifier/Typed.antt =====
-- The simplifier (compiler/src/compiler/passes/simplifier.rs) leaves the parameters of the blocks alone.
use mathlib.Core.Option.{some-injective}
use mathlib.Core.Path.{subst}
use mavros.Prelude.{
  ℕ, zero, suc, ◌≡◌, ◌∙◌, ap, Bool, false, Bool-cases, inl, inr, Option, some, [], ◌∷◌,
}
use mavros.Prelude.Field.{Field}
use mavros.Types.{TypeExpr, bind_some}
use mavros.Analysis.ValueDefinitions.{FunctionValueDefinitions, from_function}
use mavros.Ssa.Dict.{Dict}
use mavros.Ssa.Constant.{Constant}
use mavros.Ssa.Op.{OpCode}
use mavros.Ssa.BiMap.{BiMap}
use mavros.Ssa.Function.{Block, Function}
use mavros.Ssa.Meaning.{Assignment}
use mavros.Ssa.Meaning.Lists.{ParametersTyped, BlocksTyped}
use mavros.Passes.Replacements.{
  ValueReplacements, replace_in, replace_terminator, apply_to_block, inputs, apply_to_blocks,
  apply_to_function,
}
use mavros.Passes.Simplifier.{Program}
use mavros.Passes.Simplifier.Rounds.{Round, run_instructions, run_blocks, run_function, iterate}

module _ {F : Field} (env : Assignment F) where
  apply_to_blocks-Typed :
      (r : ValueReplacements) (bs new : Dict (Block OpCode TypeExpr))
      → apply_to_blocks inputs r bs ≡ some new
      → BlocksTyped env bs
      → BlocksTyped env new
  unfolding apply_to_blocks apply_to_block BlocksTyped
  apply_to_blocks-Typed r [] new e h = subst (BlocksTyped env) (some-injective _ _ e) tt
  apply_to_blocks-Typed r ((n, b) ∷ bs) new e h =
      let (first, e1, k) = bind_some (apply_to_block inputs r b) _ _ e in
      let (rest, e2, j) = bind_some (apply_to_blocks inputs r bs) _ _ k in
      let (ops, e3, k3) = bind_some (replace_in inputs r (b.instructions)) _ _ e1 in
      let (t, e4, k4) = bind_some (b.terminator) _ _ k3 in
      let (new_t, e5, k5) = bind_some (replace_terminator r t) _ _ k4 in
      subst (BlocksTyped env) (some-injective _ _ j) (
        subst (λ (x : Block OpCode TypeExpr). ParametersTyped env (x.parameters))
            (some-injective _ _ k5) (h.0),
        apply_to_blocks-Typed r bs rest e2 (h.1),
      )

  module _ {bimap : BiMap (Constant F)} where
    run_blocks-Typed :
        (defs : FunctionValueDefinitions) (types : Dict TypeExpr)
        (bs new : Dict (Block OpCode TypeExpr)) (r r1 : Round bimap)
        → run_blocks defs types bs r ≡ some (new, r1)
        → BlocksTyped env bs
        → BlocksTyped env new
    unfolding run_blocks BlocksTyped
    run_blocks-Typed defs types [] new r r1 e h =
        subst (BlocksTyped env) (ap (λ x. x.0) (some-injective _ _ e)) tt
    run_blocks-Typed defs types ((n, b) ∷ bs) new r r1 e h =
        let (p, e1, k1) = bind_some (run_instructions defs types (b.instructions) r) _ _ e in
        let (q, e2, k2) = bind_some (run_blocks defs types bs (p.1)) _ _ k1 in
        subst (BlocksTyped env) (ap (λ x. x.0) (some-injective _ _ k2))
          (h.0, run_blocks-Typed defs types bs (q.0) (p.1) (q.1) e2 (h.1))

    pub run_function-Typed :
        (types : Dict TypeExpr) (f g : Function OpCode TypeExpr) (s s1 : Program bimap)
        (changed : Bool)
        → run_function types f s ≡ some (changed, (g, s1))
        → BlocksTyped env (f.blocks)
        → BlocksTyped env (g.blocks)
    unfolding run_function apply_to_function
    run_function-Typed types f g s s1 changed e h =
        let start : Round bimap = record { ssa = s; aliases = []; changed = false } in
        let (p, e1, k1) = bind_some (run_blocks (from_function f) types (f.blocks) start) _ _ e in
        let (g1, e2, k2) =
          bind_some (apply_to_function inputs (p.1.aliases) (record f { blocks = p.0 })) _ _ k1 in
        let (bs, e3, k3) = bind_some (apply_to_blocks inputs (p.1.aliases) (p.0)) _ _ e2 in
        let typed : BlocksTyped env bs =
          apply_to_blocks-Typed (p.1.aliases) (p.0) bs e3
            (run_blocks-Typed (from_function f) types (f.blocks) (p.0) start (p.1) e1 h) in
        subst (λ (x : Function OpCode TypeExpr). BlocksTyped env (x.blocks))
          (some-injective _ _ k3 ∙ ap (λ x. x.1.0) (some-injective _ _ k2)) typed

    pub iterate-Typed :
        (infer : Function OpCode TypeExpr → Program bimap → Option (Dict TypeExpr))
        (max_iterations : ℕ) (f g : Function OpCode TypeExpr) (s s1 : Program bimap)
        → iterate infer max_iterations f s ≡ some (g, s1)
        → BlocksTyped env (f.blocks)
        → BlocksTyped env (g.blocks)
    unfolding iterate
    iterate-Typed infer zero f g s s1 e h =
        subst (λ (x : Function OpCode TypeExpr). BlocksTyped env (x.blocks))
          (ap (λ x. x.0) (some-injective _ _ e)) h
    iterate-Typed infer (suc m) f g s s1 e h =
        let (types, e1, k1) = bind_some (infer f s) _ _ e in
        let (p, e2, k2) = bind_some (run_function types f s) _ _ k1 in
        let typed = run_function-Typed types f (p.1.0) s (p.1.1) (p.0) e2 h in
        elim (Bool-cases (p.0)) [
          | inl t ↦ iterate-Typed infer m (p.1.0) g (p.1.1) s1 (rw t at k2) typed
          | inr t ↦
              subst (λ (x : Function OpCode TypeExpr). BlocksTyped env (x.blocks))
                (ap (λ x. x.0) (some-injective _ _ (rw t at k2))) typed
        ]
