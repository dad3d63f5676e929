-- ===== src/Passes/SimplifyAsserts/Keeps.antt =====
-- The pass keeps the assignments that satisfy a function.
use mavros.Prelude.{ℕ, ◌≡◌, sym, ◌↔◌, ◌⊎◌, inl, inr, true, some, List, [], ◌∷◌, arith}
use mavros.Prelude.Field.{Field}
use mathlib.Core.Option.{some-injective}
use mathlib.Core.Path.{subst}
use mavros.Types.{TypeExpr, bind_some}
use mavros.Ssa.Dict.{Dict, get, insert, get-insert_cases}
use mavros.Ssa.Op.{OpCode, eq, assert, assert_cmp}
use mavros.Ssa.Op.Results.{get_results}
use mavros.Ssa.Function.{Function, Block}
use mavros.Ssa.Meaning.{Scalars, Assignment, Holds, AllHold, IsTyped}
use mavros.Ssa.Meaning.Lists.{
  AllDefine, BlocksDefine, BlocksHold-BlocksDefine, BlocksHold, DefsHold, Defines, AllHold-++,
  contains,
}
use mavros.Passes.SimplifyAsserts.{
  simplify, simplify_instructions, simplify_blocks, block_defs, insert_defs, collect_defs,
  simplify_asserts,
}
use mavros.Passes.SimplifyAsserts.Equal.{emit_assert_eq-AllHold}
use mavros.Passes.SimplifyAsserts.Sound.{emit_assert-Asserts}

module _ {F : Field} (S : Scalars F) (env : Assignment F) where
  insert_defs-cases :
      (vs : List ℕ) (op : OpCode) (defs : Dict OpCode) (v : ℕ) (o : OpCode)
      → get v (insert_defs vs op defs) ≡ some o
      → ((o ≡ op) × (contains vs v ≡ true)) ⊎ (get v defs ≡ some o)
  unfolding insert_defs contains
  insert_defs-cases [] op defs v o h = inr h
  insert_defs-cases (w ∷ vs) op defs v o h =
      elim (insert_defs-cases vs op (insert w op defs) v o h) [
        | inl (e, m) ↦ inl (e, ground (arith, m))
        | inr k ↦ elim (get-insert_cases v w op o defs k) [
          | inl (p, q) ↦ inl (sym q, ground (arith, p))
          | inr q ↦ inr q
        ]
      ]

  insert_defs-DefsHold :
      (op : OpCode) (defs : Dict OpCode)
      → Defines S env op
      → DefsHold S env defs
      → DefsHold S env (insert_defs (get_results op) op defs)
  insert_defs-DefsHold op defs d hold v o h =
      elim (insert_defs-cases (get_results op) op defs v o h) [
        | inl (e, m) ↦ rw e (m, d v m)
        | inr k ↦ hold v o k
      ]

  block_defs-DefsHold :
      (ops : List OpCode) (defs : Dict OpCode)
      → AllDefine S env ops
      → DefsHold S env defs
      → DefsHold S env (block_defs ops defs)
  unfolding block_defs AllDefine
  block_defs-DefsHold [] defs d hold = hold
  block_defs-DefsHold (op ∷ ops) defs d hold =
      block_defs-DefsHold ops (insert_defs (get_results op) op defs) (d.1)
        (insert_defs-DefsHold op defs (d.0) hold)

  collect_defs-DefsHold :
      (bs : Dict (Block OpCode TypeExpr)) (defs : Dict OpCode)
      → BlocksDefine S env bs
      → DefsHold S env defs
      → DefsHold S env (collect_defs bs defs)
  unfolding collect_defs BlocksDefine
  collect_defs-DefsHold [] defs d hold = hold
  collect_defs-DefsHold ((_, b) ∷ bs) defs d hold =
      collect_defs-DefsHold bs (block_defs (b.instructions) defs) (d.1)
        (block_defs-DefsHold (b.instructions) defs (d.0) hold)

  module _ (types : Dict TypeExpr) where
    -- An instruction that defines a value stays as it is.
    simplify-Defines :
        (defs : Dict OpCode) (fuel : ℕ) (op : OpCode) (ops : List OpCode)
        → simplify defs types fuel op ≡ some ops
        → AllHold S env ops
        → Defines S env op
    unfolding simplify AllHold get_results contains
    simplify-Defines defs fuel (assert v) ops h k = λ w m. cc
    simplify-Defines defs fuel (assert_cmp kind l r) ops h k = λ w m. cc
    simplify-Defines defs fuel op ops h k =
        λ w m. (subst (AllHold S env) (sym (some-injective _ _ h)) k).0

    simplify_instructions-AllDefine :
        (defs : Dict OpCode) (fuel : ℕ) (ops new : List OpCode)
        → simplify_instructions defs types fuel ops ≡ some new
        → AllHold S env new
        → AllDefine S env ops
    unfolding simplify_instructions AllDefine
    simplify_instructions-AllDefine defs fuel [] new h k = tt
    simplify_instructions-AllDefine defs fuel (op ∷ ops) new h k =
        let (first, e1, h1) = bind_some (simplify defs types fuel op) _ _ h in
        let (rest, e2, h2) = bind_some (simplify_instructions defs types fuel ops) _ _ h1 in
        let (p, q) =
          (AllHold-++ S env first rest).0 (subst (AllHold S env) (sym (some-injective _ _ h2)) k) in
        (
          simplify-Defines defs fuel op first e1 p,
          simplify_instructions-AllDefine defs fuel ops rest e2 q,
        )

    simplify_blocks-BlocksDefine :
        (defs : Dict OpCode) (fuel : ℕ) (bs new : Dict (Block OpCode TypeExpr))
        → simplify_blocks defs types fuel bs ≡ some new
        → BlocksHold S env new
        → BlocksDefine S env bs
    unfolding simplify_blocks BlocksDefine BlocksHold
    simplify_blocks-BlocksDefine defs fuel [] new h k = tt
    simplify_blocks-BlocksDefine defs fuel ((n, b) ∷ bs) new h k =
        let (ops, e1, h1) =
          bind_some (simplify_instructions defs types fuel (b.instructions)) _ _ h in
        let (rest, e2, h2) = bind_some (simplify_blocks defs types fuel bs) _ _ h1 in
        let (p, q) = subst (BlocksHold S env) (sym (some-injective _ _ h2)) k in
        (
          simplify_instructions-AllDefine defs fuel (b.instructions) ops e1 p,
          simplify_blocks-BlocksDefine defs fuel bs rest e2 q,
        )

    module _ (defs : Dict OpCode) (hold : DefsHold S env defs) (typed : IsTyped types env) where
      simplify-Holds :
          (fuel : ℕ) (op : OpCode) (ops : List OpCode)
          → simplify defs types fuel op ≡ some ops
          → AllHold S env ops ↔ Holds S env op
      unfolding simplify AllHold Holds
      simplify-Holds fuel (assert v) ops h =
          emit_assert-Asserts S env defs types hold typed fuel v ops h
      simplify-Holds fuel (assert_cmp eq l r) ops h =
          emit_assert_eq-AllHold S env defs types hold l r ops h
      simplify-Holds fuel op ops h =
          subst (λ l. AllHold S env l ↔ Holds S env op) (some-injective _ _ h)
            (λ k. k.0, λ k. (k, tt))

      simplify_instructions-AllHold :
          (fuel : ℕ) (ops new : List OpCode)
          → simplify_instructions defs types fuel ops ≡ some new
          → AllHold S env new ↔ AllHold S env ops
      unfolding simplify_instructions AllHold
      simplify_instructions-AllHold fuel [] new h =
          subst (λ l. AllHold S env l ↔ Unit {0}) (some-injective _ _ h) (λ k. k, λ k. k)
      simplify_instructions-AllHold fuel (op ∷ ops) new h =
          let (first, e1, h1) = bind_some (simplify defs types fuel op) _ _ h in
          let (rest, e2, h2) = bind_some (simplify_instructions defs types fuel ops) _ _ h1 in
          let (split, join) = AllHold-++ S env first rest in
          let (to, from) = simplify-Holds fuel op first e1 in
          let (tos, froms) = simplify_instructions-AllHold fuel ops rest e2 in
          subst (λ l. AllHold S env l ↔ (Holds S env op × AllHold S env ops))
            (some-injective _ _ h2)
            (λ k. (to ((split k).0), tos ((split k).1)), λ k. join (from (k.0), froms (k.1)))

      simplify_blocks-BlocksHold :
          (fuel : ℕ) (bs new : Dict (Block OpCode TypeExpr))
          → simplify_blocks defs types fuel bs ≡ some new
          → BlocksHold S env new ↔ BlocksHold S env bs
      unfolding simplify_blocks BlocksHold
      simplify_blocks-BlocksHold fuel [] new h =
          subst (λ l. BlocksHold S env l ↔ Unit {0}) (some-injective _ _ h) (λ k. k, λ k. k)
      simplify_blocks-BlocksHold fuel ((n, b) ∷ bs) new h =
          let (ops, e1, h1) =
            bind_some (simplify_instructions defs types fuel (b.instructions)) _ _ h in
          let (rest, e2, h2) = bind_some (simplify_blocks defs types fuel bs) _ _ h1 in
          let (to, from) = simplify_instructions-AllHold fuel (b.instructions) ops e1 in
          let (tos, froms) = simplify_blocks-BlocksHold fuel bs rest e2 in
          subst (λ l. BlocksHold S env l ↔ (AllHold S env (b.instructions) × BlocksHold S env bs))
            (some-injective _ _ h2) (λ k. (to (k.0), tos (k.1)), λ k. (from (k.0), froms (k.1)))

    -- An assignment that agrees with the types satisfies every instruction of the function that the
    -- pass returns exactly when it satisfies every instruction of the function it was given.
    pub simplify_asserts-BlocksHold :
        (fuel : ℕ) (f g : Function OpCode TypeExpr)
        → IsTyped types env
        → simplify_asserts fuel types f ≡ some g
        → BlocksHold S env (g.blocks) ↔ BlocksHold S env (f.blocks)
    unfolding simplify_asserts
    simplify_asserts-BlocksHold fuel f g typed h =
        let defs = collect_defs (f.blocks) [] in
        let (bs, e, k) = bind_some (simplify_blocks defs types fuel (f.blocks)) _ _ h in
        let held : BlocksDefine S env (f.blocks) → DefsHold S env defs =
          λ d. collect_defs-DefsHold (f.blocks) [] d (λ v op n. cc) in
        let both : BlocksDefine S env (f.blocks)
            → BlocksHold S env bs ↔ BlocksHold S env (f.blocks) =
          λ d. simplify_blocks-BlocksHold defs (held d) typed fuel (f.blocks) bs e in
        subst
          (λ (x : Function OpCode TypeExpr).
            BlocksHold S env (x.blocks) ↔ BlocksHold S env (f.blocks))
          (some-injective _ _ k)
          (
            λ x. (both (simplify_blocks-BlocksDefine defs fuel (f.blocks) bs e x)).0 x,
            λ x. (both (BlocksHold-BlocksDefine S env (f.blocks) x)).1 x,
          )
