-- ===== src/Passes/Simplifier/Definitions.antt =====
-- The definitions that `FunctionValueDefinitions::from_function`
-- (compiler/src/compiler/analysis/value_definitions.rs) finds hold where the function's instructions do.
use mavros.Prelude.{ℕ, suc, ◌≡◌, sym, ◌⊎◌, inl, inr, true, some, List, [], ◌∷◌, arith}
use mavros.Prelude.Field.{Field}
use mavros.Types.{TypeExpr}
use mavros.Analysis.ValueDefinitions.{
  FunctionValueDefinitions, ValueDefinition, param, instruction, get_definition, insert_definition,
  param_definitions, result_definitions, instruction_definitions, block_definitions, from_function,
}
use mavros.Ssa.Dict.{Dict, get-insert_cases}
use mavros.Ssa.Op.{OpCode}
use mavros.Ssa.Op.Results.{get_results}
use mavros.Ssa.Function.{Function, Block}
use mavros.Ssa.Meaning.{Scalars, Assignment}
use mavros.Ssa.Meaning.Lists.{Defines, AllDefine, BlocksDefine, contains}
use mavros.Passes.Simplifier.Sound.{DefinitionsHold}

result_definitions-cases :
    (vs : List ℕ) (d o : ValueDefinition) (defs : FunctionValueDefinitions) (v : ℕ)
    → get_definition v (result_definitions vs d defs) ≡ some o
    → ((d ≡ o) × (contains vs v ≡ true)) ⊎ (get_definition v defs ≡ some o)
unfolding result_definitions contains
result_definitions-cases [] d o defs v h = inr h
result_definitions-cases (w ∷ vs) d o defs v h =
    elim (result_definitions-cases vs d o (insert_definition w d defs) v h) [
      | inl (e, m) ↦ inl (e, ground (arith, m))
      | inr k ↦ elim (get-insert_cases v w d o defs k) [
        | inl (p, q) ↦ inl (q, ground (arith, p))
        | inr q ↦ inr q
      ]
    ]

module _ {F : Field} (S : Scalars F) (env : Assignment F) where
  param_definitions-DefinitionsHold :
      (b n : ℕ) (ps : List (ℕ × TypeExpr)) (defs : FunctionValueDefinitions)
      → DefinitionsHold S env defs
      → DefinitionsHold S env (param_definitions b n ps defs)
  unfolding param_definitions
  param_definitions-DefinitionsHold b n [] defs hold = hold
  param_definitions-DefinitionsHold b n ((w, t) ∷ ps) defs hold =
      param_definitions-DefinitionsHold b (suc n) ps (insert_definition w (param b n t) defs)
        (λ v c m op h. elim (get-insert_cases v w (param b n t) (instruction c m op) defs h) [
          | inl (p, q) ↦ absurd (cc)
          | inr q ↦ hold v c m op q
        ])

  result_definitions-DefinitionsHold :
      (b n : ℕ) (op : OpCode) (defs : FunctionValueDefinitions)
      → Defines S env op
      → DefinitionsHold S env defs
      → DefinitionsHold S env (result_definitions (get_results op) (instruction b n op) defs)
  result_definitions-DefinitionsHold b n op defs h hold v c m o k =
      elim (result_definitions-cases (get_results op) (instruction b n op) (instruction c m o) defs
        v k) [
          | inl (e, found) ↦ let same : op ≡ o = cc in rw (sym same) (found, h v found)
          | inr q ↦ hold v c m o q
        ]

  instruction_definitions-DefinitionsHold :
      (b n : ℕ) (ops : List OpCode) (defs : FunctionValueDefinitions)
      → AllDefine S env ops
      → DefinitionsHold S env defs
      → DefinitionsHold S env (instruction_definitions b n ops defs)
  unfolding instruction_definitions AllDefine
  instruction_definitions-DefinitionsHold b n [] defs h hold = hold
  instruction_definitions-DefinitionsHold b n (op ∷ ops) defs h hold =
      instruction_definitions-DefinitionsHold b (suc n) ops
        (result_definitions (get_results op) (instruction b n op) defs) (h.1)
        (result_definitions-DefinitionsHold b n op defs (h.0) hold)

  block_definitions-DefinitionsHold :
      (bs : Dict (Block OpCode TypeExpr)) (defs : FunctionValueDefinitions)
      → BlocksDefine S env bs
      → DefinitionsHold S env defs
      → DefinitionsHold S env (block_definitions bs defs)
  unfolding block_definitions BlocksDefine
  block_definitions-DefinitionsHold [] defs h hold = hold
  block_definitions-DefinitionsHold ((n, b) ∷ bs) defs h hold =
      block_definitions-DefinitionsHold bs
        (instruction_definitions n 0 (b.instructions) (param_definitions n 0 (b.parameters) defs))
        (h.1)
        (instruction_definitions-DefinitionsHold n 0 (b.instructions)
          (param_definitions n 0 (b.parameters) defs) (h.0)
          (param_definitions-DefinitionsHold n 0 (b.parameters) defs hold))

  -- Where every instruction of a function that defines a value holds, so does every definition of
  -- its table.
  pub from_function-DefinitionsHold :
      (f : Function OpCode TypeExpr)
      → BlocksDefine S env (f.blocks)
      → DefinitionsHold S env (from_function f)
  unfolding from_function
  from_function-DefinitionsHold f h =
      block_definitions-DefinitionsHold (f.blocks) [] h (λ v b n op k. absurd (cc))
