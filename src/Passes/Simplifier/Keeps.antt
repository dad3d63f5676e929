-- ===== src/Passes/Simplifier/Keeps.antt =====
-- What the aliases of the simplifier (compiler/src/compiler/passes/simplifier.rs) leave of instructions
-- and blocks.
use mathlib.Core.Option.{some-injective}
use mathlib.Core.Path.{subst}
use mavros.Prelude.{
  ◌↔◌, ℕ, zero, suc, ◌≡◌, refl, sym, ap, ◌∙◌, inl, inr, some, List, [], ◌∷◌, ◌==◌, length,
  Option-cases, Bool-cases, none-some,
}
use mavros.Prelude.Field.{Field}
use mavros.Types.{TypeExpr, bind_some}
use mavros.Ssa.Dict.{Dict, get}
use mavros.Ssa.Op.{
  OpCode, lt, eq, cmp, binary_arith_op, cast, not_op, bit_range, select, assert, assert_cmp,
  assert_r1c, value_of, write_witness, mul_const,
}
use mavros.Ssa.Op.Inputs.{get_inputs}
use mavros.Ssa.Op.Results.{get_results}
use mavros.Ssa.Op.Traverse.Defined.{get_results-map_inputs}
use mavros.Ssa.Op.Mutate.{map_inputs}
use mavros.Ssa.Function.{Block}
use mavros.Ssa.Meaning.{Scalars, Assignment, Holds, AllHold}
use mavros.Ssa.Meaning.Lists.{Defines, AllDefine, BlocksDefine, contains, BlocksHold}
use mavros.Passes.Replacements.{
  ValueReplacements, follow, get_replacement, replaced, replace_inputs, replace_all, replace_in,
  replace_terminator, inputs, apply_to_block, apply_to_blocks,
}

module _ {F : Field} (env : Assignment F) where
  -- A value and what stands for it have one value.
  abbrev pub AliasesHold : ValueReplacements → Type 0
  AliasesHold r = (v w : ℕ) → get v r ≡ some w → env v ≡ env w

  follow-Holds :
      (r : ValueReplacements) → AliasesHold r → (n v w : ℕ) → follow n r v ≡ some w → env w ≡ env v
  unfolding follow
  follow-Holds r a zero v w h = absurd (none-some h)
  follow-Holds r a (suc n) v w h = elim (Option-cases (get v r)) [
    | inl e ↦ ap env (sym (some-injective v w (rw (e, follow) at h)))
    | inr (next, e) ↦ elim (Bool-cases (next == v)) [
      | inl t ↦ ap env (sym (some-injective v w (rw (e, t, follow) at h)))
      | inr t ↦ follow-Holds r a n next w (rw (e, t, follow) at h) ∙ sym (a v next e)
    ]
  ]

  replaced-Holds : (r : ValueReplacements) → AliasesHold r → (v : ℕ) → env (replaced r v) ≡ env v
  unfolding replaced get_replacement
  replaced-Holds r a v = elim (Option-cases (get_replacement r v)) [
    | inl e ↦ rw (e, replaced) refl
    | inr (w, e) ↦ rw (e, replaced) (follow-Holds r a (suc (length r)) v w e)
  ]

module _ {F : Field} (S : Scalars F) (env : Assignment F) where
  -- Other names for the inputs, with the same values.
  Holds-map_inputs :
      (f : ℕ → ℕ)
      → ((v : ℕ) → env (f v) ≡ env v)
      → (op : OpCode) → Holds S env (map_inputs f op) ↔ Holds S env op
  unfolding Holds map_inputs
  Holds-map_inputs f e (cmp lt r l q) = rw (e l, e q) (λ h. h, λ h. h)
  Holds-map_inputs f e (cmp eq r l q) = rw (e l, e q) (λ h. h, λ h. h)
  Holds-map_inputs f e (binary_arith_op kind r l q) = rw (e l, e q) (λ h. h, λ h. h)
  Holds-map_inputs f e (cast r v t) = rw (e v) (λ h. h, λ h. h)
  Holds-map_inputs f e (not_op r v) = rw (e v) (λ h. h, λ h. h)
  Holds-map_inputs f e (bit_range r v offset width) = rw (e v) (λ h. h, λ h. h)
  Holds-map_inputs f e (select r c x y) = rw (e c, e x, e y) (λ h. h, λ h. h)
  Holds-map_inputs f e (assert v) = rw (e v) (λ h. h, λ h. h)
  Holds-map_inputs f e (assert_cmp lt l q) = rw (e l, e q) (λ h. h, λ h. h)
  Holds-map_inputs f e (assert_cmp eq l q) = rw (e l, e q) (λ h. h, λ h. h)
  Holds-map_inputs f e (assert_r1c a b c) = rw (e a, e b, e c) (λ h. h, λ h. h)
  Holds-map_inputs f e (value_of r v) = rw (e v) (λ h. h, λ h. h)
  Holds-map_inputs f e (write_witness (some r) v p) = rw (e v) (λ h. h, λ h. h)
  Holds-map_inputs f e (mul_const r c v) = rw (e c, e v) (λ h. h, λ h. h)
  Holds-map_inputs f e op = S.other-map_inputs f op env e

  -- The new instruction holds exactly where the old one does, and defines the same values.
  pub replace_inputs-Holds :
      (r : ValueReplacements) (op new : OpCode)
      → AliasesHold env r
      → replace_inputs r op ≡ some new
      → (Holds S env new ↔ Holds S env op) × (get_results new ≡ get_results op)
  unfolding replace_inputs
  replace_inputs-Holds r op new a e =
      let (ws, e1, k) =
        bind_some (replace_all r (get_inputs op)) (λ ws. some (map_inputs (replaced r) op)) new e in
      subst (λ x. (Holds S env x ↔ Holds S env op) × (get_results x ≡ get_results op))
        (some-injective _ _ k)
        (
          Holds-map_inputs (replaced r) (replaced-Holds env r a) op,
          get_results-map_inputs (replaced r) op,
        )

  pub Defines-transfer :
      (op new : OpCode)
      → (Holds S env new ↔ Holds S env op)
      → get_results new ≡ get_results op
      → Defines S env op
      → Defines S env new
  Defines-transfer op new same results d v m =
      same.1 (d v (ap (λ vs. contains vs v) (sym results) ∙ m))

  -- What the replacements leave of a list of instructions.
  abbrev Kept : List OpCode → List OpCode → Type 0
  Kept ops new =
      (AllHold S env new ↔ AllHold S env ops) × (AllDefine S env ops → AllDefine S env new)

  replace_in-Kept :
      (r : ValueReplacements)
      → AliasesHold env r
      → (ops new : List OpCode) → replace_in inputs r ops ≡ some new
      → Kept ops new
  unfolding replace_in AllHold AllDefine
  replace_in-Kept r a [] new e = subst (Kept []) (some-injective _ _ e) ((λ h. h, λ h. h), λ h. h)
  replace_in-Kept r a (op ∷ ops) new e =
      let (first, e1, k) = bind_some (replace_inputs r op) _ _ e in
      let (rest, e2, j) = bind_some (replace_in inputs r ops) _ _ k in
      let (same, results) = replace_inputs-Holds r op first a e1 in
      let (others, define) = replace_in-Kept r a ops rest e2 in
      subst (Kept (op ∷ ops)) (some-injective _ _ j) (
        (λ h. (same.0 (h.0), others.0 (h.1)), λ h. (same.1 (h.0), others.1 (h.1))),
        λ d. (Defines-transfer op first same results (d.0), define (d.1)),
      )

  pub apply_to_blocks-Kept :
      (r : ValueReplacements)
      → AliasesHold env r
      → (bs new : Dict (Block OpCode TypeExpr)) → apply_to_blocks inputs r bs ≡ some new
      → (BlocksHold S env new ↔ BlocksHold S env bs)
        × (BlocksDefine S env bs → BlocksDefine S env new)
  unfolding apply_to_blocks apply_to_block BlocksHold BlocksDefine
  apply_to_blocks-Kept r a [] new e =
      subst
        (λ (x : Dict (Block OpCode TypeExpr)).
          (BlocksHold S env x ↔ Unit {0}) × (Unit {0} → BlocksDefine S env x))
        (some-injective _ _ e) ((λ h. h, λ h. h), λ h. h)
  apply_to_blocks-Kept r a ((n, b) ∷ bs) new e =
      let (first, e1, k) = bind_some (apply_to_block inputs r b) _ _ e in
      let (rest, e2, j) = bind_some (apply_to_blocks inputs r bs) _ _ k in
      let (ops, e3, k3) = bind_some (replace_in inputs r (b.instructions)) _ _ e1 in
      let (t, e4, k4) = bind_some (b.terminator) _ _ k3 in
      let (u1, e5, k5) = bind_some (replace_terminator r t) _ _ k4 in
      let (same, define) =
        subst (λ (x : Block OpCode TypeExpr). Kept (b.instructions) (x.instructions))
          (some-injective _ _ k5) (replace_in-Kept r a (b.instructions) ops e3) in
      let (others, define_rest) = apply_to_blocks-Kept r a bs rest e2 in
      subst
        (λ (x : Dict (Block OpCode TypeExpr)).
          (BlocksHold S env x ↔ (AllHold S env (b.instructions) × BlocksHold S env bs))
          × (AllDefine S env (b.instructions) × BlocksDefine S env bs → BlocksDefine S env x))
        (some-injective _ _ j)
        (
          (λ h. (same.0 (h.0), others.0 (h.1)), λ h. (same.1 (h.0), others.1 (h.1))),
          λ d. (define (d.0), define_rest (d.1)),
        )
