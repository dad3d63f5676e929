-- ===== src/Passes/SimplifyAsserts/Ends.antt =====
-- The pass returns where no value is its own conjunct and every product and conjunction has a type.
use mavros.Prelude.{
  ℕ, zero, suc, ◌<◌, ◌≡◌, refl, Option, none, some, List, [], ◌∷◌, ◌++◌, if◌then◌else◌, arith,
  Bool-cases, inl, inr,
}
use mavros.Types.{TypeExpr, strip_witness}
use mavros.Range.Transfer.{mul_op, and_op}
use mavros.Ssa.Dict.{Dict, get}
use mavros.Ssa.Op.{OpCode, lt, eq, cmp, binary_arith_op, assert, assert_cmp}
use mavros.Ssa.Function.{Function, Block}
use mavros.Passes.SimplifyAsserts.{
  field_factors, left_arm, right_arm, emit_assert_eq, emit_by, emit_both, emit_assert, simplify,
  simplify_instructions, simplify_blocks, collect_defs, simplify_asserts, is_field, is_bit,
}

abbrev pub Returns : {A : Type 0} → Option A → Type 0
Returns {A} o = (a : A) × (o ≡ some a)

module _ (defs : Dict OpCode) (types : Dict TypeExpr) (rank : ℕ → ℕ) where
  -- The result of a product or of a conjunction has a type, and the rank of a conjunction is above
  -- the ranks of what it joins.
  pub record IsRanked : Type 0 where
    pub product_typed :
        (v r a b : ℕ) → get v defs ≡ some (binary_arith_op mul_op r a b) → Returns (get r types)
    pub conjunction_typed :
        (v r a b : ℕ) → get v defs ≡ some (binary_arith_op and_op r a b) → Returns (get r types)
    pub left_below :
        (v r a b : ℕ) → get v defs ≡ some (binary_arith_op and_op r a b) → rank a < rank v
    pub right_below :
        (v r a b : ℕ) → get v defs ≡ some (binary_arith_op and_op r a b) → rank b < rank v

  module _ (wf : IsRanked) where
    factors-Returns :
        (v : ℕ) (d : Option OpCode) → get v defs ≡ d → Returns (field_factors defs types d)
    unfolding field_factors
    factors-Returns v (some (binary_arith_op mul_op r a b)) e =
        let (t, et) = wf.product_typed v r a b e in
        rw et ((if is_field (strip_witness t) then some (a, b) else none), refl)
    factors-Returns v none e = (none, refl)
    factors-Returns v _ e = (none, refl)

    right_arm-Returns : (l r : ℕ) (o : Option (ℕ × ℕ)) → Returns (right_arm l r o)
    right_arm-Returns l r none = (_, refl)
    right_arm-Returns l r (some (a, b)) = (_, refl)

    left_arm-Returns : (l r : ℕ) (o : Option (ℕ × ℕ)) → Returns (left_arm defs types l r o)
    unfolding left_arm
    left_arm-Returns l r (some (a, b)) = (_, refl)
    left_arm-Returns l r none =
        let (right, e) = factors-Returns r (get r defs) refl in rw e (right_arm-Returns l r right)

    emit_assert_eq-Returns : (l r : ℕ) → Returns (emit_assert_eq defs types l r)
    unfolding emit_assert_eq
    emit_assert_eq-Returns l r =
        let (left, e) = factors-Returns l (get l defs) refl in rw e (left_arm-Returns l r left)

    both-Returns : (x y : Option (List OpCode)) → Returns x → Returns y → Returns (emit_both x y)
    unfolding emit_both
    both-Returns x y (xs, e) (ys, k) = rw (e, k) (xs ++ ys, refl)

    emit_by-Returns :
        (go : ℕ → Option (List OpCode)) (v : ℕ)
        → ((w : ℕ) → rank w < rank v → Returns (go w))
        → (d : Option OpCode) → get v defs ≡ d
        → Returns (emit_by defs types go v d)
    unfolding emit_by
    emit_by-Returns go v ih (some (cmp eq r a b)) e = emit_assert_eq-Returns a b
    emit_by-Returns go v ih (some (cmp lt r a b)) e = (_, refl)
    emit_by-Returns go v ih (some (binary_arith_op and_op r a b)) e =
        let (t, et) = wf.conjunction_typed v r a b e in
        let both =
          both-Returns (go a) (go b) (ih a (wf.left_below v r a b e))
            (ih b (wf.right_below v r a b e)) in
        rw et (elim (Bool-cases (is_bit (strip_witness t))) [
          | inl bit ↦ rw bit both
          | inr bit ↦ rw bit (assert v ∷ [], refl)
        ])
    emit_by-Returns go v ih none e = (_, refl)
    emit_by-Returns go v ih _ e = (_, refl)

    emit_assert-Returns : (fuel v : ℕ) → rank v < fuel → Returns (emit_assert defs types fuel v)
    unfolding emit_assert
    emit_assert-Returns zero v h = absurd (omega arith)
    emit_assert-Returns (suc n) v h =
        emit_by-Returns (emit_assert defs types n) v
          (λ w k. emit_assert-Returns n w (omega (arith, h, k))) (get v defs) refl

    module _ (fuel : ℕ) (enough : (v : ℕ) → rank v < fuel) where
      simplify-Returns : (op : OpCode) → Returns (simplify defs types fuel op)
      unfolding simplify
      simplify-Returns (assert v) = emit_assert-Returns fuel v (enough v)
      simplify-Returns (assert_cmp eq l r) = emit_assert_eq-Returns l r
      simplify-Returns op = (_, refl)

      instructions-Returns :
          (ops : List OpCode) → Returns (simplify_instructions defs types fuel ops)
      unfolding simplify_instructions
      instructions-Returns [] = ([], refl)
      instructions-Returns (op ∷ ops) =
          let (first, e) = simplify-Returns op in
          let (rest, k) = instructions-Returns ops in rw (e, k) (first ++ rest, refl)

      pub blocks-Returns :
          (bs : Dict (Block OpCode TypeExpr)) → Returns (simplify_blocks defs types fuel bs)
      unfolding simplify_blocks
      blocks-Returns [] = ([], refl)
      blocks-Returns ((n, b) ∷ bs) =
          let (ops, e) = instructions-Returns (b.instructions) in
          let (rest, k) = blocks-Returns bs in rw (e, k) (_, refl)

-- Where the result of every product and of every conjunction has a type, and the rank of a conjunction
-- is above the ranks of the two values that it joins, the pass returns a function, with any fuel above
-- every rank.
pub simplify_asserts-Returns :
    (types : Dict TypeExpr) (rank : ℕ → ℕ) (fuel : ℕ) (f : Function OpCode TypeExpr)
    → IsRanked (collect_defs (f.blocks) []) types rank
    → ((v : ℕ) → rank v < fuel)
    → Returns (simplify_asserts fuel types f)
unfolding simplify_asserts
simplify_asserts-Returns types rank fuel f wf enough =
    let (bs, e) =
      blocks-Returns (collect_defs (f.blocks) []) types rank wf fuel enough (f.blocks) in
    rw e (_, refl)
