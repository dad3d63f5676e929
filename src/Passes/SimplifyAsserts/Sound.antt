-- ===== src/Passes/SimplifyAsserts/Sound.antt =====
-- What the assertions that `emit_assert` gives mean.
use mavros.Prelude.{
  ℕ, zero, suc, ◌≡◌, refl, sym, ◌∙◌, ap, ◌↔◌, ◌⊎◌, inl, inr, ◌≢◌, Bool, true, false, Option, none,
  some, List, [], ◌∷◌, ◌++◌, if◌then◌else◌, arith, Bool-cases,
}
use mavros.Prelude.Field.{Field}
use mathlib.Core.Option.{some-injective}
use mathlib.Core.Path.{subst}
use mavros.Types.{TypeExpr, strip_witness, bind_some}
use mavros.Range.Transfer.{and_op}
use mavros.Ssa.Dict.{Dict, get}
use mavros.Ssa.Op.{OpCode, lt, eq, cmp, binary_arith_op, assert}
use mavros.Ssa.Op.Results.{get_results}
use mavros.Ssa.Meaning.{
  Scalars, Assignment, Holds, AllHold, truth, IsTyped, eval_binary, has_type-strip_witness,
}
use mavros.Ssa.Meaning.Lists.{DefsHold, AllHold-++, contains}
use mavros.Passes.SimplifyAsserts.{emit_by, emit_both, emit_assert, is_bit}
use mavros.Passes.SimplifyAsserts.Equal.{emit_assert_eq-AllHold, and_bit, is_bit_lem}

module _ {F : Field} (S : Scalars F) (env : Assignment F) (defs : Dict OpCode)
    (types : Dict TypeExpr) (hold : DefsHold S env defs) (typed : IsTyped types env) where
  -- What a list of assertions stands for.
  abbrev pub Asserts : ℕ → List OpCode → Type 0
  Asserts v ops = AllHold S env ops ↔ (env v ≡ truth true)

  plain : (v : ℕ) (ops : List OpCode) → some (assert v ∷ []) ≡ some ops → Asserts v ops
  unfolding AllHold Holds
  plain v ops h = subst (Asserts v) (some-injective _ _ h) (λ k. k.0, λ k. (k, tt))

  compared :
      (v l r : ℕ)
      → ((env v ≡ truth true) × (env l ≡ env r)) ⊎ ((env v ≡ truth false) × (env l ≢ env r))
      → (env l ≡ env r) ↔ (env v ≡ truth true)
  compared v l r (inl (p, q)) = (λ h. p, λ h. q)
  compared v l r (inr (p, n)) = (λ h. absurd (n h), λ h. cc)

  ordered : (v : ℕ) (b : Bool) → env v ≡ truth b → (b ≡ true) ↔ (env v ≡ truth true)
  ordered v true e = (λ h. e, λ h. refl)
  ordered v false e = (λ h. cc, λ h. cc)

  only : (v r : ℕ) → contains (r ∷ []) v ≡ true → v ≡ r
  unfolding contains
  only v r h = ground arith

  conjoined :
      (v a b : ℕ) (t : TypeExpr) (xs ys : List OpCode)
      → is_bit (strip_witness t) ≡ true
      → get v types ≡ some t
      → eval_binary S and_op (env a) (env b) ≡ some (env v)
      → Asserts a xs
      → Asserts b ys
      → Asserts v (xs ++ ys)
  conjoined v a b t xs ys bit et ev (toa, froma) (tob, fromb) =
      let (split, join) = AllHold-++ S env xs ys in
      let (up, down) =
        and_bit S (env a) (env b) (env v)
          (rw (is_bit_lem (strip_witness t) bit) at
            (has_type-strip_witness t (env v) (typed v t et)))
          ev in
      (
        λ h. down (toa ((split h).0), tob ((split h).1)),
        λ h. join (froma ((up h).0), fromb ((up h).1)),
      )

  emit_and :
      (go : ℕ → Option (List OpCode))
      → ((w : ℕ) (ops : List OpCode) → go w ≡ some ops → Asserts w ops)
      → (v a b : ℕ) (t : TypeExpr) (ops : List OpCode) → get v types ≡ some t
      → eval_binary S and_op (env a) (env b) ≡ some (env v)
      → (if is_bit (strip_witness t) then emit_both (go a) (go b) else some (assert v ∷ []))
        ≡ some ops
      → Asserts v ops
  unfolding emit_both
  emit_and go ih v a b t ops et ev h = elim (Bool-cases (is_bit (strip_witness t))) [
    | inl bit ↦
        let (xs, ea, h1) = bind_some (go a) _ _ (rw bit at h) in
        let (ys, eb, h2) = bind_some (go b) _ _ h1 in
        subst (Asserts v) (some-injective _ _ h2)
          (conjoined v a b t xs ys bit et ev (ih a xs ea) (ih b ys eb))
    | inr bit ↦ plain v ops (rw bit at h)
  ]

  emit_by-Asserts :
      (go : ℕ → Option (List OpCode))
      → ((w : ℕ) (ops : List OpCode) → go w ≡ some ops → Asserts w ops)
      → (v : ℕ) (d : Option OpCode) (ops : List OpCode) → get v defs ≡ d
      → emit_by defs types go v d ≡ some ops
      → Asserts v ops
  unfolding emit_by Holds contains get_results AllHold
  emit_by-Asserts go ih v (some (cmp eq r l q)) ops e h =
      let (m, k) = hold v (cmp eq r l q) e in
      let (to, from) = emit_assert_eq-AllHold S env defs types hold l q ops h in
      let (up, down) = compared r l q k in rw (only v r m) (λ x. up (to x), λ x. from (down x))
  emit_by-Asserts go ih v (some (cmp lt r l q)) ops e h =
      let (m, k) = hold v (cmp lt r l q) e in
      let (up, down) = ordered r (S.less (env l) (env q)) k in
      subst (Asserts v) (some-injective _ _ h) (rw (only v r m) (λ x. up (x.0), λ x. (down x, tt)))
  emit_by-Asserts go ih v (some (binary_arith_op and_op r a b)) ops e h =
      let (m, k) = hold v (binary_arith_op and_op r a b) e in
      let (t, et, h1) = bind_some (get r types) _ _ h in
      let p = only v r m in
      emit_and go ih v a b t ops (ap (λ x. get x types) p ∙ et) (k ∙ ap (λ x. some (env x)) (sym p))
        h1
  emit_by-Asserts go ih v none ops e h = plain v ops h
  emit_by-Asserts go ih v _ ops e h = plain v ops h

  -- `emit_assert` emits assertions that hold exactly when the value is true.
  pub emit_assert-Asserts :
      (fuel v : ℕ) (ops : List OpCode) → emit_assert defs types fuel v ≡ some ops → Asserts v ops
  unfolding emit_assert
  emit_assert-Asserts zero v ops h = cc
  emit_assert-Asserts (suc n) v ops h =
      emit_by-Asserts (emit_assert defs types n) (emit_assert-Asserts n) v (get v defs) ops refl h
