-- ===== src/Passes/SimplifyAsserts/Equal.antt =====
-- What the assertions that `emit_assert_eq` gives mean, and what a conjunction of two bits means.
use mavros.Prelude.{
  ℕ, zero, suc, ◌≡◌, refl, sym, ◌∙◌, ap, ◌↔◌, true, Option, none, some, List, [], ◌∷◌, arith, ◌<◌,
  if_some,
}
use mavros.Prelude.Field.{Field}
use mathlib.Core.Option.{some-injective}
use mathlib.Core.Path.{subst}
use mavros.Types.{TypeExpr, u, bind_some}
use mavros.Range.Transfer.{mul_op, and_op}
use mavros.Ssa.Dict.{Dict, get}
use mavros.Ssa.Constant.{Constant, u_const, i_const, field_const}
use mavros.Ssa.Op.{OpCode, binary_arith_op, assert_r1c}
use mavros.Ssa.Op.Results.{get_results}
use mavros.Ssa.Meaning.{
  Scalars, Assignment, Holds, AllHold, eval_binary, truth, has_type, fits, unsigned_op, signed_op,
  field_op,
}
use mavros.Ssa.Meaning.Bits.{bitwise, and_digit}
use mavros.Ssa.Meaning.Lists.{DefsHold, contains}
use mavros.Passes.SimplifyAsserts.{field_factors, emit_assert_eq, left_arm, right_arm, is_bit}

pub is_bit_lem : (t : TypeExpr) → is_bit t ≡ true → t ≡ u 1
is_bit_lem (u (suc zero)) h = refl
is_bit_lem (u zero) h = cc
is_bit_lem _ h = cc

and_one : (a b : ℕ) → a < 2 → b < 2 → bitwise and_digit 1 a b ≡ 1 ↔ (a ≡ 1) × (b ≡ 1)
unfolding bitwise
and_one zero b h k = (λ e. ground arith, λ e. ground arith)
and_one (suc zero) b h k = (λ e. (refl, omega (arith, e)), λ e. omega (arith, e.1))
and_one (suc (suc a)) b h k = absurd (omega arith)

abbrev pub Conjunction : {F : Field} → Constant F → Constant F → Constant F → Type 0
Conjunction x y z = z ≡ truth true ↔ (x ≡ truth true) × (y ≡ truth true)

module _ {F : Field} (S : Scalars F) where
  one_wide :
      (w v a b : ℕ)
      → fits and_op w v a b ≡ true
      → has_type {F = F} (u 1) (u_const w (bitwise and_digit w a b)) ≡ true
      → (w ≡ 1) × (v ≡ 1)
  unfolding fits has_type
  one_wide w v a b f h = (ground arith, ground arith)

  word_true :
      (w v a b : ℕ)
      → w ≡ 1
      → v ≡ 1
      → fits and_op w v a b ≡ true
      → Conjunction {F = F} (u_const w a) (u_const v b) (u_const w (bitwise and_digit w a b))
  unfolding fits
  word_true w v a b p q f =
      let (to, from) = and_one a b (ground (arith, f, p)) (ground (arith, f, q)) in
      rw (p, q) (λ k. ground (arith, k, to), λ k. ground (arith, k, from))

  -- The conjunction of two bits is true exactly when both are.
  pub and_bit :
      (x y z : Constant F)
      → has_type (u 1) z ≡ true
      → eval_binary S and_op x y ≡ some z
      → Conjunction x y z
  unfolding eval_binary fits unsigned_op has_type signed_op field_op
  and_bit (u_const w a) (u_const v b) z hz h =
      let (f, e) = if_some _ _ _ h in
      let (p, q) = one_wide w v a b f (rw (sym e) at hz) in
      subst (Conjunction (u_const w a) (u_const v b)) e (word_true w v a b p q f)
  and_bit (i_const w a) (i_const v b) z hz h =
      let (f, e) = if_some _ _ _ h in ground (arith, f, e, hz)
  and_bit (field_const a) (field_const b) z hz h = cc
  and_bit x y z hz h = cc

  module _ (env : Assignment F) (defs : Dict OpCode) (types : Dict TypeExpr)
      (hold : DefsHold S env defs) where
    factors_of :
        (v a b : ℕ) (d : Option OpCode)
        → get v defs ≡ d
        → field_factors defs types d ≡ some (some (a, b))
        → eval_binary S mul_op (env a) (env b) ≡ some (env v)
    unfolding field_factors Holds contains get_results
    factors_of v a b (some (binary_arith_op mul_op r x y)) e h =
        let (m, k) = hold v (binary_arith_op mul_op r x y) e in
        let (t, q, p) = bind_some (get r types) _ _ h in ground (arith, p, k, m)
    factors_of v a b none e h = cc
    factors_of v a b _ e h = cc

    product :
        (v w a b : ℕ)
        → eval_binary S mul_op (env a) (env b) ≡ some (env v)
        → AllHold S env (assert_r1c a b w ∷ []) ↔ (env v ≡ env w)
    unfolding AllHold Holds
    product v w a b e = (λ h. some-injective _ _ (sym e ∙ h.0), λ h. (e ∙ ap some h, tt))

    emit_right :
        (lhs rhs : ℕ) (ops : List OpCode) (right : Option (ℕ × ℕ))
        → field_factors defs types (get rhs defs) ≡ some right
        → right_arm lhs rhs right ≡ some ops
        → AllHold S env ops ↔ (env lhs ≡ env rhs)
    unfolding AllHold Holds
    emit_right lhs rhs ops (some (a, b)) e h =
        subst (λ l. AllHold S env l ↔ (env lhs ≡ env rhs)) (some-injective _ _ h)
          (let (to, from) = product rhs lhs a b (factors_of rhs a b (get rhs defs) refl e) in
            (λ k. sym (to k), λ k. from (sym k)))
    emit_right lhs rhs ops none e h =
        subst (λ l. AllHold S env l ↔ (env lhs ≡ env rhs)) (some-injective _ _ h)
          (λ k. k.0, λ k. (k, tt))

    emit_left :
        (lhs rhs : ℕ) (ops : List OpCode) (left : Option (ℕ × ℕ))
        → field_factors defs types (get lhs defs) ≡ some left
        → left_arm defs types lhs rhs left ≡ some ops
        → AllHold S env ops ↔ (env lhs ≡ env rhs)
    unfolding left_arm
    emit_left lhs rhs ops (some (a, b)) e h =
        subst (λ l. AllHold S env l ↔ (env lhs ≡ env rhs)) (some-injective _ _ h)
          (product lhs rhs a b (factors_of lhs a b (get lhs defs) refl e))
    emit_left lhs rhs ops none e h =
        let (right, er, k) = bind_some (field_factors defs types (get rhs defs)) _ _ h in
        emit_right lhs rhs ops right er k

    -- `emit_assert_eq` emits assertions that hold exactly when the two values are equal.
    pub emit_assert_eq-AllHold :
        (lhs rhs : ℕ) (ops : List OpCode)
        → emit_assert_eq defs types lhs rhs ≡ some ops
        → AllHold S env ops ↔ (env lhs ≡ env rhs)
    unfolding emit_assert_eq
    emit_assert_eq-AllHold lhs rhs ops h =
        let (left, el, k) = bind_some (field_factors defs types (get lhs defs)) _ _ h in
        emit_left lhs rhs ops left el k
