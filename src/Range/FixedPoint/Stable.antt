-- ===== src/Range/FixedPoint/Stable.antt =====
-- A pass of `run_function` (value_range_analysis.rs) that reports no change.
use mavros.Prelude.{
  ℕ, zero, suc, ◌≤◌, ◌≡◌, refl, sym, ap, ◌∙◌, Bool, true, false, none, some, List, [], ◌∷◌,
  if◌then◌else◌, Bool-cases, inl, inr, arith,
}
use mavros.Types.{TypeExpr}
use mavros.Range.Interval.{IntInterval, for_type}
use mavros.Range.Transfer.{
  OpCode, cast, sext, bit_range, write_witness, fresh_witness, value_of, cmp, not_op,
  binary_arith_op, mul_const, select, guard, other, Env, State, eq_bound, overwrite, transfer,
  type_range, default_all, with_default,
}
use mavros.Range.FixedPoint.{
  Block, join_arguments, join_parameters, transfer_all, visit, visit_all, unchanged, iterate,
}

-- A step that reports no change makes none.
abbrev pub Keeps : (State → State) → Type 0
Keeps f = (s : State) → (f s).changed ≡ false → f s ≡ s

compose-Keeps : (f g : State → State) → Keeps f → Keeps g → Keeps (λ s. g (f s))
compose-Keeps f g p q s h = let e = q (f s) h in e ∙ p s (sym (ap (λ x. x.changed) e) ∙ h)

true-false : true ≡ false → ⊥
true-false h = cc

overwrite-Keeps :
    (v : ℕ) (r : IntInterval) (s : State) → (overwrite s v r).changed ≡ false → overwrite s v r ≡ s
unfolding overwrite
overwrite-Keeps v r s h = elim (Bool-cases (eq_bound (s.bounds v) r)) [
  | inl e ↦ rw e refl
  | inr e ↦ absurd (true-false (rw e at h))
]

default_all-Keeps : (env : Env) (rs : List ℕ) → Keeps (default_all env rs)
default_all-Keeps env [] s h = refl
default_all-Keeps env (v ∷ vs) s h =
    compose-Keeps (λ x. overwrite x v (type_range env v)) (default_all env vs)
      (overwrite-Keeps v (type_range env v)) (default_all-Keeps env vs) s h

transfer-Keeps : (env : Env) (op : OpCode) → Keeps (transfer env op)
unfolding transfer
transfer-Keeps env (cast r x t) s h = overwrite-Keeps r _ s h
transfer-Keeps env (sext r x n) s h = overwrite-Keeps r _ s h
transfer-Keeps env (bit_range r w) s h = overwrite-Keeps r _ s h
transfer-Keeps env (write_witness (some r) x) s h = overwrite-Keeps r _ s h
transfer-Keeps env (write_witness none x) s h = refl
transfer-Keeps env (fresh_witness r t) s h = overwrite-Keeps r _ s h
transfer-Keeps env (value_of r x) s h = overwrite-Keeps r _ s h
transfer-Keeps env (cmp r) s h = overwrite-Keeps r _ s h
transfer-Keeps env (not_op r x) s h = overwrite-Keeps r _ s h
transfer-Keeps env (binary_arith_op k r x y) s h = overwrite-Keeps r _ s h
transfer-Keeps env (mul_const r c x) s h = overwrite-Keeps r _ s h
transfer-Keeps env (select r t f) s h = overwrite-Keeps r _ s h
transfer-Keeps env (guard inner) s h = transfer-Keeps env inner s h
transfer-Keeps env (other rs) s h = default_all-Keeps env rs s h

transfer_all-Keeps : (env : Env) (ops : List OpCode) → Keeps (transfer_all env ops)
unfolding transfer_all
transfer_all-Keeps env [] s h = refl
transfer_all-Keeps env (op ∷ ops) s h =
    compose-Keeps (transfer env op) (transfer_all env ops) (transfer-Keeps env op)
      (transfer_all-Keeps env ops) s h

join_parameters-Keeps :
    (env : Env) (pred_args : List (List ℕ)) (idx : ℕ) (params : List (ℕ × TypeExpr))
    → Keeps (join_parameters env pred_args idx params)
unfolding join_parameters
join_parameters-Keeps env pred_args idx [] s h = refl
join_parameters-Keeps env pred_args idx ((param, ty) ∷ params) s h =
    compose-Keeps
      (λ x.
        overwrite x param
          (with_default (join_arguments x idx pred_args none) (for_type env.modulus ty)))
      (join_parameters env pred_args (suc idx) params) (λ x. overwrite-Keeps param _ x)
      (join_parameters-Keeps env pred_args (suc idx) params) s h

enter-Keeps :
    (is_entry : Bool) (f : State → State) → Keeps f → Keeps (λ s. if is_entry then s else f s)
enter-Keeps true f p s h = refl
enter-Keeps false f p s h = p s h

visit-Keeps : (env : Env) (b : Block) → Keeps (visit env b)
unfolding visit
visit-Keeps env b s h =
    compose-Keeps (λ x. if b.is_entry then x else join_parameters env b.pred_args 0 b.parameters x)
      (transfer_all env b.instructions)
      (enter-Keeps b.is_entry (join_parameters env b.pred_args 0 b.parameters)
        (join_parameters-Keeps env b.pred_args 0 b.parameters))
      (transfer_all-Keeps env b.instructions) s h

visit_all-Keeps : (env : Env) (order : List Block) → Keeps (visit_all env order)
unfolding visit_all
visit_all-Keeps env [] s h = refl
visit_all-Keeps env (b ∷ bs) s h =
    compose-Keeps (visit env b) (visit_all env bs) (visit-Keeps env b) (visit_all-Keeps env bs) s h

-- Where the loop ends without a change, after at least one pass, a further pass changes no bound.
pub iterate-stable :
    (env : Env) (order : List Block) (n : ℕ) (s : State)
    → 1 ≤ n
    → (iterate env order n s).changed ≡ false
    → visit_all env order (iterate env order n s) ≡ iterate env order n s
unfolding iterate
iterate-stable env order zero s p h = absurd (omega arith)
iterate-stable env order (suc zero) s p h =
    elim (Bool-cases (visit_all env order (unchanged s)).changed) [
      | inl e ↦ absurd (true-false (sym e ∙ (rw e at h)))
      | inr e ↦ let same = visit_all-Keeps env order (unchanged s) e in rw e (rw same same)
    ]
iterate-stable env order (suc (suc n)) s p h =
    elim (Bool-cases (visit_all env order (unchanged s)).changed) [
      | inl e ↦ rw e (
          iterate-stable env order (suc n) (visit_all env order (unchanged s)) (omega arith)
            (rw e at h))
      | inr e ↦ let same = visit_all-Keeps env order (unchanged s) e in rw e (rw same same)
    ]
