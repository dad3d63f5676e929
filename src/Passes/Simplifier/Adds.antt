-- ===== src/Passes/Simplifier/Adds.antt =====
-- What the simplifier (compiler/src/compiler/passes/simplifier.rs) does to the table of constants: it
-- adds at most one for an instruction, and those that were there stay.
use mathlib.Core.Option.{some-injective}
use mathlib.Core.Path.{subst}
use mavros.Prelude.{
  refl, length, ◌∙◌, [], ◌∷◌, ℕ, suc, ◌+◌, ◌^◌, ◌<◌, ◌≤◌, ◌≡◌, ap, ◌⊎◌, inl, inr, Bool, true, false,
  Option, none, some, ◌==◌, ltb, if◌then◌else◌, arith, none-some, Option-cases,
}
use mavros.Prelude.Field.{Field}
use mavros.Types.{TypeExpr, field, u, ◌>>=◌, strip_witness, is_witness_of}
use mavros.Types.Access.{get_bit_size}
use mavros.Range.Transfer.{
  BinaryArithOpKind, add_op, mul_op, div_op, sub_op, and_op, or_op, xor_op, shl_op, shr_op, mod_op,
  CastTarget, nop, to_witness,
}
use mavros.Analysis.ValueDefinitions.{
  FunctionValueDefinitions, ValueDefinition, instruction, get_definition,
}
use mavros.Ssa.Dict.{Dict, get}
use mavros.Ssa.Constant.{Constant}
use mavros.Ssa.Op.{
  OpCode, eq, cmp, binary_arith_op, cast, not_op, bit_range, select, value_of, write_witness,
  mul_const,
}
use mavros.Ssa.BiMap.{BiMap}
use mavros.Ssa.Program.{add_const, get_const, fresh_value}
use mavros.Ssa.Program.Constants.{IsWf, add_const-IsWf, get_const-add_const_kept}
use mavros.Passes.Simplifier.{
  replace, to_alias, Program, Attempt, Rewrite, alias, no_rewrite, is_zero, is_one, is_all_ones,
  const_as_usize, materialize, materialize_const, materialize_zero, materialize_one, pure_zero,
  pure_one, cast_target_eq,
}
use mavros.Passes.Simplifier.Algebraic.{
  try_add, try_sub, try_mul, try_div, try_all_ones, try_and, try_or, try_xor, try_shl, shift_range,
  shift_const, try_shr, try_binary, try_mul_const, try_cast_again, try_cast, try_not, try_value_of,
  try_write_witness, try_bit_range, try_algebraic,
}

-- At most one instruction takes the place of one.
abbrev pub IsSmall : Option Rewrite → Type 0
IsSmall (some (replace ops)) = length ops ≤ 1
IsSmall _ = Unit {0}

module _ {F : Field} {bimap : BiMap (Constant F)} (s : Program bimap) where
  -- The program after an attempt is the one before it, or that with one constant added.
  abbrev Adds : Program bimap → Type 0
  Adds s1 = (s1 ≡ s) ⊎ ((c : Constant F) × (s1 ≡ (add_const c s).1))

  abbrev pub AttemptAdds : Attempt bimap → Type 0
  AttemptAdds a =
      (rewrite : Option Rewrite) (s1 : Program bimap)
      → a ≡ some (rewrite, s1)
      → Adds s1 × IsSmall rewrite

  of_both :
      (w : Option Rewrite) (s1 : Program bimap) → Adds s1 → IsSmall w → AttemptAdds (some (w, s1))
  of_both w s1 a small rewrite s2 e = (
    subst Adds (ap (λ p. p.1) (some-injective _ _ e)) a,
    subst IsSmall (ap (λ p. p.0) (some-injective _ _ e)) small,
  )

  keeps : AttemptAdds (no_rewrite s)
  keeps = of_both none s (inl refl) tt

  aliased : (result target : ℕ) → AttemptAdds (to_alias result target s)
  aliased result target = of_both (some (alias result target)) s (inl refl) tt

  swapped : (op : OpCode) → AttemptAdds (some (some (replace (op ∷ [])), s))
  swapped op = of_both (some (replace (op ∷ []))) s (inl refl) (omega arith)

  either :
      (b : Bool) (x y : Attempt bimap)
      → AttemptAdds x
      → AttemptAdds y
      → AttemptAdds (if b then x else y)
  either true x y p q = p
  either false x y p q = q

  after :
      {A : Type 0} (o : Option A) (f : A → Attempt bimap)
      → ((a : A) → AttemptAdds (f a))
      → AttemptAdds (o >>= f)
  after none f h = λ w s1 e. absurd (none-some e)
  after (some a) f h = h a

  materialize-Adds : (t : TypeExpr) (r : ℕ) (c : Constant F) → AttemptAdds (materialize t r c s)
  unfolding materialize
  materialize-Adds t r c =
      let added = add_const c s in
      either (is_witness_of t) _ _
        (of_both (some (replace (cast r (added.0) to_witness ∷ []))) (added.1) (inr (c, refl))
          (omega arith))
        (of_both (some (alias r (added.0))) (added.1) (inr (c, refl)) tt)

  materialize_const-Adds :
      (types : Dict TypeExpr) (r : ℕ) (p : TypeExpr → Option (Constant F))
      → AttemptAdds (materialize_const types r p s)
  unfolding materialize_const
  materialize_const-Adds types r p = after (get r types) _ (λ t. by_value t (p (strip_witness t)))
    where
      by_value :
          (t : TypeExpr) (o : Option (Constant F))
          → AttemptAdds (elim o [ none ↦ no_rewrite s | some value ↦ materialize t r value s ])
      by_value t none = keeps
      by_value t (some c) = materialize-Adds t r c

  materialize_zero-Adds : (types : Dict TypeExpr) (r : ℕ) → AttemptAdds (materialize_zero types r s)
  unfolding materialize_zero
  materialize_zero-Adds types r = materialize_const-Adds types r pure_zero

  shift_range-Adds : (r l offset : ℕ) (t : TypeExpr) → AttemptAdds (shift_range r l offset t s)
  unfolding shift_range
  shift_range-Adds r l offset (u bits) = either (ltb offset bits) _ _ (swapped _) keeps
  shift_range-Adds r l offset field = keeps
  shift_range-Adds r l offset _ = keeps

  shift_const-Adds :
      (types : Dict TypeExpr) (r l : ℕ) (o : Option ℕ) → AttemptAdds (shift_const types r l o s)
  unfolding shift_const
  shift_const-Adds types r l none = keeps
  shift_const-Adds types r l (some offset) =
      after (get l types) _ (λ t. shift_range-Adds r l offset (strip_witness t))

  try_all_ones-Adds : (r l q : ℕ) → AttemptAdds (try_all_ones r l q s)
  unfolding try_all_ones
  try_all_ones-Adds r l q = after (is_all_ones s l) _ (λ left.
      either left _ _ (aliased _ _)
        (after (is_all_ones s q) _ (λ right. either right _ _ (aliased _ _) keeps)))

  try_binary-Adds :
      (types : Dict TypeExpr) (kind : BinaryArithOpKind) (r l q : ℕ)
      → AttemptAdds (try_binary types kind r l q s)
  unfolding try_binary try_add try_sub try_mul try_div try_and try_or try_xor try_shl try_shr
  try_binary-Adds types add_op r l q =
      either (is_zero s l) _ _ (aliased r q) (either (is_zero s q) _ _ (aliased r l) keeps)
  try_binary-Adds types sub_op r l q =
      either (is_zero s q) _ _ (aliased r l)
        (either (l == q) _ _ (materialize_zero-Adds types r) keeps)
  try_binary-Adds types mul_op r l q = either (is_zero s l) _ _ (aliased r l) (
      either (is_zero s q) _ _ (aliased r q)
        (either (is_one s l) _ _ (aliased r q) (either (is_one s q) _ _ (aliased r l) keeps)))
  try_binary-Adds types div_op r l q = either (is_one s q) _ _ (aliased r l) keeps
  try_binary-Adds types and_op r l q = either (is_zero s l) _ _ (aliased r l) (
      either (is_zero s q) _ _ (aliased r q)
        (either (l == q) _ _ (aliased r l) (try_all_ones-Adds r l q)))
  try_binary-Adds types or_op r l q =
      either (is_zero s l) _ _ (aliased r q)
        (either (is_zero s q) _ _ (aliased r l) (either (l == q) _ _ (aliased r l) keeps))
  try_binary-Adds types xor_op r l q = either (is_zero s l) _ _ (aliased r q) (
      either (is_zero s q) _ _ (aliased r l)
        (either (l == q) _ _ (materialize_zero-Adds types r) keeps))
  try_binary-Adds types shl_op r l q = either (is_zero s q) _ _ (aliased r l) keeps
  try_binary-Adds types shr_op r l q =
      either (is_zero s q) _ _ (aliased r l) (shift_const-Adds types r l (const_as_usize s q))
  try_binary-Adds types mod_op r l q = keeps

  try_cast-Adds :
      (r v : ℕ) (t : CastTarget) (d : Option ValueDefinition) → AttemptAdds (try_cast r v t d s)
  unfolding try_cast try_cast_again
  try_cast-Adds r v nop d = aliased _ _
  try_cast-Adds r v t (some (instruction _ _ (cast _ _ old))) =
      either (cast_target_eq old t) _ _ (aliased _ _) keeps
  try_cast-Adds r v t none = keeps
  try_cast-Adds r v t _ = keeps

  try_not-Adds : (r : ℕ) (d : Option ValueDefinition) → AttemptAdds (try_not r d s)
  unfolding try_not
  try_not-Adds r (some (instruction _ _ (not_op _ _))) = aliased _ _
  try_not-Adds r none = keeps
  try_not-Adds r _ = keeps

  try_value_of-Adds : (r v : ℕ) (d : Option ValueDefinition) → AttemptAdds (try_value_of r v d s)
  unfolding try_value_of
  try_value_of-Adds r v (some (instruction _ _ (value_of _ _))) = aliased _ _
  try_value_of-Adds r v (some (instruction _ _ (write_witness _ _ _))) = aliased _ _
  try_value_of-Adds r v none = keeps
  try_value_of-Adds r v _ = keeps

  try_write_witness-Adds :
      (r : ℕ) (d : Option ValueDefinition) → AttemptAdds (try_write_witness r d s)
  unfolding try_write_witness
  try_write_witness-Adds r (some (instruction _ _ (value_of _ _))) = aliased _ _
  try_write_witness-Adds r none = keeps
  try_write_witness-Adds r _ = keeps

  try_algebraic-Adds :
      (defs : FunctionValueDefinitions) (types : Dict TypeExpr) (op : OpCode)
      → AttemptAdds (try_algebraic defs types op s)
  unfolding try_algebraic try_bit_range try_mul_const materialize_one
  try_algebraic-Adds defs types (binary_arith_op kind r l q) = try_binary-Adds types kind r l q
  try_algebraic-Adds defs types (mul_const r c v) =
      either (is_zero s c) _ _ (aliased r c) (either (is_one s c) _ _ (aliased r v) keeps)
  try_algebraic-Adds defs types (cast r v t) = try_cast-Adds r v t (get_definition v defs)
  try_algebraic-Adds defs types (not_op r v) = try_not-Adds r (get_definition v defs)
  try_algebraic-Adds defs types (select r c x y) = either (x == y) _ _ (aliased _ _) keeps
  try_algebraic-Adds defs types (bit_range r v offset width) =
      either (offset == 0) _ _
        (after (get v types >>= get_bit_size) _
          (λ size. either (width == size) _ _ (aliased _ _) keeps))
        keeps
  try_algebraic-Adds defs types (cmp eq r l q) =
      either (l == q) _ _ (materialize_const-Adds types r pure_one) keeps
  try_algebraic-Adds defs types (value_of r v) = try_value_of-Adds r v (get_definition v defs)
  try_algebraic-Adds defs types (write_witness (some r) v false) =
      try_write_witness-Adds r (get_definition v defs)
  try_algebraic-Adds defs types op = keeps

module _ {F : Field} {bimap : BiMap (Constant F)} where
  -- The constants of the first program are constants of the second, and the functions are the same.
  abbrev pub Extends : Program bimap → Program bimap → Type 0
  Extends s s1 =
      ((v : ℕ) (c : Constant F) → get_const v s ≡ some c → get_const v s1 ≡ some c)
      × (s1.functions ≡ s.functions)
      × (s1.next_function_id ≡ s.next_function_id)

  pub Extends-trans : (s s1 s2 : Program bimap) → Extends s s1 → Extends s1 s2 → Extends s s2
  Extends-trans s s1 s2 (kept, same, ids) (kept1, same1, ids1) =
      (λ v c k. kept1 v c (kept v c k), same1 ∙ same, ids1 ∙ ids)

  functions-add_const :
      (c : Constant F) (s : Program bimap)
      → ((add_const c s).1.functions ≡ s.functions)
        × ((add_const c s).1.next_function_id ≡ s.next_function_id)
  unfolding add_const fresh_value
  functions-add_const c s = elim (Option-cases (bimap.get_by_right c (s.constants))) [
    | inl e ↦ rw (e, add_const) (refl, refl)
    | inr (v, e) ↦ rw (e, add_const) (refl, refl)
  ]

  -- A well-formed program with identifiers for `n` more constants.
  abbrev pub HasRoom : ℕ → Program bimap → Type 0
  HasRoom n s = IsWf s × (s.next_value_id + n < 2 ^ 64)

  next_value_id-add_const :
      (c : Constant F) (s : Program bimap)
      → suc (s.next_value_id) < 2 ^ 64
      → (add_const c s).1.next_value_id ≤ suc (s.next_value_id)
  unfolding add_const fresh_value
  next_value_id-add_const c s h = elim (Option-cases (bimap.get_by_right c (s.constants))) [
    | inl e ↦ rw (e, add_const) (omega (arith, h))
    | inr (v, e) ↦ rw (e, add_const) (omega arith)
  ]

  -- An attempt leaves room for one constant less, and all constants as they were, and what takes the
  -- place of the instruction is one instruction at most.
  pub try_algebraic-HasRoom :
      (defs : FunctionValueDefinitions) (types : Dict TypeExpr) (op : OpCode) (n : ℕ)
      (s : Program bimap) (rewrite : Option Rewrite) (s1 : Program bimap)
      → HasRoom (suc n) s
      → try_algebraic defs types op s ≡ some (rewrite, s1)
      → HasRoom n s1 × Extends s s1 × IsSmall rewrite
  try_algebraic-HasRoom defs types op n s rewrite s1 (wf, room) h =
      let (a, small) = try_algebraic-Adds s defs types op rewrite s1 h in
      elim a [
        | inl e ↦ rw e ((wf, omega (arith, room)), (λ v c k. k, refl, refl), small)
        | inr (c, e) ↦
            let free : suc (s.next_value_id) < 2 ^ 64 = omega (arith, room) in
            rw e (
              (add_const-IsWf c s wf free, omega (arith, room, next_value_id-add_const c s free)),
              (
                λ v d k. get_const-add_const_kept c s v d wf k,
                (functions-add_const c s).0,
                (functions-add_const c s).1,
              ),
              small,
            )
      ]
