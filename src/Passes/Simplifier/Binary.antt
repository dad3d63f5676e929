-- ===== src/Passes/Simplifier/Binary.antt =====
-- The rewrites of the binary operations keep the meaning of the instruction (compiler/src/compiler/passes/simplifier.rs).
use mavros.Prelude.{ℕ, ◌≡◌, sym, ap, ◌∙◌, true, some, ◌==◌, if◌then◌else◌, ==_eq}
use mavros.Prelude.Field.{Field}
use mavros.Types.{TypeExpr}
use mavros.Range.Transfer.{
  BinaryArithOpKind, add_op, mul_op, div_op, sub_op, and_op, or_op, xor_op, shl_op,
}
use mavros.Ssa.Dict.{Dict}
use mavros.Ssa.Constant.{Constant}
use mavros.Ssa.BiMap.{BiMap}
use mavros.Ssa.Meaning.{Scalars, Assignment, IsTyped, eval_binary}
use mavros.Ssa.Meaning.Identities.{
  add_zero_left, add_zero_right, sub_zero_right, sub_self, mul_zero_left, mul_zero_right,
  mul_one_left, mul_one_right, div_one_right, and_zero_left, and_zero_right, and_self,
  and_ones_left, and_ones_right, or_zero_left, or_zero_right, or_self, xor_zero_left,
  xor_zero_right, xor_self, shl_zero_right,
}
use mavros.Passes.Simplifier.{Program, Attempt, to_alias, is_zero, is_one, is_all_ones}
use mavros.Passes.Simplifier.Algebraic.{
  try_add, try_sub, try_mul, try_div, try_all_ones, try_and, try_or, try_xor, try_shl,
}
use mavros.Passes.Simplifier.Rules.{
  ConstsHold, AttemptHolds, to_alias-Holds, no_rewrite-Holds, if-Holds, bind-Holds,
  materialize_zero-Holds, is_zero-IsZero, is_one-IsOne, is_all_ones-IsOnes,
}

module _ {F : Field} (S : Scalars F) (env : Assignment F) {bimap : BiMap (Constant F)}
    (s : Program bimap) (consts : ConstsHold env s) (types : Dict TypeExpr)
    (typed : IsTyped types env) where
  -- `binary kind r l q`: what a binary instruction says.
  abbrev pub Says : BinaryArithOpKind → (r l q : ℕ) → Type 0
  Says kind r l q = eval_binary S kind (env l) (env q) ≡ some (env r)

  -- The next test is for a zero, or for a one, of an operand.
  pub zero_first :
      (r v target : ℕ) (rest : Attempt bimap)
      → (is_zero s v ≡ true → env r ≡ env target)
      → AttemptHolds S env r rest
      → AttemptHolds S env r (if is_zero s v then to_alias r target s else rest)
  zero_first r v target rest e h =
      if-Holds S env r (is_zero s v) _ _ (λ t. to_alias-Holds S env r target s (e t)) (λ t. h)

  pub one_first :
      (r v target : ℕ) (rest : Attempt bimap)
      → (is_one s v ≡ true → env r ≡ env target)
      → AttemptHolds S env r rest
      → AttemptHolds S env r (if is_one s v then to_alias r target s else rest)
  one_first r v target rest e h =
      if-Holds S env r (is_one s v) _ _ (λ t. to_alias-Holds S env r target s (e t)) (λ t. h)

  pub try_add-Holds : (r l q : ℕ) → Says add_op r l q → AttemptHolds S env r (try_add r l q s)
  unfolding try_add
  try_add-Holds r l q h =
      zero_first r l q _ (λ t. add_zero_left S _ _ _ (is_zero-IsZero env s consts l t) h)
        (zero_first r q l _ (λ t. add_zero_right S _ _ _ (is_zero-IsZero env s consts q t) h)
          (no_rewrite-Holds S env r s))

  same :
      (kind : BinaryArithOpKind) (r l q : ℕ) → (l == q) ≡ true → Says kind r l q → Says kind r l l
  same kind r l q t h = rw (sym (==_eq l q t)) at h

  pub try_sub-Holds : (r l q : ℕ) → Says sub_op r l q → AttemptHolds S env r (try_sub types r l q s)
  unfolding try_sub
  try_sub-Holds r l q h =
      zero_first r q l _ (λ t. sub_zero_right S _ _ _ (is_zero-IsZero env s consts q t) h)
        (if-Holds S env r (l == q) _ _
          (λ t.
            materialize_zero-Holds S env r types typed s
              (sub_self S (env l) (env r) (same sub_op r l q t h)))
          (λ t. no_rewrite-Holds S env r s))

  pub try_mul-Holds : (r l q : ℕ) → Says mul_op r l q → AttemptHolds S env r (try_mul r l q s)
  unfolding try_mul
  try_mul-Holds r l q h =
      zero_first r l l _ (λ t. mul_zero_left S _ _ _ (is_zero-IsZero env s consts l t) h)
        (zero_first r q q _ (λ t. mul_zero_right S _ _ _ (is_zero-IsZero env s consts q t) h)
          (one_first r l q _ (λ t. mul_one_left S _ _ _ (is_one-IsOne env s consts l t) h)
            (one_first r q l _ (λ t. mul_one_right S _ _ _ (is_one-IsOne env s consts q t) h)
              (no_rewrite-Holds S env r s))))

  pub try_div-Holds : (r l q : ℕ) → Says div_op r l q → AttemptHolds S env r (try_div r l q s)
  unfolding try_div
  try_div-Holds r l q h =
      one_first r q l _ (λ t. div_one_right S _ _ _ (is_one-IsOne env s consts q t) h)
        (no_rewrite-Holds S env r s)

  pub try_all_ones-Holds :
      (r l q : ℕ) → Says and_op r l q → AttemptHolds S env r (try_all_ones r l q s)
  unfolding try_all_ones
  try_all_ones-Holds r l q h = bind-Holds S env r (is_all_ones s l) _ (λ left e.
      if-Holds S env r left _ _
        (λ t.
          to_alias-Holds S env r q s
            (and_ones_left S _ _ _ (is_all_ones-IsOnes env s consts l (e ∙ ap some t)) h))
        (λ t. bind-Holds S env r (is_all_ones s q) _ (λ right k.
          if-Holds S env r right _ _
            (λ x.
              to_alias-Holds S env r l s
                (and_ones_right S _ _ _ (is_all_ones-IsOnes env s consts q (k ∙ ap some x)) h))
            (λ x. no_rewrite-Holds S env r s))))

  pub try_and-Holds : (r l q : ℕ) → Says and_op r l q → AttemptHolds S env r (try_and r l q s)
  unfolding try_and
  try_and-Holds r l q h =
      zero_first r l l _ (λ t. and_zero_left S _ _ _ (is_zero-IsZero env s consts l t) h)
        (zero_first r q q _ (λ t. and_zero_right S _ _ _ (is_zero-IsZero env s consts q t) h)
          (if-Holds S env r (l == q) _ _
            (λ t. to_alias-Holds S env r l s (and_self S (env l) (env r) (same and_op r l q t h)))
            (λ t. try_all_ones-Holds r l q h)))

  pub try_or-Holds : (r l q : ℕ) → Says or_op r l q → AttemptHolds S env r (try_or r l q s)
  unfolding try_or
  try_or-Holds r l q h =
      zero_first r l q _ (λ t. or_zero_left S _ _ _ (is_zero-IsZero env s consts l t) h)
        (zero_first r q l _ (λ t. or_zero_right S _ _ _ (is_zero-IsZero env s consts q t) h)
          (if-Holds S env r (l == q) _ _
            (λ t. to_alias-Holds S env r l s (or_self S (env l) (env r) (same or_op r l q t h)))
            (λ t. no_rewrite-Holds S env r s)))

  pub try_xor-Holds : (r l q : ℕ) → Says xor_op r l q → AttemptHolds S env r (try_xor types r l q s)
  unfolding try_xor
  try_xor-Holds r l q h =
      zero_first r l q _ (λ t. xor_zero_left S _ _ _ (is_zero-IsZero env s consts l t) h)
        (zero_first r q l _ (λ t. xor_zero_right S _ _ _ (is_zero-IsZero env s consts q t) h)
          (if-Holds S env r (l == q) _ _
            (λ t.
              materialize_zero-Holds S env r types typed s
                (xor_self S (env l) (env r) (same xor_op r l q t h)))
            (λ t. no_rewrite-Holds S env r s)))

  pub try_shl-Holds : (r l q : ℕ) → Says shl_op r l q → AttemptHolds S env r (try_shl r l q s)
  unfolding try_shl
  try_shl-Holds r l q h =
      zero_first r q l _ (λ t. shl_zero_right S _ _ _ (is_zero-IsZero env s consts q t) h)
        (no_rewrite-Holds S env r s)
