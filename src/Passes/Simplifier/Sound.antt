-- ===== src/Passes/Simplifier/Sound.antt =====
-- Every rewrite of `try_algebraic` (compiler/src/compiler/passes/simplifier.rs) keeps the meaning of the
-- instruction.
use mavros.Prelude.{
  ==_self, ℕ, ◌≡◌, refl, sym, ap, ◌∙◌, ◌⊎◌, inl, inr, true, false, Option, none, some, [], ◌∷◌,
  ◌==◌, ◌≢◌, arith, ==_eq,
}
use mavros.Prelude.Field.{Field}
use mavros.Types.{TypeExpr, ◌>>=◌, bind_some}
use mavros.Types.Access.{get_bit_size}
use mavros.Range.Transfer.{
  mul_op, CastTarget, nop, to_field, to_u, to_i, to_witness, array_to_slice,
}
use mavros.Analysis.ValueDefinitions.{
  FunctionValueDefinitions, ValueDefinition, instruction, get_definition,
}
use mavros.Ssa.Dict.{Dict, get}
use mavros.Ssa.Constant.{Constant}
use mavros.Ssa.Op.{
  OpCode, eq, cmp, binary_arith_op, cast, not_op, bit_range, select, value_of, write_witness,
  mul_const,
}
use mavros.Ssa.Op.Results.{get_results, to_list}
use mavros.Ssa.BiMap.{BiMap}
use mavros.Ssa.Meaning.{
  Scalars, Assignment, Holds, IsTyped, truth, eval_binary, eval_not, eval_bit_range,
}
use mavros.Ssa.Meaning.Lists.{contains}
use mavros.Ssa.Meaning.Identities.{mul_zero_left, mul_one_left}
use mavros.Passes.Simplifier.{Rewrite, Program, cast_target_eq}
use mavros.Passes.Simplifier.Algebraic.{
  try_mul_const, try_cast_again, try_cast, try_not, try_value_of, try_write_witness, try_bit_range,
  try_algebraic,
}
use mavros.Passes.Simplifier.Rules.{
  ConstsHold, AttemptHolds, to_alias-Holds, no_rewrite-Holds, if-Holds, bind-Holds,
  materialize_one-Holds, is_zero-IsZero, is_one-IsOne,
}
use mavros.Passes.Simplifier.Binary.{zero_first, one_first}
use mavros.Passes.Simplifier.Shift.{try_binary-Holds, eval_not_again, eval_bit_range_whole}

-- The value that an instruction with one result defines.
pub first_result : OpCode → ℕ
first_result op = elim (get_results op) [ [] ↦ 0 | v ∷ vs ↦ v ]

cast_target_eq_lem : (a b : CastTarget) → cast_target_eq a b ≡ true → a ≡ b
unfolding cast_target_eq
cast_target_eq_lem to_field to_field h = refl
cast_target_eq_lem (to_u n) (to_u m) h = ap to_u (==_eq n m h)
cast_target_eq_lem (to_i n) (to_i m) h = ap to_i (==_eq n m h)
cast_target_eq_lem to_witness to_witness h = refl
cast_target_eq_lem nop nop h = refl
cast_target_eq_lem array_to_slice array_to_slice h = refl
cast_target_eq_lem _ _ h = cc

module _ {F : Field} (S : Scalars F) (env : Assignment F) where
  -- Every definition in a table is an instruction that holds and defines the value.
  abbrev pub DefinitionsHold : FunctionValueDefinitions → Type 0
  DefinitionsHold defs =
      (v b n : ℕ) (op : OpCode)
      → get_definition v defs ≡ some (instruction b n op)
      → (contains (get_results op) v ≡ true) × Holds S env op

  -- That of one value.
  abbrev Defined : ℕ → Option ValueDefinition → Type 0
  Defined v d =
      (b n : ℕ) (op : OpCode)
      → d ≡ some (instruction b n op)
      → (contains (get_results op) v ≡ true) × Holds S env op

  module _ {bimap : BiMap (Constant F)} (s : Program bimap) where
    only : (v r : ℕ) → contains (r ∷ []) v ≡ true → v ≡ r
    unfolding contains
    only v r h = ground arith

    try_cast_again-Holds :
        (r v : ℕ) (t : CastTarget) (d : Option ValueDefinition)
        → Defined v d
        → env r ≡ S.convert t (env v)
        → AttemptHolds S env r (try_cast_again r v t d s)
    unfolding try_cast_again get_results Holds contains
    try_cast_again-Holds r v t (some (instruction b n (cast q w old))) d h =
        let (m, k) = d b n (cast q w old) refl in
        if-Holds S env r (cast_target_eq old t) _ _
          (λ e. to_alias-Holds S env r v s (again q w old m k e)) (λ e. no_rewrite-Holds S env r s)
      where
        again :
            (q w : ℕ) (old : CastTarget)
            → contains (q ∷ []) v ≡ true
            → env q ≡ S.convert old (env w)
            → cast_target_eq old t ≡ true
            → env r ≡ env v
        again q w old m k e =
            let p : env v ≡ S.convert t (env w) =
              ap env (only v q m)
              ∙ k
              ∙ ap (λ x. S.convert x (env w)) (cast_target_eq_lem old t e) in
            h ∙ ap (S.convert t) p ∙ S.convert_again t (env w) ∙ sym p
    try_cast_again-Holds r v t none d h = no_rewrite-Holds S env r s
    try_cast_again-Holds r v t _ d h = no_rewrite-Holds S env r s

    try_cast-Holds :
        (r v : ℕ) (t : CastTarget) (d : Option ValueDefinition)
        → Defined v d
        → env r ≡ S.convert t (env v)
        → AttemptHolds S env r (try_cast r v t d s)
    unfolding try_cast
    try_cast-Holds r v nop d k h = to_alias-Holds S env r v s (h ∙ S.convert-nop (env v))
    try_cast-Holds r v to_field d k h = try_cast_again-Holds r v to_field d k h
    try_cast-Holds r v (to_u n) d k h = try_cast_again-Holds r v (to_u n) d k h
    try_cast-Holds r v (to_i n) d k h = try_cast_again-Holds r v (to_i n) d k h
    try_cast-Holds r v to_witness d k h = try_cast_again-Holds r v to_witness d k h
    try_cast-Holds r v array_to_slice d k h = try_cast_again-Holds r v array_to_slice d k h

    try_not-Holds :
        (r v : ℕ) (d : Option ValueDefinition)
        → Defined v d
        → eval_not (env v) ≡ some (env r)
        → AttemptHolds S env r (try_not r d s)
    unfolding try_not get_results Holds
    try_not-Holds r v (some (instruction b n (not_op q w))) d h =
        let (m, k) = d b n (not_op q w) refl in
        to_alias-Holds S env r w s
          (eval_not_again (env w) (env v) (env r) (k ∙ ap (λ x. some (env x)) (sym (only v q m))) h)
    try_not-Holds r v none d h = no_rewrite-Holds S env r s
    try_not-Holds r v _ d h = no_rewrite-Holds S env r s

    try_value_of-Holds :
        (r v : ℕ) (d : Option ValueDefinition)
        → Defined v d
        → env r ≡ env v
        → AttemptHolds S env r (try_value_of r v d s)
    unfolding try_value_of get_results Holds to_list contains
    try_value_of-Holds r v (some (instruction b n (value_of q w))) d h =
        to_alias-Holds S env r v s h
    try_value_of-Holds r v (some (instruction b n (write_witness (some q) w p))) d h =
        let (m, k) = d b n (write_witness (some q) w p) refl in
        to_alias-Holds S env r w s (h ∙ ap env (only v q m) ∙ k)
    try_value_of-Holds r v (some (instruction b n (write_witness none w p))) d h =
        let (m, k) = d b n (write_witness none w p) refl in absurd (cc)
    try_value_of-Holds r v none d h = no_rewrite-Holds S env r s
    try_value_of-Holds r v _ d h = no_rewrite-Holds S env r s

    try_write_witness-Holds :
        (r v : ℕ) (d : Option ValueDefinition)
        → Defined v d
        → env r ≡ env v
        → AttemptHolds S env r (try_write_witness r d s)
    unfolding try_write_witness get_results Holds
    try_write_witness-Holds r v (some (instruction b n (value_of q w))) d h =
        let (m, k) = d b n (value_of q w) refl in
        to_alias-Holds S env r w s (h ∙ ap env (only v q m) ∙ k)
    try_write_witness-Holds r v none d h = no_rewrite-Holds S env r s
    try_write_witness-Holds r v _ d h = no_rewrite-Holds S env r s

  module _ {bimap : BiMap (Constant F)} (s : Program bimap) (consts : ConstsHold env s)
      (types : Dict TypeExpr) (typed : IsTyped types env) where
    try_mul_const-Holds :
        (r c v : ℕ)
        → eval_binary S mul_op (env c) (env v) ≡ some (env r)
        → AttemptHolds S env r (try_mul_const r c v s)
    unfolding try_mul_const
    try_mul_const-Holds r c v h =
        zero_first S env s consts types typed r c c _
          (λ t. mul_zero_left S _ _ _ (is_zero-IsZero env s consts c t) h)
          (one_first S env s consts types typed r c v _
            (λ t. mul_one_left S _ _ _ (is_one-IsOne env s consts c t) h)
            (no_rewrite-Holds S env r s))

    try_bit_range-Holds :
        (r v offset width : ℕ)
        → eval_bit_range offset width (env v) ≡ some (env r)
        → AttemptHolds S env r (try_bit_range types r v offset width s)
    unfolding try_bit_range
    try_bit_range-Holds r v offset width h =
        if-Holds S env r (offset == 0) _ _
          (λ t. bind-Holds S env r (get v types >>= get_bit_size) _ (λ size e.
            if-Holds S env r (width == size) _ _
              (λ k. to_alias-Holds S env r v s (entire size t e k))
              (λ k. no_rewrite-Holds S env r s)))
          (λ t. no_rewrite-Holds S env r s)
      where
        entire :
            (size : ℕ)
            → (offset == 0) ≡ true
            → (get v types >>= get_bit_size) ≡ some size
            → (width == size) ≡ true
            → env r ≡ env v
        entire size t e k =
            let (ty, et, es) = bind_some (get v types) _ _ e in
            eval_bit_range_whole ty (env v) (env r) width (typed v ty et)
              (es ∙ ap some (sym (==_eq width size k)))
              (ap (λ x. eval_bit_range x width (env v)) (sym (==_eq offset 0 t)) ∙ h)

    selected :
        (r c x y : ℕ)
        → ((env c ≡ truth true) × (env r ≡ env x)) ⊎ ((env c ≡ truth false) × (env r ≡ env y))
        → (x == y) ≡ true
        → env r ≡ env x
    selected r c x y (inl (p, e)) t = e
    selected r c x y (inr (p, e)) t = e ∙ ap env (sym (==_eq x y t))

    equal :
        (r l q : ℕ)
        → ((env r ≡ truth true) × (env l ≡ env q)) ⊎ ((env r ≡ truth false) × (env l ≢ env q))
        → (l == q) ≡ true
        → env r ≡ truth true
    equal r l q (inl (p, e)) t = p
    equal r l q (inr (p, n)) t = absurd (n (ap env (==_eq l q t)))

    -- Under an assignment that fits the types, the definitions and the constants, and in which the
    -- instruction holds: an alias that `try_algebraic` returns has the value of the instruction's
    -- result, and the instructions that it returns hold.
    pub try_algebraic-Holds :
        (defs : FunctionValueDefinitions) (op : OpCode)
        → DefinitionsHold defs
        → Holds S env op
        → AttemptHolds S env (first_result op) (try_algebraic defs types op s)
    unfolding try_algebraic Holds first_result get_results to_list
    try_algebraic-Holds defs (binary_arith_op kind r l q) d h =
        try_binary-Holds S env s consts types typed kind r l q h
    try_algebraic-Holds defs (mul_const r c v) d h = try_mul_const-Holds r c v h
    try_algebraic-Holds defs (cast r v t) d h =
        try_cast-Holds s r v t (get_definition v defs) (d v) h
    try_algebraic-Holds defs (not_op r v) d h = try_not-Holds s r v (get_definition v defs) (d v) h
    try_algebraic-Holds defs (select r c x y) d h =
        if-Holds S env r (x == y) _ _ (λ t. to_alias-Holds S env r x s (selected r c x y h t))
          (λ t. no_rewrite-Holds S env r s)
    try_algebraic-Holds defs (bit_range r v offset width) d h =
        try_bit_range-Holds r v offset width h
    try_algebraic-Holds defs (cmp eq r l q) d h =
        if-Holds S env r (l == q) _ _
          (λ t. materialize_one-Holds S env r types typed s (equal r l q h t))
          (λ t. no_rewrite-Holds S env r s)
    try_algebraic-Holds defs (value_of r v) d h =
        try_value_of-Holds s r v (get_definition v defs) (d v) h
    try_algebraic-Holds defs (write_witness (some r) v false) d h =
        try_write_witness-Holds s r v (get_definition v defs) (d v) h
    try_algebraic-Holds defs op d h = no_rewrite-Holds S env (first_result op) s

module _ {F : Field} {bimap : BiMap (Constant F)} where
  -- Only an instruction that defines a value is rewritten.
  pub try_algebraic-defines :
      (defs : FunctionValueDefinitions) (types : Dict TypeExpr) (op : OpCode) (s s1 : Program bimap)
      (w : Rewrite)
      → try_algebraic defs types op s ≡ some (some w, s1)
      → contains (get_results op) (first_result op) ≡ true
  unfolding try_algebraic first_result get_results to_list contains
  try_algebraic-defines defs types (binary_arith_op kind r l q) s s1 w h = rw (==_self r) refl
  try_algebraic-defines defs types (mul_const r c v) s s1 w h = rw (==_self r) refl
  try_algebraic-defines defs types (cast r v t) s s1 w h = rw (==_self r) refl
  try_algebraic-defines defs types (not_op r v) s s1 w h = rw (==_self r) refl
  try_algebraic-defines defs types (select r c x y) s s1 w h = rw (==_self r) refl
  try_algebraic-defines defs types (bit_range r v offset width) s s1 w h = rw (==_self r) refl
  try_algebraic-defines defs types (cmp eq r l q) s s1 w h = rw (==_self r) refl
  try_algebraic-defines defs types (value_of r v) s s1 w h = rw (==_self r) refl
  try_algebraic-defines defs types (write_witness (some r) v false) s s1 w h = rw (==_self r) refl
  try_algebraic-defines defs types op s s1 w h = cc
