-- ===== src/Passes/Simplifier/Rules.antt =====
-- When an attempt of the simplifier is sound, a rule for each way to build one, and what the tests on
-- constants say.
use mathlib.Core.Option.{some-injective}
use mathlib.Core.Path.{subst, ap₂}
use mavros.Prelude.{
  ℕ, ◌-◌, ◌^◌, ◌≡◌, refl, sym, ap, ◌∙◌, Bool, true, false, Option, none, some, List, ◌==◌,
  if◌then◌else◌, arith, Option-cases, Bool-cases, inl, inr, ==_eq, if_some, none-some,
}
use mavros.Prelude.Field.{Field}
use mavros.Types.{TypeExpr, field, u, i, ◌>>=◌, bind_some, strip_witness, is_witness_of}
use mavros.Range.Transfer.{to_witness}
use mavros.Ssa.Dict.{Dict, get}
use mavros.Ssa.Constant.{Constant, u_const, i_const, field_const, fn_ptr}
use mavros.Ssa.Op.{OpCode, cast}
use mavros.Ssa.BiMap.{BiMap}
use mavros.Ssa.Program.{get_const, add_const}
use mavros.Ssa.Program.Constants.{get_const-add_const_self}
use mavros.Ssa.Meaning.{
  Scalars, Assignment, Holds, AllHold, IsTyped, has_type, has_type-strip_witness, truth,
}
use mavros.Ssa.Meaning.Laws.{at_u, at_i, at_field}
use mavros.Ssa.Meaning.Identities.{IsZero, IsOne, IsOnes, ones_u, ones_i}
use mavros.Passes.Simplifier.{
  Program, Attempt, Rewrite, alias, replace, to_alias, no_rewrite, zero_const, one_const, bit_mask,
  all_ones_const, is_zero, is_one, is_all_ones, materialize, materialize_const, materialize_zero,
  materialize_one, pure_zero, pure_one,
}

module _ {F : Field} {bimap : BiMap (Constant F)} where
  -- The assignment gives every constant of a program its value.
  abbrev pub ConstsHold : Assignment F → Program bimap → Type 0
  ConstsHold env s = (v : ℕ) (c : Constant F) → get_const v s ≡ some c → env v ≡ c

zero_const-IsZero : {F : Field} (c : Constant F) → zero_const c ≡ true → IsZero c
unfolding zero_const
zero_const-IsZero (u_const w n) h = at_u w n (ground (arith, h))
zero_const-IsZero (i_const w n) h = at_i w n (ground (arith, h))
zero_const-IsZero {F} (field_const f) h = at_field f (from (F.felt_discrete f F.nought) h)
  where
    from : (d : Dec (f ≡ F.nought)) → (elim d [ yes _ ↦ true | no _ ↦ false ]) ≡ true → f ≡ F.nought
    from (yes e) k = e
    from (no n) k = cc
zero_const-IsZero (fn_ptr n) h = cc

one_const-IsOne : {F : Field} (c : Constant F) → one_const c ≡ true → IsOne c
unfolding one_const
one_const-IsOne (u_const w n) h = at_u w n (ground (arith, h))
one_const-IsOne (i_const w n) h = at_i w n (ground (arith, h))
one_const-IsOne {F} (field_const f) h = at_field f (from (F.felt_discrete f F.unity) h)
  where
    from : (d : Dec (f ≡ F.unity)) → (elim d [ yes _ ↦ true | no _ ↦ false ]) ≡ true → f ≡ F.unity
    from (yes e) k = e
    from (no n) k = cc
one_const-IsOne (fn_ptr n) h = cc

bit_mask_lem : (w m : ℕ) → bit_mask w ≡ some m → m ≡ 2 ^ w - 1
unfolding bit_mask
bit_mask_lem w m h = elim (Bool-cases (w == 0)) [
  | inl t ↦ rw (==_eq w 0 t) (sym (some-injective _ _ (rw t at h)))
  | inr t ↦ elim (Bool-cases (w == 128)) [
    | inl q ↦ rw (==_eq w 128 q) (sym (some-injective _ _ (rw (t, q) at h)))
    | inr q ↦ sym ((if_some _ _ _ (rw (t, q) at h)).1)
  ]
]

all_ones_const-IsOnes : {F : Field} (c : Constant F) → all_ones_const c ≡ some true → IsOnes c
unfolding all_ones_const
all_ones_const-IsOnes (u_const w n) h =
    let (m, e, k) = bind_some (bit_mask w) _ _ h in
    ones_u w n (==_eq n m (some-injective _ _ k) ∙ bit_mask_lem w m e)
all_ones_const-IsOnes (i_const w n) h =
    let (m, e, k) = bind_some (bit_mask w) _ _ h in
    ones_i w n (==_eq n m (some-injective _ _ k) ∙ bit_mask_lem w m e)
all_ones_const-IsOnes (field_const f) h = absurd (cc)
all_ones_const-IsOnes (fn_ptr n) h = absurd (cc)

module _ {F : Field} {bimap : BiMap (Constant F)} (env : Assignment F) (s : Program bimap)
    (consts : ConstsHold env s) (v : ℕ) where
  pub is_zero-IsZero : is_zero s v ≡ true → IsZero (env v)
  unfolding is_zero
  is_zero-IsZero h = elim (Option-cases (get_const v s)) [
    | inl e ↦ absurd (cc)
    | inr (c, e) ↦ subst IsZero (sym (consts v c e)) (zero_const-IsZero c (rw (e, is_zero) at h))
  ]

  pub is_one-IsOne : is_one s v ≡ true → IsOne (env v)
  unfolding is_one
  is_one-IsOne h = elim (Option-cases (get_const v s)) [
    | inl e ↦ absurd (cc)
    | inr (c, e) ↦ subst IsOne (sym (consts v c e)) (one_const-IsOne c (rw (e, is_one) at h))
  ]

  pub is_all_ones-IsOnes : is_all_ones s v ≡ some true → IsOnes (env v)
  unfolding is_all_ones
  is_all_ones-IsOnes h = elim (Option-cases (get_const v s)) [
    | inl e ↦ absurd (cc)
    | inr (c, e) ↦
        subst IsOnes (sym (consts v c e)) (all_ones_const-IsOnes c (rw (e, is_all_ones) at h))
  ]

module _ {F : Field} where
  pure_zero_lem :
      (x : Constant F) (t : TypeExpr) (c : Constant F)
      → IsZero x
      → has_type t x ≡ true
      → pure_zero t ≡ some c
      → x ≡ c
  unfolding pure_zero has_type
  pure_zero_lem _ (u s) c (at_u w a e) h p =
      ap₂ u_const (ground (arith, h)) e ∙ some-injective _ _ p
  pure_zero_lem _ (i s) c (at_i w a e) h p =
      ap₂ i_const (ground (arith, h)) e ∙ some-injective _ _ p
  pure_zero_lem _ field c (at_field f e) h p = ap field_const e ∙ some-injective _ _ p
  pure_zero_lem _ _ c (at_u w a e) h p = cc
  pure_zero_lem _ _ c (at_i w a e) h p = cc
  pure_zero_lem _ _ c (at_field f e) h p = cc

  pure_one_lem :
      (t : TypeExpr) (c : Constant F)
      → has_type {F = F} t (u_const 1 1) ≡ true
      → pure_one t ≡ some c
      → u_const 1 1 ≡ c
  unfolding pure_one has_type
  pure_one_lem (u s) c h p = ap (λ w. u_const w 1) (ground (arith, h)) ∙ some-injective _ _ p
  pure_one_lem field c h p = cc
  pure_one_lem _ c h p = cc

-- What a rewrite of an instruction with one result may be.
module _ {F : Field} (S : Scalars F) (env : Assignment F) (result : ℕ) where
  unfoldable pub RewriteHolds : Option Rewrite → Type 0
  RewriteHolds none = Unit {0}
  RewriteHolds (some (alias r target)) = (r ≡ result) × (env result ≡ env target)
  RewriteHolds (some (replace ops)) = AllHold S env ops

  module _ {bimap : BiMap (Constant F)} where
    -- Whatever the attempt returns may be, where the constants have their values after it.
    abbrev pub AttemptHolds : Attempt bimap → Type 0
    AttemptHolds a =
        (rewrite : Option Rewrite) (s : Program bimap)
        → a ≡ some (rewrite, s)
        → ConstsHold env s
        → RewriteHolds rewrite

    pub to_alias-Holds :
        (target : ℕ) (s : Program bimap)
        → env result ≡ env target
        → AttemptHolds (to_alias result target s)
    unfolding RewriteHolds
    to_alias-Holds target s e rewrite s1 h consts =
        subst RewriteHolds (ap (λ p. p.0) (some-injective _ _ h)) (refl, e)

    pub no_rewrite-Holds : (s : Program bimap) → AttemptHolds (no_rewrite s)
    unfolding RewriteHolds
    no_rewrite-Holds s rewrite s1 h consts =
        subst RewriteHolds (ap (λ p. p.0) (some-injective _ _ h)) tt

    pub replace-Holds :
        (ops : List OpCode) (s : Program bimap)
        → (ConstsHold env s → AllHold S env ops)
        → AttemptHolds (some (some (replace ops), s))
    unfolding RewriteHolds
    replace-Holds ops s holds rewrite s1 h consts =
        subst RewriteHolds (ap (λ p. p.0) (some-injective _ _ h))
          (holds (subst (ConstsHold env) (sym (ap (λ p. p.1) (some-injective _ _ h))) consts))

    pub if-Holds :
        (b : Bool) (x y : Attempt bimap)
        → (b ≡ true → AttemptHolds x)
        → (b ≡ false → AttemptHolds y)
        → AttemptHolds (if b then x else y)
    if-Holds true x y p q = p refl
    if-Holds false x y p q = q refl

    pub bind-Holds :
        {A : Type 0} (o : Option A) (f : A → Attempt bimap)
        → ((a : A) → o ≡ some a → AttemptHolds (f a))
        → AttemptHolds (o >>= f)
    bind-Holds none f h = λ rewrite s e consts. absurd (none-some e)
    bind-Holds (some a) f h = h a refl

    materialize-Holds :
        (ty : TypeExpr) (value : Constant F) (s : Program bimap)
        → env result ≡ value
        → AttemptHolds (materialize ty result value s)
    unfolding materialize AllHold Holds
    materialize-Holds ty value s e =
        if-Holds (is_witness_of ty) _ _ (λ t. replace-Holds _ _ (λ consts. (casted consts, tt)))
          (λ t rewrite s1 h consts.
            to_alias-Holds _ _ (aliased rewrite s1 h consts) rewrite s1 h consts)
      where
        constant : ConstsHold env ((add_const value s).1) → env result ≡ env ((add_const value s).0)
        constant consts =
            e ∙ sym (consts ((add_const value s).0) value (get_const-add_const_self value s))

        casted :
            ConstsHold env ((add_const value s).1)
            → Holds S env (cast result ((add_const value s).0) to_witness)
        casted consts = constant consts ∙ sym (S.convert-to_witness _)

        aliased :
            (rewrite : Option Rewrite) (s1 : Program bimap)
            → to_alias result ((add_const value s).0) ((add_const value s).1) ≡ some (rewrite, s1)
            → ConstsHold env s1
            → env result ≡ env ((add_const value s).0)
        aliased rewrite s1 h consts =
            constant (subst (ConstsHold env) (sym (ap (λ p. p.1) (some-injective _ _ h))) consts)

    module _ (types : Dict TypeExpr) (typed : IsTyped types env) where
      materialize_const-Holds :
          (pure_value : TypeExpr → Option (Constant F)) (s : Program bimap)
          → ((t : TypeExpr) (c : Constant F)
              → has_type t (env result) ≡ true
              → pure_value t ≡ some c
              → env result ≡ c)
          → AttemptHolds (materialize_const types result pure_value s)
      unfolding materialize_const
      materialize_const-Holds pure_value s agrees = bind-Holds (get result types) _ (λ ty e.
          by_value ty (has_type-strip_witness ty (env result) (typed result ty e))
            (pure_value (strip_witness ty)) refl)
        where
          by_value :
              (ty : TypeExpr)
              → has_type (strip_witness ty) (env result) ≡ true
              → (o : Option (Constant F)) → pure_value (strip_witness ty) ≡ o
              → AttemptHolds
                  (elim o [ none ↦ no_rewrite s | some value ↦ materialize ty result value s ])
          by_value ty h none e = no_rewrite-Holds s
          by_value ty h (some value) e =
              materialize-Holds ty value s (agrees (strip_witness ty) value h e)

      pub materialize_zero-Holds :
          (s : Program bimap) → IsZero (env result) → AttemptHolds (materialize_zero types result s)
      unfolding materialize_zero
      materialize_zero-Holds s zero =
          materialize_const-Holds pure_zero s (λ t c. pure_zero_lem (env result) t c zero)

      pub materialize_one-Holds :
          (s : Program bimap)
          → env result ≡ truth true
          → AttemptHolds (materialize_one types result s)
      unfolding materialize_one
      materialize_one-Holds s one =
          materialize_const-Holds pure_one s
            (λ t c h e. one ∙ pure_one_lem t c (subst (λ x. has_type t x ≡ true) one h) e)
