-- ===== src/Passes/Simplifier/Inference.antt =====
-- For the tests: an inference of types in the manner of `Types::run_function`
-- (compiler/src/compiler/analysis/types.rs) that knows three instructions, and an assignment of bytes of
-- which what it finds is true.
use mathlib.Core.Option.{some-injective}
use mathlib.Core.Path.{subst}
use mavros.Prelude.{
  ℕ, zero, suc, ◌<◌, ◌≡◌, sym, ap, ◌∙◌, Bool-cases, inl, inr, none-some, Option, true, none, some,
  List, [], ◌∷◌, ◌==◌, if◌then◌else◌, arith, refl,
}
use mavros.Prelude.Field.{gf3}
use mavros.Types.{TypeExpr, field, u, i, function, witness_of, ◌>>=◌, bind_some}
use mavros.Ssa.Dict.{Dict, get, insert, get-insert_cases}
use mavros.Ssa.Constant.{Constant, u_const, i_const, field_const, fn_ptr}
use mavros.Ssa.Op.{OpCode, binary_arith_op, bit_range, assert_cmp}
use mavros.Ssa.BiMap.Log.{log}
use mavros.Ssa.Function.{Function, Block}
use mavros.Ssa.Program.{get_const}
use mavros.Ssa.Meaning.{Assignment, IsTyped, has_type}
use mavros.Ssa.Meaning.Lists.{ParametersTyped, BlocksTyped}
use mavros.Ssa.Meaning.Instance.{scalars, constants}
use mavros.Passes.Simplifier.{Program}
use mavros.Passes.Simplifier.Rules.{ConstsHold}
use mavros.Passes.Simplifier.Repeated.{InfersTypes}

abbrev type_of : Constant gf3 → TypeExpr
type_of (u_const w _) = u w
type_of (i_const w _) = i w
type_of (field_const _) = field
type_of (fn_ptr _) = function

unfoldable add_type : ℕ → Option (Constant gf3) → Dict TypeExpr → Dict TypeExpr
add_type v none d = d
add_type v (some c) d = insert v (type_of c) d

-- The types of the constants below an identifier.
unfoldable const_types : ℕ → Program (log constants) → Dict TypeExpr
unfolding add_type
const_types zero s = []
const_types (suc v) s = add_type v (get_const v s) (const_types v s)

unfoldable parameter_types : List (ℕ × TypeExpr) → Dict TypeExpr → Dict TypeExpr
parameter_types [] d = d
parameter_types ((v, t) ∷ ps) d = parameter_types ps (insert v t d)

unfoldable op_types : List OpCode → Dict TypeExpr → Option (Dict TypeExpr)
op_types [] d = some d
op_types (binary_arith_op _ result lhs _ ∷ ops) d = do
  t ← get lhs d
  op_types ops (insert result t d)
op_types (bit_range result value _ _ ∷ ops) d = do t ← get value d; op_types ops (insert result t d)
op_types (assert_cmp _ _ _ ∷ ops) d = op_types ops d
op_types (_ ∷ ops) d = none

unfoldable block_types : Dict (Block OpCode TypeExpr) → Dict TypeExpr → Option (Dict TypeExpr)
unfolding op_types
block_types [] d = some d
block_types ((_, b) ∷ bs) d = do
  d1 ← op_types (b.instructions) (parameter_types (b.parameters) d)
  block_types bs d1

unfoldable pub infer :
    ℕ → Function OpCode TypeExpr → Program (log constants) → Option (Dict TypeExpr)
unfolding block_types const_types parameter_types
infer function_id f s = block_types (f.blocks) (const_types (s.next_value_id) s)

abbrev pub values : Assignment gf3
values v =
    if v == 0
    then u_const 8 0
    else if v == 1
    then u_const 8 4
    else if v == 5
    then u_const 8 2
    else u_const 8 37

values_byte : (v : ℕ) → (a : ℕ) × (values v ≡ u_const 8 a) × (a < 256)
values_byte v = elim (Bool-cases (v == 0)) [
  | inl p ↦ (0, rw p refl, omega arith)
  | inr p ↦ elim (Bool-cases (v == 1)) [
    | inl q ↦ (4, rw (p, q) refl, omega arith)
    | inr q ↦ elim (Bool-cases (v == 5)) [
      | inl r ↦ (2, rw (p, q, r) refl, omega arith)
      | inr r ↦ (37, rw (p, q, r) refl, omega arith)
    ]
  ]
]

-- What a type says of one byte it says of all.
byte_typed :
    (t : TypeExpr) (a b : ℕ)
    → b < 256
    → has_type {F = gf3} t (u_const 8 a) ≡ true
    → has_type {F = gf3} t (u_const 8 b) ≡ true
unfolding has_type
byte_typed (u n) a b h e = ground arith
byte_typed (witness_of t) a b h e = byte_typed t a b h e
byte_typed (i n) a b h e = e
byte_typed field a b h e = e
byte_typed t a b h e = refl

values_typed :
    (t : TypeExpr) (v w : ℕ) → has_type t (values v) ≡ true → has_type t (values w) ≡ true
values_typed t v w h =
    let (a, p, _) = values_byte v in
    let (b, q, small) = values_byte w in
    ap (has_type t) q ∙ byte_typed t a b small (sym (ap (has_type t) p) ∙ h)

insert-IsTyped :
    (v : ℕ) (t : TypeExpr) (d : Dict TypeExpr)
    → has_type t (values v) ≡ true
    → IsTyped d values
    → IsTyped (insert v t d) values
insert-IsTyped v t d h typed w x e = elim (get-insert_cases w v t x d e) [
  | inl (p, q) ↦ ap (λ y. has_type y (values w)) (sym q) ∙ ap (λ y. has_type t (values y)) p ∙ h
  | inr q ↦ typed w x q
]

type_of-values : (v : ℕ) → has_type (type_of (values v)) (values v) ≡ true
unfolding has_type
type_of-values v =
    let (a, p, small) = values_byte v in
    subst (λ (c : Constant gf3). has_type (type_of c) c ≡ true) (sym p) (ground arith)

add_type-IsTyped :
    (v : ℕ) (o : Option (Constant gf3)) (d : Dict TypeExpr)
    → ((c : Constant gf3) → o ≡ some c → values v ≡ c)
    → IsTyped d values
    → IsTyped (add_type v o d) values
unfolding add_type
add_type-IsTyped v none d h typed = typed
add_type-IsTyped v (some c) d h typed =
    insert-IsTyped v (type_of c) d
      (subst (λ x. has_type (type_of x) (values v) ≡ true) (h c refl) (type_of-values v)) typed

const_types-IsTyped :
    (n : ℕ) (s : Program (log constants)) → ConstsHold values s → IsTyped (const_types n s) values
unfolding const_types
const_types-IsTyped zero s consts = λ v t e. absurd (none-some e)
const_types-IsTyped (suc n) s consts =
    add_type-IsTyped n (get_const n s) (const_types n s) (consts n) (const_types-IsTyped n s consts)

parameter_types-IsTyped :
    (ps : List (ℕ × TypeExpr)) (d : Dict TypeExpr)
    → ParametersTyped values ps
    → IsTyped d values
    → IsTyped (parameter_types ps d) values
unfolding parameter_types ParametersTyped
parameter_types-IsTyped [] d h typed = typed
parameter_types-IsTyped ((v, t) ∷ ps) d h typed =
    parameter_types-IsTyped ps (insert v t d) (h.1) (insert-IsTyped v t d (h.0) typed)

op_types-IsTyped :
    (ops : List OpCode) (d new : Dict TypeExpr)
    → op_types ops d ≡ some new
    → IsTyped d values
    → IsTyped new values
unfolding op_types
op_types-IsTyped [] d new e typed = subst (λ x. IsTyped x values) (some-injective _ _ e) typed
op_types-IsTyped (binary_arith_op _ result lhs _ ∷ ops) d new e typed =
    let (t, e1, k) = bind_some (get lhs d) _ _ e in
    op_types-IsTyped ops (insert result t d) new k
      (insert-IsTyped result t d (values_typed t lhs result (typed lhs t e1)) typed)
op_types-IsTyped (bit_range result value _ _ ∷ ops) d new e typed =
    let (t, e1, k) = bind_some (get value d) _ _ e in
    op_types-IsTyped ops (insert result t d) new k
      (insert-IsTyped result t d (values_typed t value result (typed value t e1)) typed)
op_types-IsTyped (assert_cmp _ _ _ ∷ ops) d new e typed = op_types-IsTyped ops d new e typed
op_types-IsTyped (_ ∷ ops) d new e typed = absurd (none-some e)

block_types-IsTyped :
    (bs : Dict (Block OpCode TypeExpr)) (d new : Dict TypeExpr)
    → block_types bs d ≡ some new
    → BlocksTyped values bs
    → IsTyped d values
    → IsTyped new values
unfolding block_types BlocksTyped
block_types-IsTyped [] d new e h typed = subst (λ x. IsTyped x values) (some-injective _ _ e) typed
block_types-IsTyped ((_, b) ∷ bs) d new e h typed =
    let (d1, e1, k) =
      bind_some (op_types (b.instructions) (parameter_types (b.parameters) d)) _ _ e in
    block_types-IsTyped bs d1 new k (h.1) (
      op_types-IsTyped (b.instructions) (parameter_types (b.parameters) d) d1 e1
        (parameter_types-IsTyped (b.parameters) d (h.0) typed))

pub infer-InfersTypes : (function_id : ℕ) → InfersTypes scalars values (infer function_id)
unfolding infer
infer-InfersTypes function_id f s types e consts parameters define =
    block_types-IsTyped (f.blocks) (const_types (s.next_value_id) s) types e parameters
      (const_types-IsTyped (s.next_value_id) s consts)
