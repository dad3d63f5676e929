-- ===== src/Ssa/Meaning.antt =====
-- The meaning of the scalar instructions of the high-level SSA: which values of its operands an
-- instruction admits. The passes are proved against it. It is a specification; what the passes read
-- nothing of (the order, division in the field, signed division, conversions, the instructions on
-- other data) is a record of parameters with the laws that the passes rely on.
pub mod Bits
pub mod Laws
pub mod Identities
pub mod Lists
pub mod Instance
use mavros.Prelude.{
  ◌↔◌, ℕ, zero, suc, ◌+◌, ◌-◌, ◌*◌, ◌/◌, ◌%◌, ◌^◌, ◌<◌, ◌≡◌, Bool, true, false, ◌&&◌, Option, none,
  some, List, [], ◌∷◌, ◌==◌, ◌≢◌, ◌⊎◌, ltb, if◌then◌else◌,
}
use mavros.Prelude.Field.{Field}
use mavros.Types.{TypeExpr, field, u, i, witness_of, array, strip_witness}
use mavros.Range.Transfer.{
  BinaryArithOpKind, add_op, mul_op, div_op, sub_op, and_op, or_op, xor_op, shl_op, shr_op, mod_op,
  CastTarget, nop, to_witness,
}
use mavros.Ssa.Dict.{Dict, get}
use mavros.Ssa.Constant.{Constant, u_const, i_const, field_const, fn_ptr}
use mavros.Ssa.Op.{
  OpCode, lt, eq, cmp, binary_arith_op, cast, not_op, bit_range, select, assert, assert_cmp,
  assert_r1c, value_of, write_witness, mul_const,
}
use mavros.Ssa.Op.Mutate.{map_inputs}
use mavros.Ssa.Meaning.Bits.{bitwise, and_digit, or_digit, xor_digit}

pub record Scalars (F : Field) : Type 1 where
  pub less : Constant F → Constant F → Bool
  pub field_div : F.Elem → F.Elem → F.Elem
  pub signed_div : (width a b : ℕ) → ℕ
  pub signed_mod : (width a b : ℕ) → ℕ
  pub signed_shr : (width a b : ℕ) → ℕ
  pub convert : CastTarget → Constant F → Constant F
  -- The instructions that are not scalar.
  pub other : OpCode → (ℕ → Constant F) → Type 0
  pub field_div-unity : (a : F.Elem) → field_div a (F.unity) ≡ a
  pub signed_div_one : (width a : ℕ) → a < 2 ^ width → signed_div width a 1 ≡ a
  pub signed_shr_zero : (width a : ℕ) → a < 2 ^ width → signed_shr width a 0 ≡ a
  pub convert-nop : (c : Constant F) → convert nop c ≡ c
  pub convert-to_witness : (c : Constant F) → convert to_witness c ≡ c
  -- Which values an instruction reads is all that matters, not how they are named.
  pub other-map_inputs :
      (f : ℕ → ℕ) (op : OpCode) (env : ℕ → Constant F)
      → ((v : ℕ) → env (f v) ≡ env v)
      → other (map_inputs f op) env ↔ other op env
  pub convert_again : (t : CastTarget) (c : Constant F) → convert t (convert t c) ≡ convert t c

-- Both operands are words of their widths, which are the same but for a shift; a divisor is not 0.
unfoldable pub fits : BinaryArithOpKind → (w v a b : ℕ) → Bool
fits shl_op w v a b = ltb a (2 ^ w) && ltb b (2 ^ v)
fits shr_op w v a b = ltb a (2 ^ w) && ltb b (2 ^ v)
fits div_op w v a b = w == v && ltb a (2 ^ w) && ltb b (2 ^ v) && ltb 0 b
fits mod_op w v a b = w == v && ltb a (2 ^ w) && ltb b (2 ^ v) && ltb 0 b
fits _ w v a b = w == v && ltb a (2 ^ w) && ltb b (2 ^ v)

unfoldable pub unsigned_op : BinaryArithOpKind → (width a b : ℕ) → ℕ
unfolding bitwise
unsigned_op add_op w a b = (a + b) % 2 ^ w
unsigned_op mul_op w a b = (a * b) % 2 ^ w
unsigned_op div_op w a b = a / b
unsigned_op sub_op w a b = (a + 2 ^ w - b) % 2 ^ w
unsigned_op and_op w a b = bitwise and_digit w a b
unsigned_op or_op w a b = bitwise or_digit w a b
unsigned_op xor_op w a b = bitwise xor_digit w a b
unsigned_op shl_op w a b = (a * 2 ^ b) % 2 ^ w
unsigned_op shr_op w a b = a / 2 ^ b
unsigned_op mod_op w a b = a % b

module _ {F : Field} (S : Scalars F) where
  unfoldable pub signed_op : BinaryArithOpKind → (width a b : ℕ) → ℕ
  unfolding unsigned_op
  signed_op div_op w a b = S.signed_div w a b
  signed_op mod_op w a b = S.signed_mod w a b
  signed_op shr_op w a b = S.signed_shr w a b
  signed_op kind w a b = unsigned_op kind w a b

  unfoldable pub field_op : BinaryArithOpKind → F.Elem → F.Elem → Option (Constant F)
  field_op add_op a b = some (field_const (F.◌⊕◌ a b))
  field_op sub_op a b = some (field_const (F.◌⊖◌ a b))
  field_op mul_op a b = some (field_const (F.◌⊗◌ a b))
  field_op div_op a b = some (field_const (S.field_div a b))
  field_op _ a b = none

  unfoldable pub eval_binary : BinaryArithOpKind → Constant F → Constant F → Option (Constant F)
  unfolding unsigned_op signed_op field_op fits
  eval_binary kind (u_const w a) (u_const v b) =
      if fits kind w v a b then some (u_const w (unsigned_op kind w a b)) else none
  eval_binary kind (i_const w a) (i_const v b) =
      if fits kind w v a b then some (i_const w (signed_op kind w a b)) else none
  eval_binary kind (field_const a) (field_const b) = field_op kind a b
  eval_binary kind _ _ = none

abbrev pub Assignment : Field → Type 0
Assignment F = ℕ → Constant F

module _ {F : Field} where
  -- Every digit of a word flipped.
  unfoldable pub eval_not : Constant F → Option (Constant F)
  eval_not (u_const w a) = if ltb a (2 ^ w) then some (u_const w (2 ^ w - 1 - a)) else none
  eval_not (i_const w a) = if ltb a (2 ^ w) then some (i_const w (2 ^ w - 1 - a)) else none
  eval_not _ = none

  -- `width` digits from `offset` on, in the width of the operand.
  unfoldable pub eval_bit_range : (offset width : ℕ) → Constant F → Option (Constant F)
  eval_bit_range offset width (u_const w a) =
      if ltb a (2 ^ w) then some (u_const w ((a / 2 ^ offset) % 2 ^ width)) else none
  eval_bit_range offset width (i_const w a) =
      if ltb a (2 ^ w) then some (i_const w ((a / 2 ^ offset) % 2 ^ width)) else none
  eval_bit_range offset width _ = none

  abbrev pub truth : Bool → Constant F
  truth true = u_const 1 1
  truth false = u_const 1 0

  -- What a type says of a scalar. `WitnessOf` says nothing.
  unfoldable pub has_type : TypeExpr → Constant F → Bool
  has_type (u w) (u_const v a) = w == v && ltb a (2 ^ w)
  has_type (i w) (i_const v a) = w == v && ltb a (2 ^ w)
  has_type field (field_const a) = true
  has_type (witness_of t) c = has_type t c
  has_type (u w) _ = false
  has_type (i w) _ = false
  has_type field _ = false
  has_type _ _ = true

  pub has_type-strip_witness :
      (t : TypeExpr) (c : Constant F) → has_type t c ≡ true → has_type (strip_witness t) c ≡ true
  unfolding has_type strip_witness
  has_type-strip_witness (witness_of t) c h = h
  has_type-strip_witness field c h = h
  has_type-strip_witness _ c h = h

  abbrev pub IsTyped : Dict TypeExpr → Assignment F → Type 0
  IsTyped types env = (v : ℕ) (t : TypeExpr) → get v types ≡ some t → has_type t (env v) ≡ true

module _ {F : Field} (S : Scalars F) where
  unfoldable pub Holds : Assignment F → OpCode → Type 0
  unfolding eval_binary eval_not eval_bit_range
  Holds env (cmp lt result lhs rhs) = env result ≡ truth (S.less (env lhs) (env rhs))
  Holds env (cmp eq result lhs rhs) =
      ((env result ≡ truth true) × (env lhs ≡ env rhs))
      ⊎ ((env result ≡ truth false) × (env lhs ≢ env rhs))
  Holds env (binary_arith_op kind result lhs rhs) =
      eval_binary S kind (env lhs) (env rhs) ≡ some (env result)
  Holds env (cast result value target) = env result ≡ S.convert target (env value)
  Holds env (not_op result value) = eval_not (env value) ≡ some (env result)
  Holds env (bit_range result value offset width) =
      eval_bit_range offset width (env value) ≡ some (env result)
  Holds env (select result cond if_t if_f) =
      ((env cond ≡ truth true) × (env result ≡ env if_t))
      ⊎ ((env cond ≡ truth false) × (env result ≡ env if_f))
  Holds env (assert value) = env value ≡ truth true
  Holds env (assert_cmp lt lhs rhs) = S.less (env lhs) (env rhs) ≡ true
  Holds env (assert_cmp eq lhs rhs) = env lhs ≡ env rhs
  Holds env (assert_r1c a b c) = eval_binary S mul_op (env a) (env b) ≡ some (env c)
  Holds env (value_of result value) = env result ≡ env value
  Holds env (write_witness (some result) value pinned) = env result ≡ env value
  Holds env (mul_const result const_val var) =
      eval_binary S mul_op (env const_val) (env var) ≡ some (env result)
  Holds env op = S.other op env

  -- Every instruction of a list holds.
  unfoldable pub AllHold : Assignment F → List OpCode → Type 0
  unfolding Holds
  AllHold env [] = Unit {0}
  AllHold env (op ∷ ops) = Holds env op × AllHold env ops
