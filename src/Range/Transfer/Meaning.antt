-- ===== src/Range/Transfer/Meaning.antt =====
-- What an instruction of value_range_analysis.rs requires of the values it relates.
use mavros.Prelude.{ℕ, suc, ◌/◌, ◌%◌, ◌^◌, ◌≡◌, ◌⊎◌, false, none, some}
use mavros.Prelude.Int.{ℤ, pos, ◌+ℤ◌, ◌-ℤ◌, ◌*ℤ◌, ◌≤ℤ◌, negate}
use mavros.Types.{TypeExpr, u, i, strip_witness}
use mavros.Range.Interval.{unsigned_full, signed_full, field_top}
use mavros.Range.Interval.Lattice.{Contains}
use mavros.Range.Transfer.{
  CastTarget, to_field, to_u, to_i, to_witness, nop, array_to_slice, BinaryArithOpKind, add_op,
  mul_op, div_op, sub_op, and_op, or_op, xor_op, shl_op, shr_op, mod_op, OpCode, cast, sext,
  bit_range, write_witness, fresh_witness, value_of, cmp, not_op, binary_arith_op, mul_const,
  select, guard, other, Env, State, get, signed_within, type_range,
}

-- Every value lies in its bound.
abbrev pub Covers : State → (ℕ → ℤ) → Type 0
Covers s ρ = (v : ℕ) → Contains (get s v) (ρ v)

-- Every value lies in the range of its type.
abbrev pub Typed : Env → (ℕ → ℤ) → Type 0
Typed env ρ = (v : ℕ) → Contains (type_range env v) (ρ v)

-- A cast keeps the values the target can hold, and gives one of the target's values.
abbrev pub Casts : ℕ → CastTarget → ℤ → ℤ → Type 0
Casts modulus to_field x y = (pos 0 ≤ℤ x → y ≡ x) × Contains (field_top modulus) y
Casts modulus (to_u n) x y = (Contains (unsigned_full n) x → y ≡ x) × Contains (unsigned_full n) y
Casts modulus (to_i n) x y = (Contains (signed_full n) x → y ≡ x) × Contains (signed_full n) y
Casts modulus to_witness x y = y ≡ x
Casts modulus nop x y = y ≡ x
Casts modulus array_to_slice x y = Unit

abbrev pub Inverts : TypeExpr → ℤ → ℤ → Type 0
Inverts (u n) x y = y ≡ (pos (2 ^ n) -ℤ pos 1) -ℤ x
Inverts (i n) x y = y ≡ negate x -ℤ pos 1
Inverts _ x y = Unit

-- An arithmetic instruction that does not wrap, and whose division is that of integers; of the bitwise ones, that AND is at most each
-- operand and that OR and XOR keep the operands' bit length.
abbrev pub Computes : BinaryArithOpKind → ℤ → ℤ → ℤ → Type 0
Computes add_op x y z = z ≡ x +ℤ y
Computes sub_op x y z = z ≡ x -ℤ y
Computes mul_op x y z = z ≡ x *ℤ y
Computes div_op x y z = (n d : ℕ) → x ≡ pos n → y ≡ pos (suc d) → z ≡ pos (n / suc d)
Computes mod_op x y z = (n d : ℕ) → x ≡ pos n → y ≡ pos (suc d) → z ≡ pos (n % suc d)
Computes and_op x y z = pos 0 ≤ℤ x → pos 0 ≤ℤ y → (pos 0 ≤ℤ z) × (z ≤ℤ x) × (z ≤ℤ y)
Computes or_op x y z =
    pos 0 ≤ℤ x
    → pos 0 ≤ℤ y
    → (pos 0 ≤ℤ z)
      × ((k : ℕ)
          → x ≤ℤ pos (2 ^ k) -ℤ pos 1
          → y ≤ℤ pos (2 ^ k) -ℤ pos 1
          → z ≤ℤ pos (2 ^ k) -ℤ pos 1)
Computes xor_op x y z =
    pos 0 ≤ℤ x
    → pos 0 ≤ℤ y
    → (pos 0 ≤ℤ z)
      × ((k : ℕ)
          → x ≤ℤ pos (2 ^ k) -ℤ pos 1
          → y ≤ℤ pos (2 ^ k) -ℤ pos 1
          → z ≤ℤ pos (2 ^ k) -ℤ pos 1)
Computes shl_op x y z = Unit
Computes shr_op x y z = Unit

-- What an instruction requires of the values. The value that `SExt` gives is a signed one of the width it
-- extends; the result of a fresh witness has the type that the instruction names.
abbrev pub Holds : Env → OpCode → (ℕ → ℤ) → Type 0
Holds env (cast r x t) ρ = Casts env.modulus t (ρ x) (ρ r)
Holds env (sext r x n) ρ =
    (Contains (signed_full n) (ρ x) → ρ r ≡ ρ x) × Contains (signed_full n) (ρ r)
Holds env (bit_range r w) ρ =
    signed_within w (strip_witness (env.value_type r)) ≡ false → Contains (unsigned_full w) (ρ r)
Holds env (write_witness (some r) x) ρ = ρ r ≡ ρ x
Holds env (write_witness none x) ρ = Unit
Holds env (fresh_witness r t) ρ = strip_witness (env.value_type r) ≡ strip_witness t
Holds env (value_of r x) ρ = ρ r ≡ ρ x
Holds env (cmp r) ρ = (ρ r ≡ pos 0) ⊎ (ρ r ≡ pos 1)
Holds env (not_op r x) ρ = Inverts (strip_witness (env.value_type r)) (ρ x) (ρ r)
Holds env (binary_arith_op k r x y) ρ = Computes k (ρ x) (ρ y) (ρ r)
Holds env (mul_const r c x) ρ = ρ r ≡ ρ c *ℤ ρ x
Holds env (select r t f) ρ = (ρ r ≡ ρ t) ⊎ (ρ r ≡ ρ f)
Holds env (guard inner) ρ = Holds env inner ρ
Holds env (other rs) ρ = Unit
