-- ===== src/Prelude/Field.antt =====
-- The scalar field of the constraint system, `ark_bn254::Fr` in the source: a parameter of the
-- development, with the laws of a commutative ring and a decidable equality. `gf3` shows that the
-- laws can be met.
use mathlib.Core.Path.{◌≡◌, refl}
use native.Mathlib.Omega.{arith}

pub record Field : Type 1 where
  pub Elem : Type 0
  pub nought : Elem
  pub unity : Elem
  infixl 65 ◌⊕◌ ◌⊖◌
  infixl 70 ◌⊗◌
  pub ◌⊕◌ : Elem → Elem → Elem
  pub ◌⊖◌ : Elem → Elem → Elem
  pub ◌⊗◌ : Elem → Elem → Elem
  pub felt_discrete : Discrete Elem
  pub ⊕_assoc : (a b c : Elem) → a ⊕ b ⊕ c ≡ a ⊕ (b ⊕ c)
  pub ⊕_comm : (a b : Elem) → a ⊕ b ≡ b ⊕ a
  pub ⊕-nought : (a : Elem) → a ⊕ nought ≡ a
  pub ⊖-⊕ : (a b : Elem) → a ⊕ b ⊖ b ≡ a
  pub ⊕-⊖ : (a b : Elem) → a ⊖ b ⊕ b ≡ a
  pub ⊗_assoc : (a b c : Elem) → a ⊗ b ⊗ c ≡ a ⊗ (b ⊗ c)
  pub ⊗_comm : (a b : Elem) → a ⊗ b ≡ b ⊗ a
  pub ⊗-unity : (a : Elem) → a ⊗ unity ≡ a
  pub ⊗-⊕ : (a b c : Elem) → a ⊗ (b ⊕ c) ≡ a ⊗ b ⊕ a ⊗ c

-- The field with three elements.
pub data Trit : Type 0 where
  t0 t1 t2 : Trit

abbrev pub next : Trit → Trit
next t0 = t1
next t1 = t2
next t2 = t0

abbrev pub trit_add : Trit → Trit → Trit
trit_add t0 b = b
trit_add t1 b = next b
trit_add t2 b = next (next b)

abbrev pub trit_neg : Trit → Trit
trit_neg t0 = t0
trit_neg t1 = t2
trit_neg t2 = t1

abbrev pub trit_sub : Trit → Trit → Trit
trit_sub a b = trit_add a (trit_neg b)

abbrev pub trit_mul : Trit → Trit → Trit
trit_mul t0 b = t0
trit_mul t1 b = b
trit_mul t2 b = trit_neg b

unfoldable pub trit_discrete : Discrete Trit
trit_discrete t0 t0 = yes refl
trit_discrete t1 t1 = yes refl
trit_discrete t2 t2 = yes refl
trit_discrete t0 t1 = no (λ h. cc)
trit_discrete t0 t2 = no (λ h. cc)
trit_discrete t1 t0 = no (λ h. cc)
trit_discrete t1 t2 = no (λ h. cc)
trit_discrete t2 t0 = no (λ h. cc)
trit_discrete t2 t1 = no (λ h. cc)

pub trit_add_assoc : (a b c : Trit) → trit_add (trit_add a b) c ≡ trit_add a (trit_add b c)
trit_add_assoc a b c = ground arith

pub trit_add_comm : (a b : Trit) → trit_add a b ≡ trit_add b a
trit_add_comm a b = ground arith

pub trit_add_t0 : (a : Trit) → trit_add a t0 ≡ a
trit_add_t0 a = ground arith

pub trit_sub-add : (a b : Trit) → trit_sub (trit_add a b) b ≡ a
trit_sub-add a b = ground arith

pub trit_add-sub : (a b : Trit) → trit_add (trit_sub a b) b ≡ a
trit_add-sub a b = ground arith

pub trit_mul_assoc : (a b c : Trit) → trit_mul (trit_mul a b) c ≡ trit_mul a (trit_mul b c)
trit_mul_assoc a b c = ground arith

pub trit_mul_comm : (a b : Trit) → trit_mul a b ≡ trit_mul b a
trit_mul_comm a b = ground arith

pub trit_mul_t1 : (a : Trit) → trit_mul a t1 ≡ a
trit_mul_t1 a = ground arith

pub trit_mul-add :
    (a b c : Trit) → trit_mul a (trit_add b c) ≡ trit_add (trit_mul a b) (trit_mul a c)
trit_mul-add a b c = ground arith

abbrev pub gf3 : Field
gf3 = record {
  Elem = Trit;
  nought = t0;
  unity = t1;
  ◌⊕◌ = trit_add;
  ◌⊖◌ = trit_sub;
  ◌⊗◌ = trit_mul;
  felt_discrete = trit_discrete;
  ⊕_assoc = trit_add_assoc;
  ⊕_comm = trit_add_comm;
  ⊕-nought = trit_add_t0;
  ⊖-⊕ = trit_sub-add;
  ⊕-⊖ = trit_add-sub;
  ⊗_assoc = trit_mul_assoc;
  ⊗_comm = trit_mul_comm;
  ⊗-unity = trit_mul_t1;
  ⊗-⊕ = trit_mul-add;
}
