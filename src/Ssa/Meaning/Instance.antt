-- ===== src/Ssa/Meaning/Instance.antt =====
-- Parameters of the meaning that meet their laws, over the field with three elements.
use mavros.Prelude.{◌==◌, Bool, true, ◌&&◌, ℕ, ◌/◌, ◌%◌, ◌^◌, ◌≡◌, ◌<◌, refl, false, arith}
use mavros.Ssa.Constant.{Constant, u_const, i_const, field_const, fn_ptr}
use mavros.Ssa.BiMap.Log.{Equality}
use mavros.Prelude.Field.{trit_discrete, gf3}
use mavros.Ssa.Meaning.{Scalars}

pub by_one : (width a : ℕ) → a < 2 ^ width → a / 1 ≡ a
by_one width a h = omega arith

pub by_none : (width a : ℕ) → a < 2 ^ width → a / 2 ^ 0 ≡ a
by_none width a h = omega arith

abbrev pub scalars : Scalars gf3
scalars = record {
  less = λ a b. false;
  field_div = λ a b. a;
  signed_div = λ width a b. a / b;
  signed_mod = λ width a b. a % b;
  signed_shr = λ width a b. a / 2 ^ b;
  convert = λ t c. c;
  other = λ op env. Unit {0};
  field_div-unity = λ a. refl;
  signed_div_one = by_one;
  signed_shr_zero = by_none;
  convert-nop = λ c. refl;
  convert-to_witness = λ c. refl;
  other-map_inputs = λ f op env h. (λ k. tt, λ k. tt);
  convert_again = λ t c. refl;
}

-- Constants over that field are told apart.
unfoldable pub same_const : Constant gf3 → Constant gf3 → Bool
same_const (u_const w a) (u_const v b) = w == v && a == b
same_const (i_const w a) (i_const v b) = w == v && a == b
same_const (field_const a) (field_const b) = elim (trit_discrete a b) [
  | yes _ ↦ true
  | no _ ↦ false
]
same_const (fn_ptr a) (fn_ptr b) = a == b
same_const _ _ = false

pub same_const_eq : (a b : Constant gf3) → same_const a b ≡ true → a ≡ b
unfolding same_const trit_discrete
same_const_eq (u_const w a) (u_const v b) h = ground (arith, h)
same_const_eq (i_const w a) (i_const v b) h = ground (arith, h)
same_const_eq (field_const a) (field_const b) h = ground (arith, h)
same_const_eq (fn_ptr a) (fn_ptr b) h = ground (arith, h)
same_const_eq _ _ h = cc

pub same_const_self : (a : Constant gf3) → same_const a a ≡ true
unfolding same_const trit_discrete
same_const_self (u_const w a) = ground arith
same_const_self (i_const w a) = ground arith
same_const_self (field_const a) = ground arith
same_const_self (fn_ptr a) = ground arith

abbrev pub constants : Equality (Constant gf3)
constants = record { same = same_const; same_eq = same_const_eq; same_self = same_const_self }
