-- ===== src/Ssa/Meaning/Identities.antt =====
-- The identities of the binary operations at 0, at 1, at the word of ones and at equal operands.
use native.Mathlib.Nat.{mod-eq_of_lt, add-mod_right, mod_self}
use mathlib.Core.Option.{some-injective}
use mavros.Prelude.{ℕ, ◌+◌, ◌-◌, ◌*◌, ◌%◌, ◌^◌, ◌<◌, ◌≡◌, refl, sym, ap, ◌∙◌, some, arith}
use mavros.Prelude.Field.{Field}
use mavros.Range.Transfer.{add_op, mul_op, div_op, sub_op, and_op, or_op, xor_op, shl_op, shr_op}
use mavros.Ssa.Constant.{Constant, u_const, i_const, field_const, fn_ptr}
use mavros.Ssa.Meaning.{Scalars, eval_binary, unsigned_op, signed_op, field_op}
use mavros.Ssa.Meaning.Bits.{
  bitwise, and_digit, bitwise_and_zero, bitwise_zero_and, bitwise_or_zero, bitwise_zero_or,
  bitwise_xor_zero, bitwise_zero_xor, bitwise_xor_self, bitwise_and_self, bitwise_or_self,
  bitwise_and_mask, bitwise_mask_and, pow_pos,
}
use mavros.Ssa.Meaning.Laws.{
  IsAt, at_u, at_i, at_field, nought-⊕, ⊖_self, ⊖-nought, ⊗-nought, nought-⊗, unity-⊗, word_left,
  word_same, word_right, left_gives_right, left_gives_left, right_gives_left, right_gives_right,
}

abbrev pub IsZero : {F : Field} → Constant F → Type 0
IsZero {F} = IsAt 0 (F.nought)

abbrev pub IsOne : {F : Field} → Constant F → Type 0
IsOne {F} = IsAt 1 (F.unity)

-- A remainder that a term equal to a word has.
kept : (w a t : ℕ) → t ≡ a → a < 2 ^ w → t % 2 ^ w ≡ a
kept w a t e k = ap (λ x. x % 2 ^ w) e ∙ mod-eq_of_lt k

times_one : (w a : ℕ) → a < 2 ^ w → a * 1 % 2 ^ w ≡ a
times_one w a k = kept w a (a * 1) (omega arith) k

one_times : (w a : ℕ) → a < 2 ^ w → 1 * a % 2 ^ w ≡ a
one_times w a k = kept w a (1 * a) (omega arith) k

minus_nought : (w a : ℕ) → a < 2 ^ w → (a + 2 ^ w - 0) % 2 ^ w ≡ a
minus_nought w a k = ap (λ x. x % 2 ^ w) (omega arith) ∙ add-mod_right a (2 ^ w) ∙ mod-eq_of_lt k

module _ {F : Field} (S : Scalars F) where
  felt : (f g : F.Elem) (z : Constant F) → f ≡ g → some (field_const f) ≡ some z → z ≡ field_const g
  felt f g z e h = sym (some-injective _ _ h) ∙ ap field_const e

  pub add_zero_left : (x y z : Constant F) → IsZero x → eval_binary S add_op x y ≡ some z → z ≡ y
  unfolding unsigned_op signed_op field_op
  add_zero_left =
      left_gives_right S add_op 0 (F.nought) refl (λ w b k. kept w b (0 + b) (omega arith) k)
        (λ w b k. kept w b (0 + b) (omega arith) k) (λ b z h. felt _ _ z (nought-⊕ F b) h)

  pub add_zero_right : (x y z : Constant F) → IsZero y → eval_binary S add_op x y ≡ some z → z ≡ x
  unfolding unsigned_op signed_op field_op
  add_zero_right =
      right_gives_left S add_op 0 (F.nought) (λ w a k. kept w a (a + 0) (omega arith) k)
        (λ w a k. kept w a (a + 0) (omega arith) k) (λ a z h. felt _ _ z (F.⊕-nought a) h)

  pub sub_zero_right : (x y z : Constant F) → IsZero y → eval_binary S sub_op x y ≡ some z → z ≡ x
  unfolding unsigned_op signed_op field_op
  sub_zero_right =
      right_gives_left S sub_op 0 (F.nought) minus_nought minus_nought
        (λ a z h. felt _ _ z (⊖-nought F a) h)

  pub mul_zero_left : (x y z : Constant F) → IsZero x → eval_binary S mul_op x y ≡ some z → z ≡ x
  unfolding unsigned_op signed_op field_op
  mul_zero_left =
      left_gives_left S mul_op 0 (F.nought) (λ w b. kept w 0 (0 * b) (omega arith) (pow_pos w))
        (λ w b. kept w 0 (0 * b) (omega arith) (pow_pos w)) (λ b z h. felt _ _ z (nought-⊗ F b) h)

  pub mul_zero_right : (x y z : Constant F) → IsZero y → eval_binary S mul_op x y ≡ some z → z ≡ y
  unfolding unsigned_op signed_op field_op
  mul_zero_right =
      right_gives_right S mul_op 0 (F.nought) refl
        (λ w a k. kept w 0 (a * 0) (omega arith) (pow_pos w))
        (λ w a k. kept w 0 (a * 0) (omega arith) (pow_pos w)) (λ a z h. felt _ _ z (⊗-nought F a) h)

  pub mul_one_left : (x y z : Constant F) → IsOne x → eval_binary S mul_op x y ≡ some z → z ≡ y
  unfolding unsigned_op signed_op field_op
  mul_one_left =
      left_gives_right S mul_op 1 (F.unity) refl one_times one_times
        (λ b z h. felt _ _ z (unity-⊗ F b) h)

  pub mul_one_right : (x y z : Constant F) → IsOne y → eval_binary S mul_op x y ≡ some z → z ≡ x
  unfolding unsigned_op signed_op field_op
  mul_one_right =
      right_gives_left S mul_op 1 (F.unity) times_one times_one
        (λ a z h. felt _ _ z (F.⊗-unity a) h)

  pub div_one_right : (x y z : Constant F) → IsOne y → eval_binary S div_op x y ≡ some z → z ≡ x
  unfolding unsigned_op signed_op field_op
  div_one_right =
      right_gives_left S div_op 1 (F.unity) (λ w a k. omega arith) (S.signed_div_one)
        (λ a z h. felt _ _ z (S.field_div-unity a) h)

  pub and_zero_left : (x y z : Constant F) → IsZero x → eval_binary S and_op x y ≡ some z → z ≡ x
  unfolding unsigned_op signed_op field_op
  and_zero_left =
      left_gives_left S and_op 0 (F.nought) bitwise_zero_and bitwise_zero_and (λ b z h. cc)

  pub and_zero_right : (x y z : Constant F) → IsZero y → eval_binary S and_op x y ≡ some z → z ≡ y
  unfolding unsigned_op signed_op field_op
  and_zero_right =
      right_gives_right S and_op 0 (F.nought) refl (λ w a k. bitwise_and_zero w a)
        (λ w a k. bitwise_and_zero w a) (λ a z h. cc)

  pub or_zero_left : (x y z : Constant F) → IsZero x → eval_binary S or_op x y ≡ some z → z ≡ y
  unfolding unsigned_op signed_op field_op
  or_zero_left =
      left_gives_right S or_op 0 (F.nought) refl bitwise_zero_or bitwise_zero_or (λ b z h. cc)

  pub or_zero_right : (x y z : Constant F) → IsZero y → eval_binary S or_op x y ≡ some z → z ≡ x
  unfolding unsigned_op signed_op field_op
  or_zero_right =
      right_gives_left S or_op 0 (F.nought) bitwise_or_zero bitwise_or_zero (λ a z h. cc)

  pub xor_zero_left : (x y z : Constant F) → IsZero x → eval_binary S xor_op x y ≡ some z → z ≡ y
  unfolding unsigned_op signed_op field_op
  xor_zero_left =
      left_gives_right S xor_op 0 (F.nought) refl bitwise_zero_xor bitwise_zero_xor (λ b z h. cc)

  pub xor_zero_right : (x y z : Constant F) → IsZero y → eval_binary S xor_op x y ≡ some z → z ≡ x
  unfolding unsigned_op signed_op field_op
  xor_zero_right =
      right_gives_left S xor_op 0 (F.nought) bitwise_xor_zero bitwise_xor_zero (λ a z h. cc)

  pub shl_zero_right : (x y z : Constant F) → IsZero y → eval_binary S shl_op x y ≡ some z → z ≡ x
  unfolding unsigned_op signed_op field_op
  shl_zero_right = right_gives_left S shl_op 0 (F.nought) times_one times_one (λ a z h. cc)

  pub shr_zero_right : (x y z : Constant F) → IsZero y → eval_binary S shr_op x y ≡ some z → z ≡ x
  unfolding unsigned_op signed_op field_op
  shr_zero_right =
      right_gives_left S shr_op 0 (F.nought) (λ w a k. omega arith) (S.signed_shr_zero)
        (λ a z h. cc)

  -- Equal operands.
  pub and_self : (x z : Constant F) → eval_binary S and_op x x ≡ some z → z ≡ x
  unfolding unsigned_op signed_op field_op eval_binary
  and_self (u_const w a) z h =
      word_left and_op u_const (unsigned_op and_op) w w a a a z (λ k j. bitwise_and_self w a k) h
  and_self (i_const w a) z h =
      word_left and_op i_const (signed_op S and_op) w w a a a z (λ k j. bitwise_and_self w a k) h
  and_self (field_const a) z h = cc
  and_self (fn_ptr n) z h = cc

  pub or_self : (x z : Constant F) → eval_binary S or_op x x ≡ some z → z ≡ x
  unfolding unsigned_op signed_op field_op eval_binary
  or_self (u_const w a) z h =
      word_left or_op u_const (unsigned_op or_op) w w a a a z (λ k j. bitwise_or_self w a k) h
  or_self (i_const w a) z h =
      word_left or_op i_const (signed_op S or_op) w w a a a z (λ k j. bitwise_or_self w a k) h
  or_self (field_const a) z h = cc
  or_self (fn_ptr n) z h = cc

  less_self : (w a : ℕ) → (a + 2 ^ w - a) % 2 ^ w ≡ 0
  less_self w a = ap (λ t. t % 2 ^ w) (omega arith) ∙ mod_self (2 ^ w)

  pub sub_self : (x z : Constant F) → eval_binary S sub_op x x ≡ some z → IsZero z
  unfolding unsigned_op signed_op field_op eval_binary
  sub_self (u_const w a) z h =
      rw (word_left sub_op u_const (unsigned_op sub_op) w w a a 0 z (λ k j. less_self w a) h)
        (at_u w 0 refl)
  sub_self (i_const w a) z h =
      rw (word_left sub_op i_const (signed_op S sub_op) w w a a 0 z (λ k j. less_self w a) h)
        (at_i w 0 refl)
  sub_self (field_const a) z h = rw (felt _ _ z (⊖_self F a) h) (at_field (F.nought) refl)
  sub_self (fn_ptr n) z h = absurd (cc)

  pub xor_self : (x z : Constant F) → eval_binary S xor_op x x ≡ some z → IsZero z
  unfolding unsigned_op signed_op field_op eval_binary
  xor_self (u_const w a) z h =
      rw (word_left xor_op u_const (unsigned_op xor_op) w w a a 0 z (λ k j. bitwise_xor_self w a) h)
        (at_u w 0 refl)
  xor_self (i_const w a) z h =
      rw (word_left xor_op i_const (signed_op S xor_op) w w a a 0 z (λ k j. bitwise_xor_self w a) h)
        (at_i w 0 refl)
  xor_self (field_const a) z h = absurd (cc)
  xor_self (fn_ptr n) z h = absurd (cc)

-- A word of ones.
pub data IsOnes {F : Field} : Constant F → Type 0 where
  ones_u : (w a : ℕ) → a ≡ 2 ^ w - 1 → IsOnes (u_const w a)
  ones_i : (w a : ℕ) → a ≡ 2 ^ w - 1 → IsOnes (i_const w a)

module _ {F : Field} (S : Scalars F) where
  pub and_ones_left : (x y z : Constant F) → IsOnes x → eval_binary S and_op x y ≡ some z → z ≡ y
  unfolding unsigned_op signed_op field_op eval_binary
  and_ones_left _ (u_const v b) z (ones_u w a e) h =
      word_right and_op u_const (unsigned_op and_op) w v a b b z refl
        (λ k j. ap (λ t. unsigned_op and_op w t b) e ∙ bitwise_mask_and w b j) h
  and_ones_left _ (i_const v b) z (ones_i w a e) h =
      word_right and_op i_const (signed_op S and_op) w v a b b z refl
        (λ k j. ap (λ t. signed_op S and_op w t b) e ∙ bitwise_mask_and w b j) h
  and_ones_left _ _ z (ones_u _ _ _) h = cc
  and_ones_left _ _ z (ones_i _ _ _) h = cc

  pub and_ones_right : (x y z : Constant F) → IsOnes y → eval_binary S and_op x y ≡ some z → z ≡ x
  unfolding unsigned_op signed_op field_op eval_binary
  and_ones_right (u_const w a) _ z (ones_u v b e) h =
      word_same and_op u_const (unsigned_op and_op) w v a b a z refl
        (λ same k.
          ap (bitwise and_digit w a) (e ∙ ap (λ x. 2 ^ x - 1) (sym same)) ∙ bitwise_and_mask w a k)
        h
  and_ones_right (i_const w a) _ z (ones_i v b e) h =
      word_same and_op i_const (signed_op S and_op) w v a b a z refl
        (λ same k.
          ap (bitwise and_digit w a) (e ∙ ap (λ x. 2 ^ x - 1) (sym same)) ∙ bitwise_and_mask w a k)
        h
  and_ones_right _ _ z (ones_u _ _ _) h = cc
  and_ones_right _ _ z (ones_i _ _ _) h = cc
