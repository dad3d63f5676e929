-- ===== src/Passes/Simplifier/Shift.antt =====
-- A shift by a constant reads a range of digits; the rewrites of all binary operations
-- (compiler/src/compiler/passes/simplifier.rs) together.
use native.Mathlib.Nat.{mod-eq_of_lt, div-lt_iff_lt-mul}
use mathlib.Core.Option.{some-injective}
use mathlib.Core.Path.{subst}
use mavros.Prelude.{
  ℕ, ◌+◌, ◌-◌, ◌*◌, ◌/◌, ◌%◌, ◌^◌, ◌<◌, ◌≡◌, refl, sym, ap, ◌∙◌, inl, inr, true, Option, none, some,
  ltb, arith, lt→ltb, if_some, none-some, zero, suc, Option-cases,
}
use mavros.Prelude.Field.{Field}
use mavros.Types.{TypeExpr, field, u, i, witness_of, strip_witness}
use mavros.Types.Access.{get_bit_size}
use mavros.Range.Transfer.{
  BinaryArithOpKind, add_op, mul_op, div_op, sub_op, and_op, or_op, xor_op, shl_op, shr_op, mod_op,
}
use mavros.Ssa.Dict.{Dict, get}
use mavros.Ssa.Constant.{Constant, u_const, i_const, field_const, fn_ptr}
use mavros.Ssa.BiMap.{BiMap}
use mavros.Ssa.Meaning.{
  Scalars, Assignment, Holds, AllHold, IsTyped, has_type, has_type-strip_witness, eval_binary,
  eval_not, eval_bit_range, fits, unsigned_op,
}
use mavros.Ssa.Meaning.Identities.{shr_zero_right}
use mavros.Passes.Simplifier.{Program, const_as_usize, usize_const}
use mavros.Passes.Simplifier.Algebraic.{shift_range, shift_const, try_shr, try_binary}
use mavros.Passes.Simplifier.Rules.{
  ConstsHold, AttemptHolds, no_rewrite-Holds, replace-Holds, if-Holds, bind-Holds, is_zero-IsZero,
}
use mavros.Ssa.Meaning.Bits.{pow_pos}
use mavros.Ssa.Program.{get_const}
use mavros.Passes.Simplifier.Binary.{
  Says, zero_first, try_add-Holds, try_sub-Holds, try_mul-Holds, try_div-Holds, try_and-Holds,
  try_or-Holds, try_xor-Holds, try_shl-Holds,
}

power_sum : (c b : ℕ) → 2 ^ c * 2 ^ b ≡ 2 ^ (c + b)
power_sum c zero = let p : c + 0 ≡ c = omega arith in rw p (omega arith)
power_sum c (suc b) =
    let p : c + suc b ≡ suc (c + b) = omega arith in rw p (grind (arith, power_sum c b))

-- The digits above an offset are all that a shift leaves.
shifted_below : (w b a : ℕ) → b < w → a < 2 ^ w → a / 2 ^ b < 2 ^ (w - b)
shifted_below w b a h k =
    (div-lt_iff_lt-mul (pow_pos b)).1
      (rw (power_sum (w - b) b) (subst (λ x. a < 2 ^ x) (omega (arith, h)) k))

whole : (w a : ℕ) → a < 2 ^ w → a / 2 ^ 0 % 2 ^ w ≡ a
whole w a h = ap (λ x. x % 2 ^ w) (omega arith) ∙ mod-eq_of_lt h

module _ {F : Field} where
  -- A constant of a machine integer with this number.
  data IsNumber (n : ℕ) : Constant F → Type 0 where
    number_u : (w a : ℕ) → a ≡ n → IsNumber n (u_const w a)
    number_i : (w a : ℕ) → a ≡ n → IsNumber n (i_const w a)

  usize_const-IsNumber : (n : ℕ) (c : Constant F) → usize_const c ≡ some n → IsNumber n c
  unfolding usize_const
  usize_const-IsNumber n (u_const w a) h = number_u w a ((if_some _ _ _ h).1)
  usize_const-IsNumber n (i_const w a) h = number_i w a ((if_some _ _ _ h).1)
  usize_const-IsNumber n (field_const f) h = absurd (none-some h)
  usize_const-IsNumber n (fn_ptr f) h = absurd (none-some h)

  shifted :
      (S : Scalars F) (bits offset : ℕ) (x y z : Constant F)
      → has_type (u bits) x ≡ true
      → IsNumber offset y
      → ltb offset bits ≡ true
      → eval_binary S shr_op x y ≡ some z
      → eval_bit_range offset (bits - offset) x ≡ some z
  unfolding has_type eval_binary eval_bit_range fits unsigned_op
  shifted S bits offset (u_const w a) _ z t (number_u v b e) l h =
      let (f, q) = if_some _ _ _ h in
      let wide : bits ≡ w = ground (arith, t) in
      let below : a < 2 ^ w = ground (arith, f) in
      let less : offset < w = ground (arith, l, t) in
      rw (lt→ltb a (2 ^ w) below) (
        ap (λ x. some (u_const w x))
          (ap (λ x. a / 2 ^ offset % 2 ^ (x - offset)) wide
            ∙ mod-eq_of_lt (shifted_below w offset a less below)
            ∙ ap (λ x. a / 2 ^ x) (sym e))
        ∙ ap some q)
  shifted S bits offset (u_const w a) _ z t (number_i v b e) l h = cc
  shifted S bits offset (i_const w a) _ z t k l h = cc
  shifted S bits offset (field_const f) _ z t k l h = cc
  shifted S bits offset (fn_ptr f) _ z t k l h = cc

  -- Twice the complement, and the whole of the digits.
  pub eval_not_again : (x y z : Constant F) → eval_not x ≡ some y → eval_not y ≡ some z → z ≡ x
  unfolding eval_not
  eval_not_again (u_const w a) y z h k =
      let (f, q) = if_some _ _ _ h in
      let (g, r) = if_some _ _ _ (subst (λ c. eval_not c ≡ some z) (sym q) k) in
      let below : a < 2 ^ w = ground (arith, f) in sym r ∙ ap (u_const w) (omega (arith, below))
  eval_not_again (i_const w a) y z h k =
      let (f, q) = if_some _ _ _ h in
      let (g, r) = if_some _ _ _ (subst (λ c. eval_not c ≡ some z) (sym q) k) in
      let below : a < 2 ^ w = ground (arith, f) in sym r ∙ ap (i_const w) (omega (arith, below))
  eval_not_again (field_const f) y z h k = absurd (none-some h)
  eval_not_again (fn_ptr f) y z h k = absurd (none-some h)

  pub eval_bit_range_whole :
      (t : TypeExpr) (x y : Constant F) (width : ℕ)
      → has_type t x ≡ true
      → get_bit_size t ≡ some width
      → eval_bit_range 0 width x ≡ some y
      → y ≡ x
  unfolding eval_bit_range get_bit_size has_type
  eval_bit_range_whole (u n) (u_const w a) y width t e h =
      let (f, q) = if_some _ _ _ h in
      let below : a < 2 ^ w = ground (arith, f) in
      let wide : width ≡ w = sym (some-injective _ _ e) ∙ ground (arith, t) in
      sym q ∙ ap (u_const w) (rw wide (whole w a below))
  eval_bit_range_whole (i n) (i_const w a) y width t e h =
      let (f, q) = if_some _ _ _ h in
      let below : a < 2 ^ w = ground (arith, f) in
      let wide : width ≡ w = sym (some-injective _ _ e) ∙ ground (arith, t) in
      sym q ∙ ap (i_const w) (rw wide (whole w a below))
  eval_bit_range_whole (witness_of ty) x y width t e h = eval_bit_range_whole ty x y width t e h
  eval_bit_range_whole ty (u_const w a) y width t e h = cc
  eval_bit_range_whole ty (i_const w a) y width t e h = cc
  eval_bit_range_whole ty (field_const f) y width t e h = absurd (none-some h)
  eval_bit_range_whole ty (fn_ptr f) y width t e h = absurd (none-some h)

module _ {F : Field} (S : Scalars F) (env : Assignment F) {bimap : BiMap (Constant F)}
    (s : Program bimap) (consts : ConstsHold env s) (types : Dict TypeExpr)
    (typed : IsTyped types env) where
  const_as_usize-IsNumber : (v n : ℕ) → const_as_usize s v ≡ some n → IsNumber n (env v)
  unfolding const_as_usize
  const_as_usize-IsNumber v n h = elim (Option-cases (get_const v s)) [
    | inl e ↦ absurd (none-some (rw (e, const_as_usize) at h))
    | inr (c, e) ↦
        subst (IsNumber n) (sym (consts v c e))
          (usize_const-IsNumber n c (rw (e, const_as_usize) at h))
  ]

  shift_range-Holds :
      (r l q offset : ℕ) (t : TypeExpr)
      → has_type t (env l) ≡ true
      → IsNumber offset (env q)
      → Says S env s consts types typed shr_op r l q
      → AttemptHolds S env r (shift_range r l offset t s)
  unfolding shift_range AllHold Holds
  shift_range-Holds r l q offset (u bits) t n h =
      if-Holds S env r (ltb offset bits) _ _
        (λ k.
          replace-Holds S env r _ s
            (λ x. (shifted S bits offset (env l) (env q) (env r) t n k h, tt)))
        (λ k. no_rewrite-Holds S env r s)
  shift_range-Holds r l q offset field t n h = no_rewrite-Holds S env r s
  shift_range-Holds r l q offset _ t n h = no_rewrite-Holds S env r s

  shift_const-Holds :
      (r l q : ℕ) (o : Option ℕ)
      → const_as_usize s q ≡ o
      → Says S env s consts types typed shr_op r l q
      → AttemptHolds S env r (shift_const types r l o s)
  unfolding shift_const
  shift_const-Holds r l q none e h = no_rewrite-Holds S env r s
  shift_const-Holds r l q (some offset) e h = bind-Holds S env r (get l types) _ (λ t k.
      shift_range-Holds r l q offset (strip_witness t)
        (has_type-strip_witness t (env l) (typed l t k)) (const_as_usize-IsNumber q offset e) h)

  try_shr-Holds :
      (r l q : ℕ)
      → Says S env s consts types typed shr_op r l q
      → AttemptHolds S env r (try_shr types r l q s)
  unfolding try_shr
  try_shr-Holds r l q h =
      zero_first S env s consts types typed r q l _
        (λ t. shr_zero_right S _ _ _ (is_zero-IsZero env s consts q t) h)
        (shift_const-Holds r l q (const_as_usize s q) refl h)

  pub try_binary-Holds :
      (kind : BinaryArithOpKind) (r l q : ℕ)
      → Says S env s consts types typed kind r l q
      → AttemptHolds S env r (try_binary types kind r l q s)
  unfolding try_binary
  try_binary-Holds add_op = try_add-Holds S env s consts types typed
  try_binary-Holds sub_op = try_sub-Holds S env s consts types typed
  try_binary-Holds mul_op = try_mul-Holds S env s consts types typed
  try_binary-Holds div_op = try_div-Holds S env s consts types typed
  try_binary-Holds and_op = try_and-Holds S env s consts types typed
  try_binary-Holds or_op = try_or-Holds S env s consts types typed
  try_binary-Holds xor_op = try_xor-Holds S env s consts types typed
  try_binary-Holds shl_op = try_shl-Holds S env s consts types typed
  try_binary-Holds shr_op = try_shr-Holds
  try_binary-Holds mod_op = λ r l q h. no_rewrite-Holds S env r s
