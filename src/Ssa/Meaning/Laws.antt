-- ===== src/Ssa/Meaning/Laws.antt =====
-- How an operation with a special operand gives one of its operands, from what it does on numbers.
use mavros.Prelude.{
  ℕ, ◌^◌, ◌<◌, ◌≡◌, sym, ap, ◌∙◌, Bool, true, false, none, some, if_some, arith, if◌then◌else◌,
}
use mavros.Prelude.Field.{Field}
use mavros.Range.Transfer.{BinaryArithOpKind, add_op, shl_op, shr_op}
use mavros.Ssa.Constant.{Constant, u_const, i_const, field_const}
use mavros.Ssa.Meaning.{Scalars, eval_binary, fits, unsigned_op, signed_op, field_op}

-- `is_zero` and its like on numbers and words: what a constant is at.
pub data IsAt {F : Field} (n : ℕ) (e : F.Elem) : Constant F → Type 0 where
  at_u : (w a : ℕ) → a ≡ n → IsAt n e (u_const w a)
  at_i : (w a : ℕ) → a ≡ n → IsAt n e (i_const w a)
  at_field : (f : F.Elem) → f ≡ e → IsAt n e (field_const f)

module _ (F : Field) where
  pub nought-⊕ : (a : F.Elem) → F.◌⊕◌ (F.nought) a ≡ a
  nought-⊕ a = F.⊕_comm (F.nought) a ∙ F.⊕-nought a

  pub ⊖_self : (a : F.Elem) → F.◌⊖◌ a a ≡ F.nought
  ⊖_self a = ap (λ x. F.◌⊖◌ x a) (sym (nought-⊕ a)) ∙ F.⊖-⊕ (F.nought) a

  pub ⊖-nought : (a : F.Elem) → F.◌⊖◌ a (F.nought) ≡ a
  ⊖-nought a = ap (λ x. F.◌⊖◌ x (F.nought)) (sym (F.⊕-nought a)) ∙ F.⊖-⊕ a (F.nought)

  pub ⊗-nought : (a : F.Elem) → F.◌⊗◌ a (F.nought) ≡ F.nought
  ⊗-nought a =
      sym (F.⊖-⊕ (F.◌⊗◌ a (F.nought)) (F.◌⊗◌ a (F.nought)))
      ∙ ap (λ x. F.◌⊖◌ x (F.◌⊗◌ a (F.nought)))
          (sym (F.⊗-⊕ a (F.nought) (F.nought)) ∙ ap (F.◌⊗◌ a) (F.⊕-nought (F.nought)))
      ∙ ⊖_self (F.◌⊗◌ a (F.nought))

  pub nought-⊗ : (a : F.Elem) → F.◌⊗◌ (F.nought) a ≡ F.nought
  nought-⊗ a = F.⊗_comm (F.nought) a ∙ ⊗-nought a

  pub unity-⊗ : (a : F.Elem) → F.◌⊗◌ (F.unity) a ≡ a
  unity-⊗ a = F.⊗_comm (F.unity) a ∙ F.⊗-unity a

abbrev pub is_shift : BinaryArithOpKind → Bool
is_shift shl_op = true
is_shift shr_op = true
is_shift _ = false

pub fits_bounds :
    (kind : BinaryArithOpKind) (w v a b : ℕ) → fits kind w v a b ≡ true → (a < 2 ^ w) × (b < 2 ^ v)
unfolding fits
fits_bounds add_op w v a b h = (ground arith, ground arith)
fits_bounds _ w v a b h = (ground arith, ground arith)

pub fits_width :
    (kind : BinaryArithOpKind) (w v a b : ℕ)
    → is_shift kind ≡ false
    → fits kind w v a b ≡ true
    → w ≡ v
unfolding fits
fits_width add_op w v a b s h = ground arith
fits_width _ w v a b s h = ground (arith, s)

-- A number of a width in place of both operands' constructors.
module _ {F : Field} (kind : BinaryArithOpKind) (make : ℕ → ℕ → Constant F)
    (op : ℕ → ℕ → ℕ → ℕ) where
  pub word_left :
      (w v a b c : ℕ) (z : Constant F)
      → (a < 2 ^ w → b < 2 ^ v → op w a b ≡ c)
      → (if fits kind w v a b then some (make w (op w a b)) else none) ≡ some z
      → z ≡ make w c
  word_left w v a b c z value h =
      let (f, q) = if_some _ _ _ h in
      let (p, r) = fits_bounds kind w v a b f in sym q ∙ ap (make w) (value p r)

  pub word_same :
      (w v a b c : ℕ) (z : Constant F)
      → is_shift kind ≡ false
      → (w ≡ v → a < 2 ^ w → op w a b ≡ c)
      → (if fits kind w v a b then some (make w (op w a b)) else none) ≡ some z
      → z ≡ make w c
  word_same w v a b c z sh value h =
      let (f, q) = if_some _ _ _ h in
      sym q ∙ ap (make w) (value (fits_width kind w v a b sh f) ((fits_bounds kind w v a b f).0))

  pub word_right :
      (w v a b c : ℕ) (z : Constant F)
      → is_shift kind ≡ false
      → (a < 2 ^ w → b < 2 ^ w → op w a b ≡ c)
      → (if fits kind w v a b then some (make w (op w a b)) else none) ≡ some z
      → z ≡ make v c
  word_right w v a b c z sh value h =
      let (f, q) = if_some _ _ _ h in
      let (p, r) = fits_bounds kind w v a b f in
      let same = fits_width kind w v a b sh f in
      sym q ∙ ap (make w) (value p (rw (sym same) at r)) ∙ ap (λ t. make t c) same

-- An operation with one special operand gives one of its operands.
module _ {F : Field} (S : Scalars F) (kind : BinaryArithOpKind) (n : ℕ) (e : F.Elem) where
  pub left_gives_right :
      is_shift kind ≡ false
      → ((w b : ℕ) → b < 2 ^ w → unsigned_op kind w n b ≡ b)
      → ((w b : ℕ) → b < 2 ^ w → signed_op S kind w n b ≡ b)
      → ((b : F.Elem) (z : Constant F) → field_op S kind e b ≡ some z → z ≡ field_const b)
      → (x y z : Constant F) → IsAt n e x
      → eval_binary S kind x y ≡ some z
      → z ≡ y
  unfolding eval_binary
  left_gives_right sh un si fi _ (u_const v b) z (at_u w a p) h =
      word_right kind u_const (unsigned_op kind) w v a b b z sh
        (λ j k. ap (λ t. unsigned_op kind w t b) p ∙ un w b k) h
  left_gives_right sh un si fi _ (i_const v b) z (at_i w a p) h =
      word_right kind i_const (signed_op S kind) w v a b b z sh
        (λ j k. ap (λ t. signed_op S kind w t b) p ∙ si w b k) h
  left_gives_right sh un si fi _ (field_const b) z (at_field a p) h =
      fi b z (ap (λ t. field_op S kind t b) (sym p) ∙ h)
  left_gives_right sh un si fi _ _ z (at_u _ _ _) h = cc
  left_gives_right sh un si fi _ _ z (at_i _ _ _) h = cc
  left_gives_right sh un si fi _ _ z (at_field _ _) h = cc

  pub right_gives_left :
      ((w a : ℕ) → a < 2 ^ w → unsigned_op kind w a n ≡ a)
      → ((w a : ℕ) → a < 2 ^ w → signed_op S kind w a n ≡ a)
      → ((a : F.Elem) (z : Constant F) → field_op S kind a e ≡ some z → z ≡ field_const a)
      → (x y z : Constant F) → IsAt n e y
      → eval_binary S kind x y ≡ some z
      → z ≡ x
  unfolding eval_binary
  right_gives_left un si fi (u_const w a) _ z (at_u v b p) h =
      word_left kind u_const (unsigned_op kind) w v a b a z
        (λ k j. ap (unsigned_op kind w a) p ∙ un w a k) h
  right_gives_left un si fi (i_const w a) _ z (at_i v b p) h =
      word_left kind i_const (signed_op S kind) w v a b a z
        (λ k j. ap (signed_op S kind w a) p ∙ si w a k) h
  right_gives_left un si fi (field_const a) _ z (at_field b p) h =
      fi a z (ap (field_op S kind a) (sym p) ∙ h)
  right_gives_left un si fi _ _ z (at_u _ _ _) h = cc
  right_gives_left un si fi _ _ z (at_i _ _ _) h = cc
  right_gives_left un si fi _ _ z (at_field _ _) h = cc

  pub right_gives_right :
      is_shift kind ≡ false
      → ((w a : ℕ) → a < 2 ^ w → unsigned_op kind w a n ≡ n)
      → ((w a : ℕ) → a < 2 ^ w → signed_op S kind w a n ≡ n)
      → ((a : F.Elem) (z : Constant F) → field_op S kind a e ≡ some z → z ≡ field_const e)
      → (x y z : Constant F) → IsAt n e y
      → eval_binary S kind x y ≡ some z
      → z ≡ y
  unfolding eval_binary
  right_gives_right sh un si fi (u_const w a) _ z (at_u v b p) h =
      word_right kind u_const (unsigned_op kind) w v a b b z sh
        (λ k j. ap (unsigned_op kind w a) p ∙ un w a k ∙ sym p) h
  right_gives_right sh un si fi (i_const w a) _ z (at_i v b p) h =
      word_right kind i_const (signed_op S kind) w v a b b z sh
        (λ k j. ap (signed_op S kind w a) p ∙ si w a k ∙ sym p) h
  right_gives_right sh un si fi (field_const a) _ z (at_field b p) h =
      fi a z (ap (field_op S kind a) (sym p) ∙ h) ∙ ap field_const (sym p)
  right_gives_right sh un si fi _ _ z (at_u _ _ _) h = cc
  right_gives_right sh un si fi _ _ z (at_i _ _ _) h = cc
  right_gives_right sh un si fi _ _ z (at_field _ _) h = cc

  pub left_gives_left :
      ((w b : ℕ) → unsigned_op kind w n b ≡ n)
      → ((w b : ℕ) → signed_op S kind w n b ≡ n)
      → ((b : F.Elem) (z : Constant F) → field_op S kind e b ≡ some z → z ≡ field_const e)
      → (x y z : Constant F) → IsAt n e x
      → eval_binary S kind x y ≡ some z
      → z ≡ x
  unfolding eval_binary
  left_gives_left un si fi _ (u_const v b) z (at_u w a p) h =
      word_left kind u_const (unsigned_op kind) w v a b a z
        (λ j k. ap (λ t. unsigned_op kind w t b) p ∙ un w b ∙ sym p) h
  left_gives_left un si fi _ (i_const v b) z (at_i w a p) h =
      word_left kind i_const (signed_op S kind) w v a b a z
        (λ j k. ap (λ t. signed_op S kind w t b) p ∙ si w b ∙ sym p) h
  left_gives_left un si fi _ (field_const b) z (at_field a p) h =
      fi b z (ap (λ t. field_op S kind t b) (sym p) ∙ h) ∙ ap field_const (sym p)
  left_gives_left un si fi _ _ z (at_u _ _ _) h = cc
  left_gives_left un si fi _ _ z (at_i _ _ _) h = cc
  left_gives_left un si fi _ _ z (at_field _ _) h = cc
