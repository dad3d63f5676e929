-- ===== src/Passes/Replacements/Chain.antt =====
-- `get_replacement` (compiler/src/compiler/passes/fix_double_jumps.rs) follows a chain to its end, and
-- panics only where there is none.
use mathlib.Core.Path.{subst}
use mathlib.Core.Option.{some-injective}
use mavros.Prelude.{
  ℕ, zero, suc, ◌≤◌, ◌<◌, ◌≡◌, ◌≢◌, refl, sym, ap, ◌∙◌, true, false, none, some, [], ◌∷◌, ◌==◌,
  length, none-some, Option-cases, Bool-cases, inl, inr, ◌⊎◌, ==_eq, ==_self, arith,
}
use mavros.Ssa.Dict.{get, remove, get-remove_self, get-remove_ne}
use mavros.Passes.Replacements.{ValueReplacements, follow, get_replacement}

-- No other value stands for this one.
abbrev pub IsFinal : ValueReplacements → ℕ → Type 0
IsFinal r v = (get v r ≡ none) ⊎ (get v r ≡ some v)

follow_final : (n : ℕ) (r : ValueReplacements) (v : ℕ) → IsFinal r v → follow (suc n) r v ≡ some v
unfolding follow
follow_final n r v (inl e) = rw (e, follow) refl
follow_final n r v (inr e) = rw (e, ==_self v, follow) refl

follow_next :
    (n : ℕ) (r : ValueReplacements) (v next : ℕ)
    → get v r ≡ some next
    → (next == v) ≡ false
    → follow (suc n) r v ≡ follow n r next
unfolding follow
follow_next n r v next e t = rw (e, t, follow) refl

-- A value is final, or another stands for it.
IsFinal-or_next :
    (r : ValueReplacements) (v : ℕ)
    → IsFinal r v ⊎ ((next : ℕ) × (get v r ≡ some next) × ((next == v) ≡ false))
IsFinal-or_next r v = elim (Option-cases (get v r)) [
  | inl e ↦ inl (inl e)
  | inr (next, e) ↦ elim (Bool-cases (next == v)) [
    | inl t ↦ inl (inr (e ∙ ap some (==_eq next v t)))
    | inr t ↦ inr (next, e, t)
  ]
]

follow-IsFinal : (n : ℕ) (r : ValueReplacements) (v w : ℕ) → follow n r v ≡ some w → IsFinal r w
unfolding follow
follow-IsFinal zero r v w h = absurd (none-some h)
follow-IsFinal (suc n) r v w h = elim (IsFinal-or_next r v) [
  | inl f ↦ subst (IsFinal r) (some-injective v w (sym (follow_final n r v f) ∙ h)) f
  | inr (next, e, t) ↦ follow-IsFinal n r next w (sym (follow_next n r v next e t) ∙ h)
]

follow_more :
    (n k : ℕ) (r : ValueReplacements) (v w : ℕ)
    → follow n r v ≡ some w
    → n ≤ k
    → follow k r v ≡ some w
unfolding follow
follow_more zero k r v w h b = absurd (none-some h)
follow_more (suc n) zero r v w h b = absurd (omega (arith, b))
follow_more (suc n) (suc k) r v w h b = elim (IsFinal-or_next r v) [
  | inl f ↦ follow_final k r v f ∙ sym (follow_final n r v f) ∙ h
  | inr (next, e, t) ↦
      follow_next k r v next e t
      ∙ follow_more n k r next w (sym (follow_next n r v next e t) ∙ h) (omega (arith, b))
]

kept-IsFinal :
    (r : ValueReplacements) (v y : ℕ) → (y == v) ≡ false → IsFinal r y → IsFinal (remove v r) y
kept-IsFinal r v y t (inl e) = inl (get-remove_ne y v r (ground (arith, t)) ∙ e)
kept-IsFinal r v y t (inr e) = inr (get-remove_ne y v r (ground (arith, t)) ∙ e)

-- Without an entry that the chain does not need.
follow_without :
    (m n : ℕ) (r : ValueReplacements) (v y w : ℕ)
    → m ≤ n
    → follow n r v ≡ none
    → follow m r y ≡ some w
    → follow m (remove v r) y ≡ some w
unfolding follow
follow_without zero n r v y w b d h = absurd (none-some h)
follow_without (suc m) n r v y w b d h = elim (Bool-cases (y == v)) [
  | inl t ↦
      absurd
        (none-some (sym d ∙ ap (follow n r) (sym (==_eq y v t)) ∙ follow_more (suc m) n r y w h b))
  | inr t ↦ elim (IsFinal-or_next r y) [
    | inl f ↦
        follow_final m (remove v r) y (kept-IsFinal r v y t f) ∙ sym (follow_final m r y f) ∙ h
    | inr (next, e, u) ↦
        follow_next m (remove v r) y next (get-remove_ne y v r (ground (arith, t)) ∙ e) u
        ∙ follow_without m n r v next w (omega (arith, b)) d (sym (follow_next m r y next e u) ∙ h)
  ]
]

follow_with :
    (m : ℕ) (r : ValueReplacements) (v y w : ℕ)
    → w ≢ v
    → follow m (remove v r) y ≡ some w
    → follow m r y ≡ some w
unfolding follow
follow_with zero r v y w d h = absurd (none-some h)
follow_with (suc m) r v y w d h = elim (Bool-cases (y == v)) [
  | inl t ↦ absurd (d (ended t))
  | inr t ↦ elim (IsFinal-or_next r y) [
    | inl f ↦
        follow_final m r y f ∙ sym (follow_final m (remove v r) y (kept-IsFinal r v y t f)) ∙ h
    | inr (next, e, u) ↦
        follow_next m r y next e u
        ∙ follow_with m r v next w d (
            sym (follow_next m (remove v r) y next (get-remove_ne y v r (ground (arith, t)) ∙ e) u)
            ∙ h)
  ]
]
  where
    ended : (y == v) ≡ true → w ≡ v
    ended t = some-injective w v (
        sym h
        ∙ ap (follow (suc m) (remove v r)) (==_eq y v t)
        ∙ follow_final m (remove v r) v (inl (get-remove_self v r)))

length-remove_le : (r : ValueReplacements) (v : ℕ) → length (remove v r) ≤ length r
length-remove_le [] v = omega arith
length-remove_le (e ∷ r) v = elim (Bool-cases (v == e.0)) [
  | inl t ↦ rw t (omega (arith, length-remove_le r v))
  | inr t ↦ rw t (omega (arith, length-remove_le r v))
]

length-remove :
    (r : ValueReplacements) (v x : ℕ) → get v r ≡ some x → length (remove v r) < length r
length-remove [] v x h = absurd (none-some h)
length-remove (e ∷ r) v x h = elim (Bool-cases (v == e.0)) [
  | inl t ↦ rw t (omega (arith, length-remove_le r v))
  | inr t ↦ rw t (omega (arith, length-remove r v x (rw t at h)))
]

-- As many rounds as there are entries are enough, if any number is.
enough :
    (n : ℕ) (r : ValueReplacements) (v w : ℕ)
    → follow n r v ≡ some w
    → follow (suc (length r)) r v ≡ some w
unfolding follow
enough zero r v w h = absurd (none-some h)
enough (suc n) r v w h = elim (Option-cases (follow n r v)) [
  | inr (x, e) ↦ enough n r v x e ∙ sym (follow_more n (suc n) r v x e (omega arith)) ∙ h
  | inl none_yet ↦ elim (IsFinal-or_next r v) [
    | inl f ↦ follow_final (length r) r v f ∙ sym (follow_final n r v f) ∙ h
    | inr (next, e, t) ↦
        let onward = sym (follow_next n r v next e t) ∙ h in
        follow_next (length r) r v next e t
        ∙ follow_with (length r) r v next w (passed next e t) (
            follow_more (suc (length (remove v r))) (length r) (remove v r) next w
              (enough n (remove v r) next w
                (follow_without n n r v next w (omega arith) none_yet onward))
              (length-remove r v next e))
  ]
]
  where
    passed : (next : ℕ) → get v r ≡ some next → (next == v) ≡ false → w ≢ v
    passed next e t q = elim (follow-IsFinal (suc n) r v w h) [
      | inl f ↦ none-some (sym f ∙ ap (λ x. get x r) q ∙ e)
      | inr f ↦ different (some-injective w next (sym f ∙ ap (λ x. get x r) q ∙ e))
    ]
      where
        different : w ≡ next → ⊥
        different p = ground (arith, t, p, q)

-- `get_replacement` panics only on a cycle: where any number of rounds reaches an end, it returns that end.
pub get_replacement_complete :
    (n : ℕ) (r : ValueReplacements) (v w : ℕ) → follow n r v ≡ some w → get_replacement r v ≡ some w
unfolding get_replacement
get_replacement_complete n r v w h = enough n r v w h

-- What `get_replacement` returns has no replacement of its own, so that a second look changes nothing.
pub get_replacement-IsFinal :
    (r : ValueReplacements) (v w : ℕ)
    → get_replacement r v ≡ some w
    → IsFinal r w × (get_replacement r w ≡ some w)
unfolding get_replacement
get_replacement-IsFinal r v w h =
    let f = follow-IsFinal (suc (length r)) r v w h in (f, follow_final (length r) r w f)
