-- ===== src/Ssa/Dict.antt =====
-- `HashMap` with numbers for keys, as a list of its entries in the order an iteration gives them.
use mathlib.Core.Option.{some-injective}
use mavros.Prelude.{
  ℕ, ◌≡◌, refl, ◌≢◌, Bool, true, false, Option, none, some, List, [], ◌∷◌, ◌==◌, if◌then◌else◌,
  arith, sym, ap, ◌∙◌, ◌⊎◌, inl, inr, Bool-cases, ==_eq,
}

abbrev pub Dict {ℓ} : Type ℓ → Type ℓ
Dict V = List (ℕ × V)

module _ {ℓ} {V : Type ℓ} where
  abbrev pub get : ℕ → Dict V → Option V
  get key [] = none
  get key (entry ∷ dict) = if key == entry.0 then some (entry.1) else get key dict

  abbrev pub contains_key : ℕ → Dict V → Bool
  contains_key key [] = false
  contains_key key (entry ∷ dict) = if key == entry.0 then true else contains_key key dict

  abbrev pub insert : ℕ → V → Dict V → Dict V
  insert key v [] = (key, v) ∷ []
  insert key v (entry ∷ dict) =
      if key == entry.0 then (key, v) ∷ dict else entry ∷ insert key v dict

  -- Every entry of the key goes, so the law below needs no hypothesis.
  abbrev pub remove : ℕ → Dict V → Dict V
  remove key [] = []
  remove key (entry ∷ dict) = if key == entry.0 then remove key dict else entry ∷ remove key dict

  abbrev pub retain : (ℕ → V → Bool) → Dict V → Dict V
  retain keep [] = []
  retain keep (entry ∷ dict) =
      let rest = retain keep dict in if keep (entry.0) (entry.1) then entry ∷ rest else rest

  pub get-insert_self : (key : ℕ) (v : V) (dict : Dict V) → get key (insert key v dict) ≡ some v
  get-insert_self key v [] = ground arith
  get-insert_self key v (entry ∷ dict) = ground (arith, get-insert_self key v dict)

  pub get-insert_ne :
      (j key : ℕ) (v : V) (dict : Dict V) → j ≢ key → get j (insert key v dict) ≡ get j dict
  get-insert_ne j key v [] h = ground arith
  get-insert_ne j key v (entry ∷ dict) h = ground (arith, get-insert_ne j key v dict h)

  pub get-remove_self : (key : ℕ) (dict : Dict V) → get key (remove key dict) ≡ none
  get-remove_self key [] = refl
  get-remove_self key (entry ∷ dict) = ground (arith, get-remove_self key dict)

  pub get-remove_ne : (j key : ℕ) (dict : Dict V) → j ≢ key → get j (remove key dict) ≡ get j dict
  get-remove_ne j key [] h = refl
  get-remove_ne j key (entry ∷ dict) h = ground (arith, get-remove_ne j key dict h)

  -- What is there without a key was there.
  pub get-remove-some :
      (j key : ℕ) (v : V) (dict : Dict V) → get j (remove key dict) ≡ some v → get j dict ≡ some v
  get-remove-some j key v [] h = h
  get-remove-some j key v (entry ∷ dict) h = elim (Bool-cases (key == entry.0)) [
    | inl t ↦ elim (Bool-cases (j == entry.0)) [
      | inl q ↦ absurd (gone t q)
      | inr q ↦ rw q (get-remove-some j key v dict (rw t at h))
    ]
    | inr t ↦ elim (Bool-cases (j == entry.0)) [
      | inl q ↦ rw q (rw (t, q) at h)
      | inr q ↦ rw q (get-remove-some j key v dict (rw (t, q) at h))
    ]
  ]
    where
      gone : (key == entry.0) ≡ true → (j == entry.0) ≡ true → ⊥
      gone t q = ground (arith, h, t, q, get-remove_self key dict)

  pub contains_key-get :
      (key : ℕ) (dict : Dict V) → contains_key key dict ≡ false → get key dict ≡ none
  contains_key-get key [] h = refl
  contains_key-get key (entry ∷ dict) h = ground (arith, contains_key-get key dict)

  pub get-insert_cases :
      (j key : ℕ) (v w : V) (dict : Dict V)
      → get j (insert key v dict) ≡ some w
      → ((j ≡ key) × (v ≡ w)) ⊎ (get j dict ≡ some w)
  get-insert_cases j key v w dict h = elim (Bool-cases (j == key)) [
    | inl t ↦ inl (
      ==_eq j key t,
      some-injective v w (
          sym (get-insert_self key v dict)
          ∙ ap (λ x. get x (insert key v dict)) (sym (==_eq j key t))
          ∙ h),
    )
    | inr t ↦ inr (sym (get-insert_ne j key v dict (ground arith)) ∙ h)
  ]

  pub contains_key-some :
      (key : ℕ) (dict : Dict V) → contains_key key dict ≡ true → (v : V) × (get key dict ≡ some v)
  contains_key-some key [] h = cc
  contains_key-some key (entry ∷ dict) h = elim (Bool-cases (key == entry.0)) [
    | inl t ↦ (entry.1, rw t refl)
    | inr t ↦ rw t (contains_key-some key dict (ground arith))
  ]

  -- What is kept was there.
  pub get-retain :
      (keep : ℕ → V → Bool) (key : ℕ) (v : V) (dict : Dict V)
      → get key (retain keep dict) ≡ some v
      → contains_key key dict ≡ true
  get-retain keep key v [] h = cc
  get-retain keep key v (entry ∷ dict) h = elim (Bool-cases (key == entry.0)) [
    | inl t ↦ rw t refl
    | inr t ↦ rw t (get-retain keep key v dict (kept t))
  ]
    where
      kept : (key == entry.0) ≡ false → get key (retain keep dict) ≡ some v
      kept t = ground (arith, h, t)
