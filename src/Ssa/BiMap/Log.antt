-- ===== src/Ssa/BiMap/Log.antt =====
-- A table that is a log of what was done to it has the behaviour that is asked of the bimap crate.
use mavros.Prelude.{
  ℕ, ◌≡◌, ◌≢◌, refl, sym, ◌∙◌, Bool, true, false, ap, if_some, Bool-cases, Option-cases, none-some,
  ==_eq, ==_self, inl, inr, Option, none, some, List, [], ◌∷◌, ◌==◌, if◌then◌else◌, arith,
}
use mavros.Ssa.BiMap.{BiMap, filtered}

-- A test for equality.
pub record Equality (X : Type 0) : Type 0 where
  pub same : X → X → Bool
  pub same_eq : (a b : X) → same a b ≡ true → a ≡ b
  pub same_self : (a : X) → same a a ≡ true

abbrev pub numbers : Equality ℕ
numbers = record { same = ◌==◌; same_eq = ==_eq; same_self = ==_self }

pub data Entry (C : Type 0) : Type 0 where
  entered : ℕ → C → Entry C
  removed : ℕ → Entry C
  kept_only : (ℕ → C → Bool) → Entry C

module _ {X : Type 0} (E : Equality X) where
  unfoldable pub without : X → Option X → Option X
  without c none = none
  without c (some d) = if E.same d c then none else some d

  without-some :
      (c d : X) (o : Option X) → without c o ≡ some d → (o ≡ some d) × (E.same d c ≡ false)
  unfolding without
  without-some c d none h = absurd (none-some h)
  without-some c d (some x) h = elim (Bool-cases (E.same x c)) [
    | inl t ↦ absurd (none-some (rw t at h))
    | inr t ↦ let e : some x ≡ some d = rw t at h in (e, ground (arith, e, t))
  ]

  without_ne : (c d : X) (o : Option X) → o ≡ some d → E.same d c ≡ false → without c o ≡ some d
  unfolding without
  without_ne c d o e t = rw e (rw t refl)

  removed_right :
      {Y : Type 0} (v w : X) (c : Y) (o : Option Y) (p : Option X)
      → (o ≡ some c → p ≡ some v)
      → (if E.same v w then none else o) ≡ some c
      → without w p ≡ some v
  removed_right v w c o p q h = elim (Bool-cases (E.same v w)) [
    | inl t ↦ absurd (none-some (rw t at h))
    | inr t ↦ without_ne w v p (q (rw t at h)) t
  ]

  removed_left :
      {Y : Type 0} (v w : X) (c : Y) (o : Option Y) (p : Option X)
      → (p ≡ some v → o ≡ some c)
      → without w p ≡ some v
      → (if E.same v w then none else o) ≡ some c
  removed_left v w c o p q h = let (x, y) = without-some w v p h in rw y (q x)

  filtered-true :
      (keep : X → Bool) (c : X) (o : Option X)
      → filtered keep o ≡ some c
      → (o ≡ some c) × (keep c ≡ true)
  filtered-true keep c none h = absurd (none-some h)
  filtered-true keep c (some d) h =
      let (b, e) = if_some (keep d) d c h in (ap some e, ap keep (sym e) ∙ b)

  filtered_kept :
      (keep : X → Bool) (c : X) (o : Option X)
      → o ≡ some c
      → keep c ≡ true
      → filtered keep o ≡ some c
  filtered_kept keep c o e t = rw e (rw t refl)

module _ {X Y : Type 0} (E : Equality X) (G : Equality Y) where
  entered_right :
      (v w : X) (c d : Y) (o : Option Y) (p : Option X)
      → (o ≡ some c → p ≡ some v)
      → (if E.same v w then some d else without G d o) ≡ some c
      → (if G.same c d then some w else without E w p) ≡ some v
  entered_right v w c d o p q h = elim (Bool-cases (E.same v w)) [
    | inl t ↦
        let e : some d ≡ some c = rw t at h in
        let k : d ≡ c = cc in rw (sym k) (rw (G.same_self d) (ap some (sym (E.same_eq v w t))))
    | inr t ↦ let (x, y) = without-some G d c o (rw t at h) in rw y (without_ne E w v p (q x) t)
  ]

module _ {C : Type 0} (G : Equality C) where
  unfoldable mutual
    unfolding without

    pub left_of : ℕ → List (Entry C) → Option C
    left_of v [] = none
    left_of v (entered w c ∷ t) = if v == w then some c else without G c (left_of v t)
    left_of v (removed w ∷ t) = if v == w then none else left_of v t
    left_of v (kept_only keep ∷ t) = filtered (keep v) (left_of v t)

    pub right_of : C → List (Entry C) → Option ℕ
    right_of c [] = none
    right_of c (entered w d ∷ t) = if G.same c d then some w else without numbers w (right_of c t)
    right_of c (removed w ∷ t) = without numbers w (right_of c t)
    right_of c (kept_only keep ∷ t) = filtered (λ v. keep v c) (right_of c t)

  pub left_right :
      (v : ℕ) (c : C) (t : List (Entry C)) → left_of v t ≡ some c → right_of c t ≡ some v
  unfolding left_of right_of
  left_right v c [] h = absurd (none-some h)
  left_right v c (entered w d ∷ t) h =
      entered_right numbers G v w c d (left_of v t) (right_of c t) (left_right v c t) h
  left_right v c (removed w ∷ t) h =
      removed_right numbers v w c (left_of v t) (right_of c t) (left_right v c t) h
  left_right v c (kept_only keep ∷ t) h =
      let (x, y) = filtered-true G (keep v) c (left_of v t) h in
      filtered_kept numbers (λ w. keep w c) v (right_of c t) (left_right v c t x) y

  pub right_left :
      (v : ℕ) (c : C) (t : List (Entry C)) → right_of c t ≡ some v → left_of v t ≡ some c
  unfolding left_of right_of
  right_left v c [] h = absurd (none-some h)
  right_left v c (entered w d ∷ t) h =
      entered_right G numbers c d v w (right_of c t) (left_of v t) (right_left v c t) h
  right_left v c (removed w ∷ t) h =
      removed_left numbers v w c (left_of v t) (right_of c t) (right_left v c t) h
  right_left v c (kept_only keep ∷ t) h =
      let (x, y) = filtered-true numbers (λ w. keep w c) v (right_of c t) h in
      filtered_kept G (keep v) c (left_of v t) (right_left v c t x) y

  pub left_of-entered_ne :
      (w v : ℕ) (c : C) (t : List (Entry C))
      → w ≢ v
      → right_of c t ≡ none
      → left_of w (entered v c ∷ t) ≡ left_of w t
  unfolding left_of without
  left_of-entered_ne w v c t n e = elim (Option-cases (left_of w t)) [
    | inl h ↦ rw h (ground (arith, n))
    | inr (d, h) ↦ rw h (other (G.same d c) d h refl)
  ]
    where
      other :
          (b : Bool) (d : C)
          → left_of w t ≡ some d
          → G.same d c ≡ b
          → (if w == v then some c else (if G.same d c then none else some d)) ≡ some d
      other true d h q =
          absurd (
            none-some (sym e ∙ ap (λ x. right_of x t) (sym (G.same_eq d c q)) ∙ left_right w d t h))
      other false d h q = rw q (ground (arith, n))

  pub left_of_nil : (v : ℕ) → left_of v [] ≡ none
  unfolding left_of
  left_of_nil v = refl

  pub left_of_entered : (v : ℕ) (c : C) (t : List (Entry C)) → left_of v (entered v c ∷ t) ≡ some c
  unfolding left_of
  left_of_entered v c t = rw (==_self v) refl

  pub left_of-removed : (v : ℕ) (t : List (Entry C)) → left_of v (removed v ∷ t) ≡ none
  unfolding left_of
  left_of-removed v t = rw (==_self v) refl

  pub left_of-removed_ne :
      (w v : ℕ) (t : List (Entry C)) → w ≢ v → left_of w (removed v ∷ t) ≡ left_of w t
  unfolding left_of
  left_of-removed_ne w v t n = ground (arith, n)

  pub left_of_kept :
      (keep : ℕ → C → Bool) (v : ℕ) (t : List (Entry C))
      → left_of v (kept_only keep ∷ t) ≡ filtered (keep v) (left_of v t)
  unfolding left_of
  left_of_kept keep v t = refl

  abbrev pub log : BiMap C
  log = record {
    Table = List (Entry C);
    empty = [];
    get_by_left = left_of;
    get_by_right = right_of;
    insert = λ v c t. entered v c ∷ t;
    remove_by_left = λ v t. removed v ∷ t;
    retain = λ keep t. kept_only keep ∷ t;
    get_by_left-empty = λ v. left_of_nil v;
    get_by_left-right = left_right;
    get_by_right-left = right_left;
    get_by_left-insert_self = λ v c t. left_of_entered v c t;
    get_by_left-insert_ne = left_of-entered_ne;
    get_by_left-remove_self = λ v t. left_of-removed v t;
    get_by_left-remove_ne = λ w v t n. left_of-removed_ne w v t n;
    get_by_left-retain = λ keep v t. left_of_kept keep v t;
  }
