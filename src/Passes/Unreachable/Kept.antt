-- ===== src/Passes/Unreachable/Kept.antt =====
-- The passes of compiler/src/compiler/passes/remove_unreachable_blocks.rs and
-- remove_unreachable_functions.rs keep exactly what is reachable.
use mavros.Prelude.{
  ℕ, ◌≡◌, refl, sym, ap, ◌∙◌, Bool, true, false, Option, none, some, List, [], ◌∷◌, ◌==◌,
  if◌then◌else◌, Bool-cases, inl, inr, ==_eq, ==_self, arith,
}
use mavros.Ssa.Dict.{Dict, get, remove, get-remove_self, get-remove_ne}
use mavros.Ssa.Function.{Function, Block, get_block, take_block}
use mavros.Ssa.BiMap.{BiMap}
use mavros.Ssa.Program.{Ssa, get_function, delete_function}
use mavros.Passes.Unreachable.{
  is_in, keys, remove_block, remove_blocks, remove_unreachable_blocks, remove_functions,
  remove_unreachable_functions,
}

-- A key that is not listed has no entry.
is_in-keys {ℓ} : {V : Type ℓ} (d : Dict V) (n : ℕ) → is_in (keys d) n ≡ false → get n d ≡ none
unfolding is_in keys
is_in-keys [] n h = refl
is_in-keys ((m, _) ∷ d) n h = elim (Bool-cases (n == m)) [
  | inl t ↦ absurd (listed t h)
  | inr t ↦ rw t (is_in-keys d n (rw t at h))
]
  where
    listed : (n == m) ≡ true → (if n == m then true else is_in (keys d) n) ≡ false → ⊥
    listed t h = ground (arith, t, h)

-- What a loop over some keys leaves under one, by whether that is reachable and whether it is listed.
abbrev left {ℓ} : {V : Type ℓ} → Bool → Bool → Option V → Option V
left reached listed v = if reached then v else if listed then none else v

left-none {ℓ} : {V : Type ℓ} (a b : Bool) → left {V = V} a b none ≡ none
left-none true b = refl
left-none false true = refl
left-none false false = refl

module _ {Op Ty C : Type 0} {bimap : BiMap C} where
  remove_functions_keep :
      (m : ℕ) (ns reachable : List ℕ) (s : Ssa Op Ty bimap)
      → is_in reachable m ≡ true
      → remove_functions (m ∷ ns) reachable s ≡ remove_functions ns reachable s
  unfolding remove_functions
  remove_functions_keep m ns reachable s e = rw (e, remove_functions) refl

  remove_functions_drop :
      (m : ℕ) (ns reachable : List ℕ) (s : Ssa Op Ty bimap)
      → is_in reachable m ≡ false
      → remove_functions (m ∷ ns) reachable s
        ≡ remove_functions ns reachable ((delete_function m s).1)
  unfolding remove_functions
  remove_functions_drop m ns reachable s e = rw (e, remove_functions) refl

  get_function-remove_functions :
      (ns reachable : List ℕ) (s : Ssa Op Ty bimap) (n : ℕ)
      → get_function n (remove_functions ns reachable s)
        ≡ left (is_in reachable n) (is_in ns n) (get_function n s)
  unfolding remove_functions is_in
  get_function-remove_functions [] reachable s n = ground arith
  get_function-remove_functions (m ∷ ns) reachable s n = elim (Bool-cases (is_in reachable m)) [
    | inl r ↦
        ap (get_function n) (remove_functions_keep m ns reachable s r)
        ∙ get_function-remove_functions ns reachable s n
        ∙ kept r
    | inr r ↦
        ap (get_function n) (remove_functions_drop m ns reachable s r)
        ∙ get_function-remove_functions ns reachable ((delete_function m s).1) n
        ∙ dropped r
  ]
    where
      same : (n == m) ≡ true → is_in reachable n ≡ is_in reachable m
      same t = ap (is_in reachable) (==_eq n m t)

      kept :
          is_in reachable m ≡ true
          → left (is_in reachable n) (is_in ns n) (get_function n s)
            ≡ left (is_in reachable n) (if n == m then true else is_in ns n) (get_function n s)
      kept r = elim (Bool-cases (n == m)) [ inl t ↦ rw (t, same t ∙ r) refl | inr t ↦ rw t refl ]

      dropped :
          is_in reachable m ≡ false
          → left (is_in reachable n) (is_in ns n) (get n (remove m (s.functions)))
            ≡ left (is_in reachable n) (if n == m then true else is_in ns n) (get_function n s)
      dropped r = elim (Bool-cases (n == m)) [
        | inl t ↦ rw (t, same t ∙ r, gone t) (left-none false (is_in ns n))
        | inr t ↦ rw (t, get-remove_ne n m (s.functions) (ground (arith, t))) refl
      ]
        where
          gone : (n == m) ≡ true → get n (remove m (s.functions)) ≡ none
          gone t =
              ap (λ k. get k (remove m (s.functions))) (==_eq n m t)
              ∙ get-remove_self m (s.functions)

  -- A function is there after the pass, and then the same, exactly where it was there and reachable.
  pub remove_unreachable_functions_lem :
      (reachable : List ℕ) (s : Ssa Op Ty bimap) (n : ℕ)
      → get_function n (remove_unreachable_functions reachable s)
        ≡ (if is_in reachable n then get_function n s else none)
  unfolding remove_unreachable_functions
  remove_unreachable_functions_lem reachable s n =
      elim (Bool-cases (is_in (keys (s.functions)) n)) [
        | inl t ↦ get_function-remove_functions (keys (s.functions)) reachable s n ∙ rw t refl
        | inr t ↦
            get_function-remove_functions (keys (s.functions)) reachable s n
            ∙ rw (t, is_in-keys (s.functions) n t) refl
      ]

-- No key is listed twice.
abbrev pub Distinct : List ℕ → Type 0
Distinct [] = Unit
Distinct (n ∷ ns) = (is_in ns n ≡ false) × Distinct ns

true-false : true ≡ false → ⊥
true-false h = cc

module _ {Op Ty : Type 0} where
  abbrev without_block : ℕ → Function Op Ty → Function Op Ty
  without_block b f = record f { blocks = remove b (f.blocks) }

  remove_block_keep :
      (b : ℕ) (reachable : List ℕ) (f : Function Op Ty)
      → is_in reachable b ≡ true
      → remove_block b reachable f ≡ some f
  unfolding remove_block
  remove_block_keep b reachable f e = rw (e, remove_block) refl

  remove_block_drop :
      (b : ℕ) (reachable : List ℕ) (f : Function Op Ty) (block : Block Op Ty)
      → is_in reachable b ≡ false
      → get_block b f ≡ some block
      → remove_block b reachable f ≡ some (without_block b f)
  unfolding remove_block take_block
  remove_block_drop b reachable f block e h = rw (e, h, remove_block, take_block) refl

  remove_blocks_total :
      (bs reachable : List ℕ) (f : Function Op Ty)
      → Distinct bs
      → ((b : ℕ) → is_in bs b ≡ true → (block : Block Op Ty) × (get_block b f ≡ some block))
      → (g : Function Op Ty) × (remove_blocks bs reachable f ≡ some g)
        × ((n : ℕ) → get_block n g ≡ left (is_in reachable n) (is_in bs n) (get_block n f))
  unfolding remove_blocks is_in
  remove_blocks_total [] reachable f d there = (f, refl, λ n. ground arith)
  remove_blocks_total (b ∷ bs) reachable f (new, d) there = elim (Bool-cases (is_in reachable b)) [
    | inl r ↦
        let (g, e, k) =
          remove_blocks_total bs reachable f d (λ x h. there x (if_true (x == b) (is_in bs x) h)) in
        (g, rw (remove_block_keep b reachable f r) e, λ n. k n ∙ kept n r)
    | inr r ↦
        let (block, present) = there b (rw (==_self b) refl) in
        let (g, e, k) = remove_blocks_total bs reachable (without_block b f) d (λ x h.
          let (other, q) = there x (if_true (x == b) (is_in bs x) h) in
          (other, get-remove_ne x b (f.blocks) (λ p. apart x h p) ∙ q)) in
        (g, rw (remove_block_drop b reachable f block r present) e, λ n. k n ∙ dropped n r)
  ]
    where
      if_true : (p q : Bool) → q ≡ true → (if p then true else q) ≡ true
      if_true true q h = refl
      if_true false q h = h

      apart : (x : ℕ) → is_in bs x ≡ true → x ≡ b → ⊥
      apart x h p = true-false (sym h ∙ ap (is_in bs) p ∙ new)

      same : (n : ℕ) → (n == b) ≡ true → is_in reachable n ≡ is_in reachable b
      same n t = ap (is_in reachable) (==_eq n b t)

      kept :
          (n : ℕ)
          → is_in reachable b ≡ true
          → left (is_in reachable n) (is_in bs n) (get_block n f)
            ≡ left (is_in reachable n) (if n == b then true else is_in bs n) (get_block n f)
      kept n r = elim (Bool-cases (n == b)) [
        | inl t ↦ rw (t, same n t ∙ r) refl
        | inr t ↦ rw t refl
      ]

      gone : (n : ℕ) → (n == b) ≡ true → get n (remove b (f.blocks)) ≡ none
      gone n t = ap (λ k. get k (remove b (f.blocks))) (==_eq n b t) ∙ get-remove_self b (f.blocks)

      dropped :
          (n : ℕ)
          → is_in reachable b ≡ false
          → left (is_in reachable n) (is_in bs n) (get n (remove b (f.blocks)))
            ≡ left (is_in reachable n) (if n == b then true else is_in bs n) (get_block n f)
      dropped n r = elim (Bool-cases (n == b)) [
        | inl t ↦ rw (t, same n t ∙ r, gone n t) (left-none false (is_in bs n))
        | inr t ↦ rw (t, get-remove_ne n b (f.blocks) (ground (arith, t))) refl
      ]

  listed_present :
      (d : Dict (Block Op Ty)) (n : ℕ)
      → is_in (keys d) n ≡ true
      → (block : Block Op Ty) × (get n d ≡ some block)
  unfolding is_in keys
  listed_present [] n h = cc
  listed_present ((m, block) ∷ d) n h = elim (Bool-cases (n == m)) [
    | inl t ↦ (block, rw t refl)
    | inr t ↦ let (other, q) = listed_present d n (rw t at h) in (other, rw t q)
  ]

  -- On a function whose blocks have different identifiers the pass returns, and a block is there after it,
  -- and then the same, exactly where it was there and reachable.
  pub remove_unreachable_blocks_lem :
      (reachable : List ℕ) (f : Function Op Ty)
      → Distinct (keys (f.blocks))
      → (g : Function Op Ty) × (remove_unreachable_blocks reachable f ≡ some g)
        × ((n : ℕ) → get_block n g ≡ (if is_in reachable n then get_block n f else none))
  unfolding remove_unreachable_blocks
  remove_unreachable_blocks_lem reachable f d =
      let (g, e, k) =
        remove_blocks_total (keys (f.blocks)) reachable f d (listed_present (f.blocks)) in
      (g, e, λ n. k n ∙ whole n)
    where
      whole :
          (n : ℕ)
          → left (is_in reachable n) (is_in (keys (f.blocks)) n) (get_block n f)
            ≡ (if is_in reachable n then get_block n f else none)
      whole n = elim (Bool-cases (is_in (keys (f.blocks)) n)) [
        | inl t ↦ rw t refl
        | inr t ↦ rw (t, is_in-keys (f.blocks) n t) refl
      ]
