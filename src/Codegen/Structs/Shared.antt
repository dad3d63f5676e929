-- ===== src/Codegen/Structs/Shared.antt =====
-- A struct shape has one place in the table (compiler/src/compiler/codegen/bytecode/layout.rs).
use mathlib.Core.Path.{subst}
use mathlib.Core.Option.{some-injective}
use mavros.Prelude.{
  ℕ, ◌<◌, ◌≡◌, refl, sym, ap, ◌∙◌, Bool, true, false, ◌&&◌, none, some, List, [], ◌∷◌, ◌++◌, ◌==◌,
  none-some, Bool-cases, Option-cases, inl, inr, ==_eq, ==_self, arith, length, get_elem?,
  length-append, ◌⊎◌, get_elem?_end, get_elem?_front, append_nil, get_elem?-some,
}
use mavros.Vm.Layout.{StructDescriptor, new_descriptor}
use mavros.Vm.Layout.Fields.{new_descriptor_lem}
use mavros.Codegen.Structs.{
  Fields, flag_eq, fields_eq, StructLayoutInterner, new_interner, index_of, intern,
}

fields_eq_self : (xs : Fields) → fields_eq xs xs ≡ true
unfolding fields_eq flag_eq
fields_eq_self [] = refl
fields_eq_self ((x, true) ∷ xs) = rw (==_self x, fields_eq_self xs) refl
fields_eq_self ((x, false) ∷ xs) = rw (==_self x, fields_eq_self xs) refl

flag_eq_sound : (p q : Bool) → flag_eq p q ≡ true → p ≡ q
unfolding flag_eq
flag_eq_sound true true h = refl
flag_eq_sound true false h = cc
flag_eq_sound false true h = cc
flag_eq_sound false false h = refl

and_true : (a b : Bool) → (a && b) ≡ true → (a ≡ true) × (b ≡ true)
and_true true b h = (refl, h)
and_true false b h = cc

fields_eq_sound : (xs ys : Fields) → fields_eq xs ys ≡ true → xs ≡ ys
unfolding fields_eq
fields_eq_sound [] [] h = refl
fields_eq_sound [] (y ∷ ys) h = cc
fields_eq_sound (x ∷ xs) [] h = cc
fields_eq_sound ((x, p) ∷ xs) ((y, q) ∷ ys) h =
    let (a, k) = and_true (x == y) (flag_eq p q && fields_eq xs ys) h in
    let (b, c) = and_true (flag_eq p q) (fields_eq xs ys) k in
    rw (==_eq x y a, flag_eq_sound p q b, fields_eq_sound xs ys c) refl

-- Every shape in the index is the one of the descriptor at its place in the table.
pub record IsInterner (s : StructLayoutInterner) : Type 0 where
  pub described :
      (fields : Fields) (n : ℕ)
      → index_of fields (s.index) ≡ some n
      → get_elem? (s.table) n ≡ new_descriptor fields
  pub within : (fields : Fields) (n : ℕ) → index_of fields (s.index) ≡ some n → n < length (s.table)

pub new_interner-IsInterner : IsInterner new_interner
unfolding index_of
new_interner-IsInterner = record {
  described = λ fields n e. absurd (none-some e);
  within = λ fields n e. absurd (none-some e);
}

module _ (fields : Fields) (s : StructLayoutInterner) where
  abbrev extended : StructDescriptor → StructLayoutInterner
  extended d = record { table = s.table ++ d ∷ []; index = (fields, length (s.table)) ∷ s.index }

  intern_hit : (n : ℕ) → index_of fields (s.index) ≡ some n → intern fields s ≡ some (n, s)
  unfolding intern
  intern_hit n e = rw (e, intern) refl

  intern_miss :
      (d : StructDescriptor)
      → index_of fields (s.index) ≡ none
      → new_descriptor fields ≡ some d
      → intern fields s ≡ some (length (s.table), extended d)
  unfolding intern
  intern_miss d e h = rw (e, h, intern) refl

  intern_fails :
      index_of fields (s.index) ≡ none → new_descriptor fields ≡ none → intern fields s ≡ none
  unfolding intern
  intern_fails e h = rw (e, h, intern) refl

  -- Either the shape was there and nothing changed, or its descriptor was put at the end.
  intern_cases :
      (n : ℕ) (t : StructLayoutInterner)
      → intern fields s ≡ some (n, t)
      → ((index_of fields (s.index) ≡ some n) × (s ≡ t))
        ⊎ ((d : StructDescriptor) × (index_of fields (s.index) ≡ none)
            × (new_descriptor fields ≡ some d)
            × (length (s.table) ≡ n)
            × (extended d ≡ t))
  intern_cases n t h = elim (Option-cases (index_of fields (s.index))) [
    | inl e ↦ elim (Option-cases (new_descriptor fields)) [
      | inl k ↦ absurd (none-some (sym (intern_fails e k) ∙ h))
      | inr (d, k) ↦
          let q =
            some-injective (length (s.table), extended d) (n, t) (sym (intern_miss d e k) ∙ h) in
          inr (d, e, k, ap (λ p. p.0) q, ap (λ p. p.1) q)
    ]
    | inr (m, e) ↦
        let q = some-injective (m, s) (n, t) (sym (intern_hit m e) ∙ h) in
        inl (e ∙ ap (λ p. some (p.0)) q, ap (λ p. p.1) q)
  ]

  extended-IsInterner :
      (d : StructDescriptor)
      → new_descriptor fields ≡ some d
      → IsInterner s
      → IsInterner (extended d)
  unfolding index_of
  extended-IsInterner d h inv = record { described = described; within = within }
    where
      described :
          (key : Fields) (n : ℕ)
          → index_of key ((fields, length (s.table)) ∷ s.index) ≡ some n
          → get_elem? (s.table ++ d ∷ []) n ≡ new_descriptor key
      described key n e = elim (Bool-cases (fields_eq key fields)) [
        | inl t ↦
            ap (get_elem? (s.table ++ d ∷ []))
              (sym (some-injective (length (s.table)) n (rw t at e)))
            ∙ get_elem?_end (s.table) d
            ∙ sym h
            ∙ ap new_descriptor (sym (fields_eq_sound key fields t))
        | inr t ↦
            get_elem?_front (s.table) (d ∷ []) n (inv.within key n (rw t at e))
            ∙ inv.described key n (rw t at e)
      ]

      within :
          (key : Fields) (n : ℕ)
          → index_of key ((fields, length (s.table)) ∷ s.index) ≡ some n
          → n < length (s.table ++ d ∷ [])
      within key n e = elim (Bool-cases (fields_eq key fields)) [
        | inl t ↦ omega (
          arith,
          some-injective (length (s.table)) n (rw t at e),
          length-append (s.table) (d ∷ []),
        )
        | inr t ↦ omega (arith, inv.within key n (rw t at e), length-append (s.table) (d ∷ []))
      ]

  pub intern-IsInterner :
      (n : ℕ) (t : StructLayoutInterner)
      → intern fields s ≡ some (n, t)
      → IsInterner s
      → IsInterner t
  intern-IsInterner n t h inv = elim (intern_cases n t h) [
    | inl (e, q) ↦ subst IsInterner q inv
    | inr (d, e, k, l, q) ↦ subst IsInterner q (extended-IsInterner d k inv)
  ]

  index_of_new :
      (index : List (Fields × ℕ)) (m n : ℕ) → m ≡ n → index_of fields ((fields, m) ∷ index) ≡ some n
  unfolding index_of
  index_of_new index m n l = rw (fields_eq_self fields) (ap some l)

  intern-index_of :
      (n : ℕ) (t : StructLayoutInterner)
      → intern fields s ≡ some (n, t)
      → index_of fields (t.index) ≡ some n
  intern-index_of n t h = elim (intern_cases n t h) [
    | inl (e, q) ↦ subst (λ x. index_of fields (x.index) ≡ some n) q e
    | inr (d, e, k, l, q) ↦
        subst (λ x. index_of fields (x.index) ≡ some n) q
          (index_of_new (s.index) (length (s.table)) n l)
  ]

  intern-table :
      (n : ℕ) (t : StructLayoutInterner)
      → intern fields s ≡ some (n, t)
      → (added : List StructDescriptor) × (t.table ≡ s.table ++ added)
  intern-table n t h = elim (intern_cases n t h) [
    | inl (e, q) ↦ ([], ap (λ x. x.table) (sym q) ∙ sym (append_nil (s.table)))
    | inr (d, e, k, l, q) ↦ (d ∷ [], ap (λ x. x.table) (sym q))
  ]

-- Any number of shapes interned, one after another.
pub data Interned : StructLayoutInterner → StructLayoutInterner → Type 0 where
  done : (s : StructLayoutInterner) → Interned s s
  then_intern :
      {s t r : StructLayoutInterner}
      → Interned s t
      → (fields : Fields) (n : ℕ) → intern fields t ≡ some (n, r)
      → Interned s r

-- A number that a shape has it keeps, and so the descriptor at that place.
keeps_number :
    (key fields : Fields) (s t : StructLayoutInterner)
    → (m n : ℕ) → index_of key (s.index) ≡ some m
    → intern fields s ≡ some (n, t)
    → index_of key (t.index) ≡ some m
unfolding index_of
keeps_number key fields s t m n e h = elim (intern_cases fields s n t h) [
  | inl (_, q) ↦ subst (λ x. index_of key (x.index) ≡ some m) q e
  | inr (d, missing, _, _, q) ↦
      subst (λ x. index_of key (x.index) ≡ some m) q
        (elim (Bool-cases (fields_eq key fields)) [
          | inl same ↦ absurd (
              none-some (
                sym missing
                ∙ ap (λ x. index_of x (s.index)) (sym (fields_eq_sound key fields same))
                ∙ e))
          | inr other ↦ rw other e
        ])
]

keeps_numbers :
    (key : Fields) {s t : StructLayoutInterner}
    → (m : ℕ) → Interned s t
    → index_of key (s.index) ≡ some m
    → index_of key (t.index) ≡ some m
keeps_numbers key m (done s) e = e
keeps_numbers key m (then_intern {s} {t} {r} p fields n h) e =
    keeps_number key fields t r m n (keeps_numbers key m p e) h

Interned-IsInterner : {s t : StructLayoutInterner} → Interned s t → IsInterner s → IsInterner t
Interned-IsInterner (done s) inv = inv
Interned-IsInterner (then_intern {s} {t} {r} p fields n h) inv =
    intern-IsInterner fields t n r h (Interned-IsInterner p inv)

-- Where the index agrees with the table, a shape is interned with the number `n`, and any shapes are
-- interned after it, the shape's descriptor stands at the place `n` of the table, and to intern the
-- shape again gives `n` and changes nothing.
pub intern_lem :
    (fields : Fields) (s : StructLayoutInterner)
    → IsInterner s
    → (n : ℕ) (t : StructLayoutInterner) → intern fields s ≡ some (n, t)
    → (later : StructLayoutInterner) → Interned t later
    → (get_elem? (later.table) n ≡ new_descriptor fields) × (intern fields later ≡ some (n, later))
intern_lem fields s inv n t h later p =
    let known = keeps_numbers fields n p (intern-index_of fields s n t h) in
    (
      (Interned-IsInterner p (intern-IsInterner fields s n t h inv)).described fields n known,
      intern_hit fields later n known,
    )

-- Where the index agrees with the table, two shapes interned one after the other get one number only if
-- they are the same.
pub intern_injective :
    (fields others : Fields) (s : StructLayoutInterner)
    → IsInterner s
    → (n : ℕ) (t after : StructLayoutInterner) → intern fields s ≡ some (n, t)
    → intern others t ≡ some (n, after)
    → fields ≡ others
intern_injective fields others s inv n t after h k =
    let (added, grown) = intern-table others t n after k in
    let inside =
      (intern-IsInterner fields s n t h inv).within fields n (intern-index_of fields s n t h) in
    let (d, e) = get_elem?-some (t.table) n inside in
    let first = sym ((intern_lem fields s inv n t h t (done t)).0) ∙ e in
    let second =
      sym (
        (intern_lem others t (intern-IsInterner fields s n t h inv) n after k after (done after)).0)
      ∙ ap (λ x. get_elem? x n) grown
      ∙ get_elem?_front (t.table) added n inside
      ∙ e in
    sym (((new_descriptor_lem fields d).0 first).1) ∙ ((new_descriptor_lem others d).0 second).1
