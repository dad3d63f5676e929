-- ===== src/Types/Join/Upper.antt =====
-- `join` is symmetric, and an upper bound of types without references.
use mathlib.Core.Bool.{and-eq-true_iff}
use mavros.Prelude.{
  ◌≡◌, refl, sym, ap, ◌∙◌, ◌↔◌, Bool, true, false, ◌||◌, arith, some, Option-cases, inl, inr,
}
use mavros.Types.{
  TypeExpr, field, witness_of, ref, array, slice, tuple, TypeList, join, join_types, mk_witness_of,
  ◌>>=◌, is_witness_of, is_subtype_of, are_subtypes_of, contains_ptrs, any_contains_ptrs,
}
use mavros.Types.Order.{type_eq_iff}
use mavros.Types.Join.{
  Joins, both, first, second, fields, us, is, arrays, slices, refs, tuples, functions, JoinsAll,
  nils, conses, join-Joins,
}

pub mk_witness : (t : TypeExpr) → is_witness_of t ≡ false → mk_witness_of t ≡ some (witness_of t)
unfolding mk_witness_of is_witness_of
mk_witness (witness_of t) h = cc
mk_witness field h = refl
mk_witness t h = refl

pub join_first :
    (a b : TypeExpr)
    → is_witness_of b ≡ false
    → join (witness_of a) b ≡ (join a b >>= mk_witness_of)
unfolding join is_witness_of
join_first a (witness_of b) h = cc
join_first a field h = refl
join_first a b h = refl

pub join_second :
    (a b : TypeExpr)
    → is_witness_of a ≡ false
    → join a (witness_of b) ≡ (join a b >>= mk_witness_of)
unfolding join is_witness_of
join_second (witness_of a) b h = cc
join_second field b h = refl
join_second a b h = refl

mutual
  unfolding join

  pub Joins-complete : {a b c : TypeExpr} → Joins a b c → join a b ≡ some c
  Joins-complete (both {c} w j) = rw (Joins-complete j) (mk_witness c w)
  Joins-complete (first {a} {b} {c} w n j) =
      rw (join_first a b n, Joins-complete j) (mk_witness c w)
  Joins-complete (second {a} {b} {c} w n j) =
      rw (join_second a b n, Joins-complete j) (mk_witness c w)
  Joins-complete fields = refl
  Joins-complete (us n) = ground arith
  Joins-complete (is n) = ground arith
  Joins-complete (arrays n j) = ground (arith, Joins-complete j)
  Joins-complete (slices j) = rw (Joins-complete j)
  Joins-complete (refs j) = rw (Joins-complete j)
  Joins-complete (tuples j) = rw (all_complete j)
  Joins-complete functions = refl

  all_complete : {a b c : TypeList} → JoinsAll a b c → join_types a b ≡ some c
  all_complete nils = refl
  all_complete (conses j js) = rw (Joins-complete j, all_complete js)

mutual
  Joins-sym : {a b c : TypeExpr} → Joins a b c → Joins b a c
  Joins-sym (both w j) = both w (Joins-sym j)
  Joins-sym (first w n j) = second w n (Joins-sym j)
  Joins-sym (second w n j) = first w n (Joins-sym j)
  Joins-sym fields = fields
  Joins-sym (us n) = us n
  Joins-sym (is n) = is n
  Joins-sym (arrays n j) = arrays n (Joins-sym j)
  Joins-sym (slices j) = slices (Joins-sym j)
  Joins-sym (refs j) = refs (Joins-sym j)
  Joins-sym (tuples j) = tuples (all_sym j)
  Joins-sym functions = functions

  all_sym : {a b c : TypeList} → JoinsAll a b c → JoinsAll b a c
  all_sym nils = nils
  all_sym (conses j js) = conses (Joins-sym j) (all_sym js)

-- `join` returns `c` exactly when the relation `Joins` holds.
pub join_iff : (a b c : TypeExpr) → (join a b ≡ some c) ↔ Joins a b c
join_iff a b c = (join-Joins a b c, Joins-complete)

swap_some : (a b c : TypeExpr) → join a b ≡ some c → join b a ≡ some c
swap_some a b c h = Joins-complete (Joins-sym (join-Joins a b c h))

-- The order of the two types does not matter, neither for the result nor for a panic.
pub join_comm : (a b : TypeExpr) → join a b ≡ join b a
join_comm a b = elim (Option-cases (join a b)) [
  | inr (c, e) ↦ e ∙ sym (swap_some a b c e)
  | inl e ↦ elim (Option-cases (join b a)) [
    | inl f ↦ e ∙ sym f
    | inr (c, f) ↦ absurd (cc (swap_some b a c f))
  ]
]

pub below_witness :
    (b c : TypeExpr)
    → is_witness_of b ≡ false
    → is_subtype_of b c ≡ true
    → is_subtype_of b (witness_of c) ≡ true
unfolding is_subtype_of is_witness_of
below_witness (witness_of b) c n h = cc
below_witness field c n h = h
below_witness b c n h = h

or_split : (a b : Bool) → (a || b) ≡ false → (a ≡ false) × (b ≡ false)
or_split a b h = ground arith

abbrev Above : TypeExpr → TypeExpr → TypeExpr → Type 0
Above a b c = (is_subtype_of a c ≡ true) × (is_subtype_of b c ≡ true)

mutual
  unfolding is_subtype_of contains_ptrs

  Joins-upper : {a b c : TypeExpr} → Joins a b c → contains_ptrs a ≡ false → Above a b c
  Joins-upper (both w j) r = Joins-upper j r
  Joins-upper (first {a} {b} {c} w n j) r =
      let (p, q) = Joins-upper j r in (p, below_witness b c n q)
  Joins-upper (second {a} {b} {c} w n j) r =
      let (p, q) = Joins-upper j r in (below_witness a c n p, q)
  Joins-upper fields r = (refl, refl)
  Joins-upper (us n) r = ground arith
  Joins-upper (is n) r = ground arith
  Joins-upper (arrays n j) r = ground (arith, Joins-upper j r)
  Joins-upper (slices j) r = Joins-upper j r
  Joins-upper (refs j) r = cc
  Joins-upper (tuples j) r = all_upper j r
  Joins-upper functions r = (refl, refl)

  all_upper :
      {a b c : TypeList}
      → JoinsAll a b c
      → any_contains_ptrs a ≡ false
      → (are_subtypes_of a c ≡ true) × (are_subtypes_of b c ≡ true)
  all_upper nils r = (refl, refl)
  all_upper (conses j js) r =
      let (r₁, r₂) = or_split _ _ r in
      let (p, q) = Joins-upper j r₁ in
      let (ps, qs) = all_upper js r₂ in
      ((and-eq-true_iff _ _).1 (p, ps), (and-eq-true_iff _ _).1 (q, qs))

-- The join of two types, one of which holds no reference, is a supertype of both.
pub join_upper :
    (a b c : TypeExpr)
    → contains_ptrs a ≡ false
    → join a b ≡ some c
    → (is_subtype_of a c ≡ true) × (is_subtype_of b c ≡ true)
join_upper a b c r h = Joins-upper (join-Joins a b c h) r

witness_apart : (a b : TypeExpr) → witness_of a ≡ b → is_witness_of b ≡ false → ⊥
unfolding is_witness_of
witness_apart a b e n = cc (ap is_witness_of e)

mutual
  Joins-self : {a b c : TypeExpr} → Joins a b c → a ≡ b → c ≡ a
  Joins-self (both w j) e = ap witness_of (Joins-self j cc)
  Joins-self (first {a} {b} w n j) e = absurd (witness_apart a b e n)
  Joins-self (second {a} {b} w n j) e = absurd (witness_apart b a (sym e) n)
  Joins-self fields e = refl
  Joins-self (us n) e = refl
  Joins-self (is n) e = refl
  Joins-self (arrays n j) e = ap (λ t. array t n) (Joins-self j cc)
  Joins-self (slices j) e = ap slice (Joins-self j cc)
  Joins-self (refs j) e = ap ref (Joins-self j cc)
  Joins-self (tuples j) e = ap tuple (all_self j cc)
  Joins-self functions e = refl

  all_self : {a b c : TypeList} → JoinsAll a b c → a ≡ b → c ≡ a
  all_self nils e = refl
  all_self (conses j js) e = rw (Joins-self j cc, all_self js cc) refl

-- Where two types have a join, the join of the references to them refers to it, and is a supertype of
-- both references exactly when the two types are equal: references are invariant for `is_subtype_of`,
-- while `join` goes below them.
pub join-ref_upper :
    (x y z : TypeExpr)
    → join x y ≡ some z
    → (join (ref x) (ref y) ≡ some (ref z))
      × (((is_subtype_of (ref x) (ref z) ≡ true) × (is_subtype_of (ref y) (ref z) ≡ true))
          ↔ (x ≡ y))
unfolding is_subtype_of
join-ref_upper x y z h =
    let j = join-Joins x y z h in
    (
      Joins-complete (refs j),
      (
        λ p. (type_eq_iff x z).0 (p.0) ∙ sym ((type_eq_iff y z).0 (p.1)),
        λ e.
            let same : z ≡ x = Joins-self j e in
            ((type_eq_iff x z).1 (sym same), (type_eq_iff y z).1 (sym e ∙ sym same)),
      ),
    )
