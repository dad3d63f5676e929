-- ===== src/Types/Strip.antt =====
-- `strip_all_witness` forgets exactly what subtyping and `join` change.
use mathlib.Core.Bool.{and-eq-true_iff}
use mathlib.Core.Path.{ap₂}
use mavros.Prelude.{==_eq, ◌≡◌, refl, ap, true, some}
use mavros.Types.{
  TypeExpr, field, u, i, witness_of, array, slice, ref, tuple, function, TypeList, nil, cons, join,
  is_subtype_of, are_subtypes_of, strip_all_witness, strip_all_witnesses,
}
use mavros.Types.Order.{type_eq_iff}
use mavros.Types.Join.{
  Joins, both, first, second, fields, us, is, arrays, slices, refs, tuples, functions, JoinsAll,
  nils, conses, join-Joins,
}

mutual
  unfolding is_subtype_of strip_all_witness

  subtype_strip :
      (a b : TypeExpr) → is_subtype_of a b ≡ true → strip_all_witness a ≡ strip_all_witness b
  subtype_strip (witness_of a) (witness_of b) h = subtype_strip a b h
  subtype_strip a (witness_of b) h = subtype_strip a b h
  subtype_strip (witness_of a) b h = cc
  subtype_strip field field h = refl
  subtype_strip (u n) (u m) h = ap u (==_eq n m h)
  subtype_strip (i n) (i m) h = ap i (==_eq n m h)
  subtype_strip (array a n) (array b m) h =
      let (p, q) = (and-eq-true_iff _ _).0 h in ap₂ array (subtype_strip a b q) (==_eq n m p)
  subtype_strip (slice a) (slice b) h = ap slice (subtype_strip a b h)
  subtype_strip (ref a) (ref b) h = ap (λ t. ref (strip_all_witness t)) ((type_eq_iff a b).0 h)
  subtype_strip (tuple xs) (tuple ys) h = ap tuple (subtypes_strip xs ys h)
  subtype_strip function function h = refl
  subtype_strip _ _ h = cc

  subtypes_strip :
      (xs ys : TypeList)
      → are_subtypes_of xs ys ≡ true
      → strip_all_witnesses xs ≡ strip_all_witnesses ys
  subtypes_strip nil nil h = refl
  subtypes_strip (cons x xs) (cons y ys) h =
      let (p, q) = (and-eq-true_iff _ _).0 h in
      ap₂ cons (subtype_strip x y p) (subtypes_strip xs ys q)
  subtypes_strip _ _ h = cc

abbrev pub SameStripped : TypeExpr → TypeExpr → TypeExpr → Type 0
SameStripped a b c =
    (strip_all_witness a ≡ strip_all_witness c) × (strip_all_witness b ≡ strip_all_witness c)

mutual
  unfolding strip_all_witness

  Joins-strip : {a b c : TypeExpr} → Joins a b c → SameStripped a b c
  Joins-strip (both w j) = Joins-strip j
  Joins-strip (first w n j) = Joins-strip j
  Joins-strip (second w n j) = Joins-strip j
  Joins-strip fields = (refl, refl)
  Joins-strip (us n) = (refl, refl)
  Joins-strip (is n) = (refl, refl)
  Joins-strip (arrays n j) =
      let (p, q) = Joins-strip j in (ap (λ t. array t n) p, ap (λ t. array t n) q)
  Joins-strip (slices j) = let (p, q) = Joins-strip j in (ap slice p, ap slice q)
  Joins-strip (refs j) = let (p, q) = Joins-strip j in (ap ref p, ap ref q)
  Joins-strip (tuples j) = let (p, q) = all_strip j in (ap tuple p, ap tuple q)
  Joins-strip functions = (refl, refl)

  all_strip :
      {a b c : TypeList}
      → JoinsAll a b c
      → (strip_all_witnesses a ≡ strip_all_witnesses c)
        × (strip_all_witnesses b ≡ strip_all_witnesses c)
  all_strip nils = (refl, refl)
  all_strip (conses j js) =
      let (p, q) = Joins-strip j in let (ps, qs) = all_strip js in (ap₂ cons p ps, ap₂ cons q qs)

-- A subtype and its supertype are the same type once every `WitnessOf` is stripped.
strip_all_witness-subtype :
    (a b : TypeExpr) → is_subtype_of a b ≡ true → strip_all_witness a ≡ strip_all_witness b
strip_all_witness-subtype a b h = subtype_strip a b h

-- Two types that `join` joins and their join are the same type once every `WitnessOf` is stripped.
pub strip_all_witness-join : (a b c : TypeExpr) → join a b ≡ some c → SameStripped a b c
strip_all_witness-join a b c h = Joins-strip (join-Joins a b c h)
