-- ===== src/Types/Order.antt =====
-- `is_subtype_of` is a partial order, and `==` on types decides equality.
use mathlib.Core.Bool.{and-eq-true_iff}
use mavros.Prelude.{ℕ, ◌≡◌, refl, ◌↔◌, true, ◌==◌, arith, ap}
use mavros.Types.{
  TypeExpr, field, u, i, witness_of, array, slice, ref, tuple, function, TypeList, nil, cons,
  type_eq, type_list_eq, is_subtype_of, are_subtypes_of,
}

==_trans : (n m k : ℕ) → (n == m) ≡ true → (m == k) ≡ true → (n == k) ≡ true
==_trans n m k p q = ground arith

mutual
  unfolding type_eq

  type_eq_refl : (a : TypeExpr) → type_eq a a ≡ true
  type_eq_refl field = refl
  type_eq_refl (u n) = ground arith
  type_eq_refl (i n) = ground arith
  type_eq_refl (witness_of a) = type_eq_refl a
  type_eq_refl (array a n) = ground (arith, type_eq_refl a)
  type_eq_refl (slice a) = type_eq_refl a
  type_eq_refl (ref a) = type_eq_refl a
  type_eq_refl (tuple xs) = type_list_eq_refl xs
  type_eq_refl function = refl

  type_list_eq_refl : (xs : TypeList) → type_list_eq xs xs ≡ true
  type_list_eq_refl nil = refl
  type_list_eq_refl (cons x xs) = ground (arith, type_eq_refl x, type_list_eq_refl xs)

mutual
  unfolding type_eq

  type_eq_sound : (a b : TypeExpr) → type_eq a b ≡ true → a ≡ b
  type_eq_sound field field h = refl
  type_eq_sound (u n) (u m) h = ground arith
  type_eq_sound (i n) (i m) h = ground arith
  type_eq_sound (witness_of a) (witness_of b) h = ground (arith, type_eq_sound a b)
  type_eq_sound (array a n) (array b m) h = ground (arith, type_eq_sound a b)
  type_eq_sound (slice a) (slice b) h = ground (arith, type_eq_sound a b)
  type_eq_sound (ref a) (ref b) h = ground (arith, type_eq_sound a b)
  type_eq_sound (tuple xs) (tuple ys) h = ground (arith, type_list_eq_sound xs ys)
  type_eq_sound function function h = refl
  type_eq_sound _ _ h = cc

  type_list_eq_sound : (xs ys : TypeList) → type_list_eq xs ys ≡ true → xs ≡ ys
  type_list_eq_sound nil nil h = refl
  type_list_eq_sound (cons x xs) (cons y ys) h =
      ground (arith, type_eq_sound x y, type_list_eq_sound xs ys)
  type_list_eq_sound _ _ h = cc

mutual
  unfolding is_subtype_of

  subtype_refl : (a : TypeExpr) → is_subtype_of a a ≡ true
  subtype_refl field = refl
  subtype_refl (u n) = ground arith
  subtype_refl (i n) = ground arith
  subtype_refl (witness_of a) = subtype_refl a
  subtype_refl (array a n) = ground (arith, subtype_refl a)
  subtype_refl (slice a) = subtype_refl a
  subtype_refl (ref a) = type_eq_refl a
  subtype_refl (tuple xs) = subtypes_refl xs
  subtype_refl function = refl

  subtypes_refl : (xs : TypeList) → are_subtypes_of xs xs ≡ true
  subtypes_refl nil = refl
  subtypes_refl (cons x xs) = ground (arith, subtype_refl x, subtypes_refl xs)

mutual
  unfolding is_subtype_of

  subtype_trans :
      (a b c : TypeExpr)
      → is_subtype_of a b ≡ true
      → is_subtype_of b c ≡ true
      → is_subtype_of a c ≡ true
  subtype_trans (witness_of a) (witness_of b) (witness_of c) p q = subtype_trans a b c p q
  subtype_trans a (witness_of b) (witness_of c) p q = subtype_trans a b c p q
  subtype_trans (witness_of a) b (witness_of c) p q = cc
  subtype_trans a b (witness_of c) p q = subtype_trans a b c p q
  subtype_trans field field field p q = refl
  subtype_trans (u n) (u m) (u k) p q = ground arith
  subtype_trans (i n) (i m) (i k) p q = ground arith
  subtype_trans (array a n) (array b m) (array c k) p q =
      let (pn, pa) = (and-eq-true_iff _ _).0 p in
      let (qn, qa) = (and-eq-true_iff _ _).0 q in
      (and-eq-true_iff _ _).1 (==_trans n m k pn qn, subtype_trans a b c pa qa)
  subtype_trans (slice a) (slice b) (slice c) p q = subtype_trans a b c p q
  subtype_trans (ref a) (ref b) (ref c) p q = ground (arith, type_eq_sound a b, type_eq_sound b c)
  subtype_trans (tuple a) (tuple b) (tuple c) p q = subtypes_trans a b c p q
  subtype_trans function function function p q = refl
  subtype_trans _ _ _ p q = cc

  subtypes_trans :
      (a b c : TypeList)
      → are_subtypes_of a b ≡ true
      → are_subtypes_of b c ≡ true
      → are_subtypes_of a c ≡ true
  subtypes_trans nil nil nil p q = refl
  subtypes_trans (cons a xs) (cons b ys) (cons c zs) p q =
      let (px, ps) = (and-eq-true_iff _ _).0 p in
      let (qx, qs) = (and-eq-true_iff _ _).0 q in
      (and-eq-true_iff _ _).1 (subtype_trans a b c px qx, subtypes_trans xs ys zs ps qs)
  subtypes_trans _ _ _ p q = cc

mutual
  unfolding is_subtype_of

  subtype_antisymm : (a b : TypeExpr) → is_subtype_of a b ≡ true → is_subtype_of b a ≡ true → a ≡ b
  subtype_antisymm (witness_of a) (witness_of b) p q = ap witness_of (subtype_antisymm a b p q)
  subtype_antisymm a (witness_of b) p q = cc
  subtype_antisymm (witness_of a) b p q = cc
  subtype_antisymm field field p q = refl
  subtype_antisymm (u n) (u m) p q = ground arith
  subtype_antisymm (i n) (i m) p q = ground arith
  subtype_antisymm (array a n) (array b m) p q = ground (arith, subtype_antisymm a b)
  subtype_antisymm (slice a) (slice b) p q = ap slice (subtype_antisymm a b p q)
  subtype_antisymm (ref a) (ref b) p q = ap ref (type_eq_sound a b p)
  subtype_antisymm (tuple xs) (tuple ys) p q = ap tuple (subtypes_antisymm xs ys p q)
  subtype_antisymm function function p q = refl
  subtype_antisymm _ _ p q = cc

  subtypes_antisymm :
      (xs ys : TypeList) → are_subtypes_of xs ys ≡ true → are_subtypes_of ys xs ≡ true → xs ≡ ys
  subtypes_antisymm nil nil p q = refl
  subtypes_antisymm (cons a xs) (cons b ys) p q =
      ground (arith, subtype_antisymm a b, subtypes_antisymm xs ys)
  subtypes_antisymm _ _ p q = cc

-- `==` decides equality of types.
pub type_eq_iff : (a b : TypeExpr) → (type_eq a b ≡ true) ↔ (a ≡ b)
type_eq_iff a b = (type_eq_sound a b, λ e. rw e (type_eq_refl b))

-- Subtyping is transitive.
pub is_subtype_of_trans :
    (a b c : TypeExpr)
    → is_subtype_of a b ≡ true
    → is_subtype_of b c ≡ true
    → is_subtype_of a c ≡ true
is_subtype_of_trans a b c p q = subtype_trans a b c p q

pub is_subtype_of_refl : (a : TypeExpr) → is_subtype_of a a ≡ true
is_subtype_of_refl a = subtype_refl a

-- Two types are subtypes of one another exactly when they are equal.
pub is_subtype_of_antisymm :
    (a b : TypeExpr) → ((is_subtype_of a b ≡ true) × (is_subtype_of b a ≡ true)) ↔ (a ≡ b)
is_subtype_of_antisymm a b =
    (λ (p, q). subtype_antisymm a b p q, λ e. rw e (subtype_refl b, subtype_refl b))
