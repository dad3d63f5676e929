-- ===== src/Types/Join/Least.antt =====
-- `join` returns a type below every common supertype.
use mathlib.Core.Bool.{and-eq-true_iff}
use mathlib.Core.Path.{subst₂}
use mavros.Prelude.{==_eq, ==_self, ◌≡◌, refl, sym, ap, ◌∙◌, true, false, arith, some, ℕ, ◌↔◌}
use mavros.Types.{
  TypeExpr, field, u, i, witness_of, array, slice, ref, tuple, function, TypeList, nil, cons, join,
  is_witness_of, is_subtype_of, are_subtypes_of, is_single_wrapped, are_single_wrapped,
  contains_ptrs,
}
use mavros.Types.Order.{type_eq_iff, is_subtype_of_antisymm, is_subtype_of_refl}
use mavros.Types.Join.{
  Joins, both, first, second, fields, us, is, arrays, slices, refs, tuples, functions, JoinsAll,
  nils, conses,
}
use mavros.Types.Join.Upper.{Joins-complete, below_witness, join_upper, join_comm}

below_unwrapped :
    (a d : TypeExpr) → is_witness_of d ≡ false → is_subtype_of a d ≡ true → is_witness_of a ≡ false
unfolding is_subtype_of is_witness_of
below_unwrapped a (witness_of d) n h = cc
below_unwrapped (witness_of a) field n h = cc
below_unwrapped (witness_of a) d n h = cc
below_unwrapped field field n h = refl
below_unwrapped a d n h = refl

-- A supertype `d` of two types has their join below it.
abbrev Meets : TypeExpr → TypeExpr → TypeExpr → Type 0
Meets a b d = (c : TypeExpr) × Joins a b c × (is_subtype_of c d ≡ true)

abbrev MeetsAll : TypeList → TypeList → TypeList → Type 0
MeetsAll xs ys ds = (zs : TypeList) × JoinsAll xs ys zs × (are_subtypes_of zs ds ≡ true)

-- The four ways in which two types stand below `WitnessOf`.
Meets-both :
    (a b d : TypeExpr)
    → is_witness_of d ≡ false
    → Meets a b d
    → Meets (witness_of a) (witness_of b) (witness_of d)
unfolding is_subtype_of
Meets-both a b d n (c, j, p) = (witness_of c, both (below_unwrapped c d n p) j, p)

Meets-first :
    (a b d : TypeExpr)
    → is_witness_of d ≡ false
    → is_witness_of b ≡ false
    → Meets a b d
    → Meets (witness_of a) b (witness_of d)
unfolding is_subtype_of
Meets-first a b d n m (c, j, p) = (witness_of c, first (below_unwrapped c d n p) m j, p)

Meets-second :
    (a b d : TypeExpr)
    → is_witness_of d ≡ false
    → is_witness_of a ≡ false
    → Meets a b d
    → Meets a (witness_of b) (witness_of d)
unfolding is_subtype_of
Meets-second a b d n m (c, j, p) = (witness_of c, second (below_unwrapped c d n p) m j, p)

Meets-neither :
    (a b d : TypeExpr) → is_witness_of d ≡ false → Meets a b d → Meets a b (witness_of d)
Meets-neither a b d n (c, j, p) = (c, j, below_witness c d (below_unwrapped c d n p) p)

unwrapped_part :
    (d : TypeExpr)
    → is_single_wrapped (witness_of d) ≡ true
    → (is_witness_of d ≡ false) × (is_single_wrapped d ≡ true)
unfolding is_single_wrapped
unwrapped_part d h = ground arith

mutual
  unfolding is_single_wrapped is_witness_of

  -- The join of a type with itself.
  Joins-idem : (a : TypeExpr) → is_single_wrapped a ≡ true → Joins a a a
  Joins-idem (witness_of a) h = let (n, s) = unwrapped_part a h in both n (Joins-idem a s)
  Joins-idem field h = fields
  Joins-idem (u n) h = us n
  Joins-idem (i n) h = is n
  Joins-idem (array a n) h = arrays n (Joins-idem a h)
  Joins-idem (slice a) h = slices (Joins-idem a h)
  Joins-idem (ref a) h = refs (Joins-idem a h)
  Joins-idem (tuple xs) h = tuples (all_idem xs h)
  Joins-idem function h = functions

  all_idem : (xs : TypeList) → are_single_wrapped xs ≡ true → JoinsAll xs xs xs
  all_idem nil h = nils
  all_idem (cons x xs) h =
      let (p, q) = (and-eq-true_iff _ _).0 h in conses (Joins-idem x p) (all_idem xs q)

-- What stands below a type that is not wrapped has its shape.
array_inv :
    (a d : TypeExpr) (n : ℕ)
    → is_subtype_of a (array d n) ≡ true
    → (x : TypeExpr) × (a ≡ array x n) × (is_subtype_of x d ≡ true)
unfolding is_subtype_of
array_inv (array x m) d n h =
    let (p, q) = (and-eq-true_iff _ _).0 h in (x, ap (array x) (==_eq m n p), q)
array_inv field d n h = cc
array_inv _ d n h = cc

slice_inv :
    (a d : TypeExpr)
    → is_subtype_of a (slice d) ≡ true
    → (x : TypeExpr) × (a ≡ slice x) × (is_subtype_of x d ≡ true)
unfolding is_subtype_of
slice_inv (slice x) d h = (x, refl, h)
slice_inv field d h = cc
slice_inv _ d h = cc

ref_inv : (a d : TypeExpr) → is_subtype_of a (ref d) ≡ true → a ≡ ref d
unfolding is_subtype_of
ref_inv (ref x) d h = ap ref ((type_eq_iff x d).0 h)
ref_inv field d h = cc
ref_inv _ d h = cc

tuple_inv :
    (a : TypeExpr) (ds : TypeList)
    → is_subtype_of a (tuple ds) ≡ true
    → (xs : TypeList) × (a ≡ tuple xs) × (are_subtypes_of xs ds ≡ true)
unfolding is_subtype_of
tuple_inv (tuple xs) ds h = (xs, refl, h)
tuple_inv field ds h = cc
tuple_inv _ ds h = cc

cons_inv :
    (xs : TypeList) (d : TypeExpr) (ds : TypeList)
    → are_subtypes_of xs (cons d ds) ≡ true
    → (y : TypeExpr) × (ys : TypeList) × (xs ≡ cons y ys)
      × (is_subtype_of y d ≡ true)
      × (are_subtypes_of ys ds ≡ true)
unfolding are_subtypes_of
cons_inv nil d ds h = cc
cons_inv (cons y ys) d ds h = let (p, q) = (and-eq-true_iff _ _).0 h in (y, ys, refl, p, q)

nil_inv : (xs : TypeList) → are_subtypes_of xs nil ≡ true → xs ≡ nil
unfolding are_subtypes_of
nil_inv nil h = refl
nil_inv (cons y ys) h = cc

field_inv : (a : TypeExpr) → is_subtype_of a field ≡ true → a ≡ field
unfolding is_subtype_of
field_inv field h = refl
field_inv (u n) h = cc
field_inv _ h = cc

u_inv : (a : TypeExpr) (n : ℕ) → is_subtype_of a (u n) ≡ true → a ≡ u n
unfolding is_subtype_of
u_inv (u m) n h = ap u (==_eq m n h)
u_inv field n h = cc
u_inv _ n h = cc

i_inv : (a : TypeExpr) (n : ℕ) → is_subtype_of a (i n) ≡ true → a ≡ i n
unfolding is_subtype_of
i_inv (i m) n h = ap i (==_eq m n h)
i_inv field n h = cc
i_inv _ n h = cc

function_inv : (a : TypeExpr) → is_subtype_of a function ≡ true → a ≡ function
unfolding is_subtype_of
function_inv function h = refl
function_inv field h = cc
function_inv _ h = cc

-- Two types equal to one that joins with itself.
Meets-self : (a b d : TypeExpr) → is_single_wrapped d ≡ true → a ≡ d → b ≡ d → Meets a b d
Meets-self a b d s p q =
    subst₂ (λ x y. Meets x y d) (sym p) (sym q) (d, Joins-idem d s, is_subtype_of_refl d)

Meets-array : (x y d : TypeExpr) (n : ℕ) → Meets x y d → Meets (array x n) (array y n) (array d n)
unfolding is_subtype_of
Meets-array x y d n (c, j, p) = (array c n, arrays n j, (and-eq-true_iff _ _).1 (==_self n, p))

mutual
  unfolding is_subtype_of is_single_wrapped is_witness_of

  meets :
      (a b d : TypeExpr)
      → is_single_wrapped d ≡ true
      → is_subtype_of a d ≡ true
      → is_subtype_of b d ≡ true
      → Meets a b d
  meets (witness_of a) (witness_of b) (witness_of d) s p q =
      let (n, s') = unwrapped_part d s in Meets-both a b d n (meets a b d s' p q)
  meets (witness_of a) b (witness_of d) s p q =
      let (n, s') = unwrapped_part d s in Meets-first a b d n refl (meets a b d s' p q)
  meets a (witness_of b) (witness_of d) s p q =
      let (n, s') = unwrapped_part d s in Meets-second a b d n refl (meets a b d s' p q)
  meets a b (witness_of d) s p q =
      let (n, s') = unwrapped_part d s in Meets-neither a b d n (meets a b d s' p q)
  meets a b field s p q = Meets-self a b field s (field_inv a p) (field_inv b q)
  meets a b (u n) s p q = Meets-self a b (u n) s (u_inv a n p) (u_inv b n q)
  meets a b (i n) s p q = Meets-self a b (i n) s (i_inv a n p) (i_inv b n q)
  meets a b (ref d) s p q = Meets-self a b (ref d) s (ref_inv a d p) (ref_inv b d q)
  meets a b function s p q = Meets-self a b function s (function_inv a p) (function_inv b q)
  meets a b (array d n) s p q =
      let (x, e, p') = array_inv a d n p in
      let (y, f, q') = array_inv b d n q in
      subst₂ (λ v w. Meets v w (array d n)) (sym e) (sym f)
        (Meets-array x y d n (meets x y d s p' q'))
  meets a b (slice d) s p q =
      let (x, e, p') = slice_inv a d p in
      let (y, f, q') = slice_inv b d q in
      let (c, j, r) = meets x y d s p' q' in
      subst₂ (λ v w. Meets v w (slice d)) (sym e) (sym f) (slice c, slices j, r)
  meets a b (tuple ds) s p q =
      let (xs, e, p') = tuple_inv a ds p in
      let (ys, f, q') = tuple_inv b ds q in
      let (zs, j, r) = meets_all xs ys ds s p' q' in
      subst₂ (λ v w. Meets v w (tuple ds)) (sym e) (sym f) (tuple zs, tuples j, r)

  meets_all :
      (xs ys ds : TypeList)
      → are_single_wrapped ds ≡ true
      → are_subtypes_of xs ds ≡ true
      → are_subtypes_of ys ds ≡ true
      → MeetsAll xs ys ds
  meets_all xs ys nil s p q =
      subst₂ (λ v w. MeetsAll v w nil) (sym (nil_inv xs p)) (sym (nil_inv ys q)) (nil, nils, refl)
  meets_all xs ys (cons d ds) s p q =
      let (s₁, s₂) = (and-eq-true_iff _ _).0 s in
      let (x, xt, e, p₁, p₂) = cons_inv xs d ds p in
      let (y, yt, f, q₁, q₂) = cons_inv ys d ds q in
      let (c, j, r) = meets x y d s₁ p₁ q₁ in
      let (cs, js, rs) = meets_all xt yt ds s₂ p₂ q₂ in
      subst₂ (λ v w. MeetsAll v w (cons d ds)) (sym e) (sym f)
        (cons c cs, conses j js, (and-eq-true_iff _ _).1 (r, rs))

-- Two types with a common supertype have a join, which `join` returns and which is below that
-- supertype, where the supertype has no `WitnessOf` directly under another.
pub join_least :
    (a b d : TypeExpr)
    → is_single_wrapped d ≡ true
    → is_subtype_of a d ≡ true
    → is_subtype_of b d ≡ true
    → (c : TypeExpr) × (join a b ≡ some c) × (is_subtype_of c d ≡ true)
join_least a b d s p q = let (c, j, r) = meets a b d s p q in (c, Joins-complete j, r)

-- A type is a subtype of another without references exactly when their join is the other, where the
-- other has no `WitnessOf` directly under another.
pub is_subtype_of-join :
    (a b : TypeExpr)
    → is_single_wrapped b ≡ true
    → contains_ptrs b ≡ false
    → (is_subtype_of a b ≡ true) ↔ (join a b ≡ some b)
is_subtype_of-join a b s r = (
  λ h.
      let (c, e, p) = join_least a b b s h (is_subtype_of_refl b) in
      let q = join_upper b a c r (join_comm b a ∙ e) in
      e ∙ ap some ((is_subtype_of_antisymm c b).0 (p, q.0)),
  λ h. (join_upper b a b r (join_comm b a ∙ h)).1,
)
