-- ===== src/Types/Join.antt =====
-- `join` against a relation that states its cases one by one.
pub mod Upper
pub mod Least
use mathlib.Core.Path.{subst, subst₂}
use mavros.Prelude.{
  ℕ, ◌≡◌, refl, true, false, arith, ap, sym, Option, none, some, Option-cases, inl, inr, Bool-cases,
  ◌==◌, if◌then◌else◌,
}
use mavros.Types.{
  TypeExpr, field, u, i, witness_of, array, slice, ref, tuple, function, TypeList, nil, cons, join,
  join_types, mk_witness_of, ◌>>=◌, is_witness_of, join_field, join_u, join_i, join_array,
  join_slice, join_ref, join_tuple, join_function, join_witness, unwrap_second, join_cons, join_nil,
}

-- `Joins a b c`: the join of `a` and `b` is `c`. `WitnessOf` on either side stands on the join; below
-- it the two types have one shape.
mutual
  pub data Joins : TypeExpr → TypeExpr → TypeExpr → Type 0 where
    both :
        {a b c : TypeExpr}
        → is_witness_of c ≡ false
        → Joins a b c
        → Joins (witness_of a) (witness_of b) (witness_of c)
    first :
        {a b c : TypeExpr}
        → is_witness_of c ≡ false
        → is_witness_of b ≡ false
        → Joins a b c
        → Joins (witness_of a) b (witness_of c)
    second :
        {a b c : TypeExpr}
        → is_witness_of c ≡ false
        → is_witness_of a ≡ false
        → Joins a b c
        → Joins a (witness_of b) (witness_of c)
    fields : Joins field field field
    us : (n : ℕ) → Joins (u n) (u n) (u n)
    is : (n : ℕ) → Joins (i n) (i n) (i n)
    arrays : {a b c : TypeExpr} (n : ℕ) → Joins a b c → Joins (array a n) (array b n) (array c n)
    slices : {a b c : TypeExpr} → Joins a b c → Joins (slice a) (slice b) (slice c)
    refs : {a b c : TypeExpr} → Joins a b c → Joins (ref a) (ref b) (ref c)
    tuples : {a b c : TypeList} → JoinsAll a b c → Joins (tuple a) (tuple b) (tuple c)
    functions : Joins function function function

  pub data JoinsAll : TypeList → TypeList → TypeList → Type 0 where
    nils : JoinsAll nil nil nil
    conses :
        {a b c : TypeExpr} {xs ys zs : TypeList}
        → Joins a b c
        → JoinsAll xs ys zs
        → JoinsAll (cons a xs) (cons b ys) (cons c zs)

bind_mk_inv :
    (m : Option TypeExpr) (c : TypeExpr)
    → (m >>= mk_witness_of) ≡ some c
    → (t : TypeExpr) × (m ≡ some t) × (witness_of t ≡ c) × (is_witness_of t ≡ false)
unfolding mk_witness_of is_witness_of
bind_mk_inv none c h = cc
bind_mk_inv (some (witness_of t)) c h = cc
bind_mk_inv (some field) c h = (field, refl, cc, refl)
bind_mk_inv (some t) c h = (t, refl, cc, refl)

-- The inversion of the wrapped cases.
wrap :
    (a b : TypeExpr) (m : Option TypeExpr) (c : TypeExpr)
    → (m >>= mk_witness_of) ≡ some c
    → ((t : TypeExpr) → m ≡ some t → is_witness_of t ≡ false → Joins a b (witness_of t))
    → Joins a b c
wrap a b m c h k = let (t, p, q, w) = bind_mk_inv m c h in subst (Joins a b) q (k t p w)

abbrev Sound : TypeExpr → (TypeExpr → Option TypeExpr) → Type 0
Sound a go = (b c : TypeExpr) → go b ≡ some c → Joins a b c

join_witness-Sound :
    (a : TypeExpr) (go : TypeExpr → Option TypeExpr)
    → Sound a go
    → Sound (witness_of a) (join_witness go)
unfolding join_witness is_witness_of
join_witness-Sound a go ih (witness_of b) c h =
    wrap (witness_of a) (witness_of b) _ c h (λ t p w. both w (ih b t p))
join_witness-Sound a go ih field c h =
    wrap (witness_of a) field _ c h (λ t p w. first w refl (ih field t p))
join_witness-Sound a go ih b c h = wrap (witness_of a) b _ c h (λ t p w. first w refl (ih b t p))

unwrap_second-Sound :
    (a : TypeExpr) (go : TypeExpr → Option TypeExpr)
    → is_witness_of a ≡ false
    → Sound a go
    → Sound a (unwrap_second go)
unfolding unwrap_second
unwrap_second-Sound a go n ih (witness_of b) c h =
    wrap a (witness_of b) _ c h (λ t p w. second w n (unwrap_second-Sound a go n ih b t p))
unwrap_second-Sound a go n ih field c h = ih field c h
unwrap_second-Sound a go n ih b c h = ih b c h

-- `some` of a wrapped result: the result is known, and so is what was wrapped.
bind_inv :
    {A B : Type 0} (m : Option A) (f : A → B) (c : B)
    → (m >>= λ t. some (f t)) ≡ some c
    → (t : A) × (m ≡ some t) × (f t ≡ c)
bind_inv none f c h = cc
bind_inv (some t) f c h = (t, refl, cc)

join_field-Sound : Sound field join_field
unfolding join_field
join_field-Sound field c h = subst (Joins field field) (cc h) fields
join_field-Sound b c h = cc

if_inv :
    (n m : ℕ) (o : Option TypeExpr) (c : TypeExpr)
    → (if n == m then o else none) ≡ some c
    → (n ≡ m) × (o ≡ some c)
if_inv n m o c h = ground arith

join_u-Sound : (n : ℕ) → Sound (u n) (join_u n)
unfolding join_u
join_u-Sound n (u m) c h =
    let (e, p) = if_inv n m (some (u n)) c h in subst₂ (λ k t. Joins (u n) (u k) t) e (cc p) (us n)
join_u-Sound n field c h = cc
join_u-Sound n b c h = cc

join_i-Sound : (n : ℕ) → Sound (i n) (join_i n)
unfolding join_i
join_i-Sound n (i m) c h =
    let (e, p) = if_inv n m (some (i n)) c h in subst₂ (λ k t. Joins (i n) (i k) t) e (cc p) (is n)
join_i-Sound n field c h = cc
join_i-Sound n b c h = cc

join_array-Sound :
    (a : TypeExpr) (go : TypeExpr → Option TypeExpr) (n : ℕ)
    → Sound a go
    → Sound (array a n) (join_array go n)
unfolding join_array
join_array-Sound a go n ih (array b m) c h =
    let (e, p) = if_inv n m _ c h in
    let (t, q, r) = bind_inv (go b) (λ t. array t n) c p in
    subst₂ (λ k t. Joins (array a n) (array b k) t) e r (arrays n (ih b t q))
join_array-Sound a go n ih field c h = cc
join_array-Sound a go n ih b c h = cc

join_slice-Sound :
    (a : TypeExpr) (go : TypeExpr → Option TypeExpr) → Sound a go → Sound (slice a) (join_slice go)
unfolding join_slice
join_slice-Sound a go ih (slice b) c h =
    let (t, q, r) = bind_inv (go b) slice c h in
    subst (Joins (slice a) (slice b)) r (slices (ih b t q))
join_slice-Sound a go ih field c h = cc
join_slice-Sound a go ih b c h = cc

join_ref-Sound :
    (a : TypeExpr) (go : TypeExpr → Option TypeExpr) → Sound a go → Sound (ref a) (join_ref go)
unfolding join_ref
join_ref-Sound a go ih (ref b) c h =
    let (t, q, r) = bind_inv (go b) ref c h in subst (Joins (ref a) (ref b)) r (refs (ih b t q))
join_ref-Sound a go ih field c h = cc
join_ref-Sound a go ih b c h = cc

abbrev AllSound : TypeList → (TypeList → Option TypeList) → Type 0
AllSound xs go = (ys zs : TypeList) → go ys ≡ some zs → JoinsAll xs ys zs

join_tuple-Sound :
    (xs : TypeList) (go : TypeList → Option TypeList)
    → AllSound xs go
    → Sound (tuple xs) (join_tuple go)
unfolding join_tuple
join_tuple-Sound xs go ih (tuple ys) c h =
    let (t, q, r) = bind_inv (go ys) tuple c h in
    subst (Joins (tuple xs) (tuple ys)) r (tuples (ih ys t q))
join_tuple-Sound xs go ih field c h = cc
join_tuple-Sound xs go ih b c h = cc

join_function-Sound : Sound function join_function
unfolding join_function
join_function-Sound function c h = subst (Joins function function) (cc h) functions
join_function-Sound b c h = cc

join_nil_sound : AllSound nil join_nil
unfolding join_nil
join_nil_sound nil zs h = subst (JoinsAll nil nil) (cc h) nils
join_nil_sound (cons y ys) zs h = cc

join_cons-Sound :
    (x : TypeExpr) (xs : TypeList) (go : TypeExpr → Option TypeExpr)
    (gos : TypeList → Option TypeList)
    → Sound x go
    → AllSound xs gos
    → AllSound (cons x xs) (join_cons go gos)
unfolding join_cons
join_cons-Sound x xs go gos ih ihs nil zs h = cc
join_cons-Sound x xs go gos ih ihs (cons y ys) zs h = elim (Option-cases (go y)) [
  | inl e ↦ absurd (cc (rw e at h))
  | inr (t, e) ↦
      let (ts, q, r) = bind_inv (gos ys) (cons t) zs (rw e at h) in
      subst (JoinsAll (cons x xs) (cons y ys)) r (conses (ih y t e) (ihs ys ts q))
]

mutual
  unfolding join is_witness_of

  join-Sound : (a : TypeExpr) → Sound a (join a)
  join-Sound (witness_of a) = join_witness-Sound a (join a) (join-Sound a)
  join-Sound field = unwrap_second-Sound field join_field refl join_field-Sound
  join-Sound (u n) = unwrap_second-Sound (u n) (join_u n) refl (join_u-Sound n)
  join-Sound (i n) = unwrap_second-Sound (i n) (join_i n) refl (join_i-Sound n)
  join-Sound (array a n) =
      unwrap_second-Sound (array a n) _ refl (join_array-Sound a (join a) n (join-Sound a))
  join-Sound (slice a) =
      unwrap_second-Sound (slice a) _ refl (join_slice-Sound a (join a) (join-Sound a))
  join-Sound (ref a) = unwrap_second-Sound (ref a) _ refl (join_ref-Sound a (join a) (join-Sound a))
  join-Sound (tuple xs) =
      unwrap_second-Sound (tuple xs) _ refl (join_tuple-Sound xs (join_types xs) (joins_sound xs))
  join-Sound function = unwrap_second-Sound function join_function refl join_function-Sound

  joins_sound : (xs : TypeList) → AllSound xs (join_types xs)
  joins_sound nil = join_nil_sound
  joins_sound (cons x xs) =
      join_cons-Sound x xs (join x) (join_types xs) (join-Sound x) (joins_sound xs)

-- What `join` returns is a join.
pub join-Joins : (a b c : TypeExpr) → join a b ≡ some c → Joins a b c
join-Joins a b c h = join-Sound a b c h
