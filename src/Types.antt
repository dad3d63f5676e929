-- ===== src/Types.antt =====
-- compiler/src/compiler/ssa/hlssa/type_system.rs: the types of the high-level SSA, the subtyping by
-- `WitnessOf` and the join of two types. `Type` is a struct around a `TypeExpr`; the model has the
-- one type. A panic is `none`.
pub mod Order
pub mod Join
pub mod Access
pub mod Strip
mod Tests
use mathlib.Core.Bool.{not}
use mavros.Prelude.{
  ℕ, ◌+◌, ◌≡◌, refl, Bool, true, false, ◌&&◌, ◌||◌, Option, none, some, ◌==◌, if◌then◌else◌,
}

mutual
  pub data TypeExpr : Type 0 where
    field : TypeExpr
    u : ℕ → TypeExpr
    i : ℕ → TypeExpr
    witness_of : TypeExpr → TypeExpr
    array : TypeExpr → ℕ → TypeExpr
    slice : TypeExpr → TypeExpr
    ref : TypeExpr → TypeExpr
    tuple : TypeList → TypeExpr
    function : TypeExpr

  -- `Vec<Type>`
  pub data TypeList : Type 0 where
    nil : TypeList
    cons : TypeExpr → TypeList → TypeList

-- `?` on a computation that may panic.
infixl 5 ◌>>=◌
abbrev pub ◌>>=◌ : {A B : Type 0} → Option A → (A → Option B) → Option B
none >>= f = none
some a >>= f = f a

pub bind_some :
    {A B : Type 0} (o : Option A) (f : A → Option B) (b : B)
    → (o >>= f) ≡ some b
    → (a : A) × (o ≡ some a) × (f a ≡ some b)
bind_some none f b h = cc
bind_some (some a) f b h = (a, refl, h)

unfoldable pub is_witness_of : TypeExpr → Bool
is_witness_of (witness_of t) = true
is_witness_of _ = false

-- `Type::witness_of`, which refuses to wrap a wrapped type.
unfoldable pub mk_witness_of : TypeExpr → Option TypeExpr
mk_witness_of (witness_of t) = none
mk_witness_of t = some (witness_of t)

-- `==`, the derived equality.
unfoldable mutual
  pub type_eq : TypeExpr → TypeExpr → Bool
  type_eq field field = true
  type_eq (u n) (u m) = n == m
  type_eq (i n) (i m) = n == m
  type_eq (witness_of a) (witness_of b) = type_eq a b
  type_eq (array a n) (array b m) = type_eq a b && n == m
  type_eq (slice a) (slice b) = type_eq a b
  type_eq (ref a) (ref b) = type_eq a b
  type_eq (tuple xs) (tuple ys) = type_list_eq xs ys
  type_eq function function = true
  type_eq _ _ = false

  pub type_list_eq : TypeList → TypeList → Bool
  type_list_eq nil nil = true
  type_list_eq (cons a xs) (cons b ys) = type_eq a b && type_list_eq xs ys
  type_list_eq _ _ = false

-- The arms in the source's order; every call is on a part of the second type.
unfoldable mutual
  pub is_subtype_of : TypeExpr → TypeExpr → Bool
  is_subtype_of (witness_of a) (witness_of b) = is_subtype_of a b
  is_subtype_of a (witness_of b) = is_subtype_of a b
  is_subtype_of (witness_of a) b = false
  is_subtype_of field field = true
  is_subtype_of (u n) (u m) = n == m
  is_subtype_of (i n) (i m) = n == m
  is_subtype_of (array x n) (array y m) = n == m && is_subtype_of x y
  is_subtype_of (slice x) (slice y) = is_subtype_of x y
  is_subtype_of (tuple xs) (tuple ys) = are_subtypes_of xs ys
  is_subtype_of (ref x) (ref y) = type_eq x y
  is_subtype_of function function = true
  is_subtype_of _ _ = false

  -- The same length, and each element a subtype.
  pub are_subtypes_of : TypeList → TypeList → Bool
  are_subtypes_of nil nil = true
  are_subtypes_of (cons x xs) (cons y ys) = is_subtype_of x y && are_subtypes_of xs ys
  are_subtypes_of _ _ = false

unfoldable pub needs_witness_cast : TypeExpr → TypeExpr → Bool
needs_witness_cast a target = not (type_eq a target) && is_subtype_of a target

-- The arms of `join` by the first type. `go` is the recursive call on its part.
join_field : TypeExpr → Option TypeExpr
join_field field = some field
join_field _ = none

join_u : ℕ → TypeExpr → Option TypeExpr
join_u n (u m) = if n == m then some (u n) else none
join_u n _ = none

join_i : ℕ → TypeExpr → Option TypeExpr
join_i n (i m) = if n == m then some (i n) else none
join_i n _ = none

join_array : (TypeExpr → Option TypeExpr) → ℕ → TypeExpr → Option TypeExpr
join_array go n (array y m) = if n == m then go y >>= (λ t. some (array t n)) else none
join_array go n _ = none

join_slice : (TypeExpr → Option TypeExpr) → TypeExpr → Option TypeExpr
join_slice go (slice y) = do t ← go y; some (slice t)
join_slice go _ = none

join_ref : (TypeExpr → Option TypeExpr) → TypeExpr → Option TypeExpr
join_ref go (ref y) = do t ← go y; some (ref t)
join_ref go _ = none

join_tuple : (TypeList → Option TypeList) → TypeExpr → Option TypeExpr
join_tuple go (tuple ys) = do ts ← go ys; some (tuple ts)
join_tuple go _ = none

join_function : TypeExpr → Option TypeExpr
join_function function = some function
join_function _ = none

-- The arms where the first type is `WitnessOf`: the second is unwrapped if it is too.
join_witness : (TypeExpr → Option TypeExpr) → TypeExpr → Option TypeExpr
join_witness go (witness_of b) = go b >>= mk_witness_of
join_witness go b = go b >>= mk_witness_of

-- The arm where only the second type is `WitnessOf`: unwrap it, join and wrap.
unwrap_second : (TypeExpr → Option TypeExpr) → TypeExpr → Option TypeExpr
unwrap_second go (witness_of b) = unwrap_second go b >>= mk_witness_of
unwrap_second go b = go b

join_cons : (TypeExpr → Option TypeExpr) → (TypeList → Option TypeList) → TypeList → Option TypeList
join_cons go gos (cons y ys) = do t ← go y; ts ← gos ys; some (cons t ts)
join_cons go gos nil = none

join_nil : TypeList → Option TypeList
join_nil nil = some nil
join_nil _ = none

unfoldable mutual
  unfolding join_field join_u join_i join_array join_slice join_ref join_tuple join_function
      join_witness unwrap_second join_cons join_nil mk_witness_of

  pub join : TypeExpr → TypeExpr → Option TypeExpr
  join (witness_of a) b = join_witness (join a) b
  join field b = unwrap_second join_field b
  join (u n) b = unwrap_second (join_u n) b
  join (i n) b = unwrap_second (join_i n) b
  join (array x n) b = unwrap_second (join_array (join x) n) b
  join (slice x) b = unwrap_second (join_slice (join x)) b
  join (tuple xs) b = unwrap_second (join_tuple (join_types xs)) b
  join (ref x) b = unwrap_second (join_ref (join x)) b
  join function b = unwrap_second join_function b

  pub join_types : TypeList → TypeList → Option TypeList
  join_types nil ys = join_nil ys
  join_types (cons x xs) ys = join_cons (join x) (join_types xs) ys

unfoldable mutual
  pub strip_all_witness : TypeExpr → TypeExpr
  strip_all_witness (witness_of t) = strip_all_witness t
  strip_all_witness (array t n) = array (strip_all_witness t) n
  strip_all_witness (slice t) = slice (strip_all_witness t)
  strip_all_witness (ref t) = ref (strip_all_witness t)
  strip_all_witness (tuple ts) = tuple (strip_all_witnesses ts)
  strip_all_witness t = t

  pub strip_all_witnesses : TypeList → TypeList
  strip_all_witnesses nil = nil
  strip_all_witnesses (cons t ts) = cons (strip_all_witness t) (strip_all_witnesses ts)

-- `strip_witness`: one level.
unfoldable pub strip_witness : TypeExpr → TypeExpr
strip_witness (witness_of t) = t
strip_witness t = t

-- A reference anywhere in the type.
unfoldable mutual
  pub contains_ptrs : TypeExpr → Bool
  contains_ptrs (ref t) = true
  contains_ptrs (array t n) = contains_ptrs t
  contains_ptrs (slice t) = contains_ptrs t
  contains_ptrs (witness_of t) = contains_ptrs t
  contains_ptrs (tuple ts) = any_contains_ptrs ts
  contains_ptrs _ = false

  pub any_contains_ptrs : TypeList → Bool
  any_contains_ptrs nil = false
  any_contains_ptrs (cons t ts) = contains_ptrs t || any_contains_ptrs ts

-- No `WitnessOf` directly under another: what `Type::witness_of` asserts of every type it makes.
unfoldable mutual
  pub is_single_wrapped : TypeExpr → Bool
  is_single_wrapped (witness_of t) = not (is_witness_of t) && is_single_wrapped t
  is_single_wrapped (array t n) = is_single_wrapped t
  is_single_wrapped (slice t) = is_single_wrapped t
  is_single_wrapped (ref t) = is_single_wrapped t
  is_single_wrapped (tuple ts) = are_single_wrapped ts
  is_single_wrapped _ = true

  pub are_single_wrapped : TypeList → Bool
  are_single_wrapped nil = true
  are_single_wrapped (cons t ts) = is_single_wrapped t && are_single_wrapped ts
