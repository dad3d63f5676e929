-- ===== src/Types/Access.antt =====
-- The predicates and accessors of `Type` (compiler/src/compiler/ssa/hlssa/type_system.rs). A panic is
-- `none`.
use mavros.Prelude.{
  ==_eq, ℕ, zero, suc, ◌+◌, ◌≡◌, refl, ap, ◌↔◌, Bool, true, false, Option, none, some,
}
use mavros.Types.{
  TypeExpr, field, u, i, witness_of, array, slice, ref, tuple, function, TypeList, nil, cons, ◌>>=◌,
  mk_witness_of, is_subtype_of, type_eq,
}

unfoldable pub is_numeric : TypeExpr → Bool
is_numeric (u n) = true
is_numeric (i n) = true
is_numeric field = true
is_numeric (witness_of t) = is_numeric t
is_numeric _ = false

unfoldable pub is_heap_allocated : TypeExpr → Bool
is_heap_allocated (witness_of t) = true
is_heap_allocated (array t n) = true
is_heap_allocated (slice t) = true
is_heap_allocated (ref t) = true
is_heap_allocated (tuple ts) = true
is_heap_allocated _ = false

unfoldable pub has_eq : TypeExpr → Bool
has_eq field = true
has_eq (u n) = true
has_eq (i n) = true
has_eq _ = false

unfoldable pub get_array_element : TypeExpr → Option TypeExpr
unfolding mk_witness_of
get_array_element (array t n) = some t
get_array_element (slice t) = some t
get_array_element (witness_of t) = get_array_element t >>= mk_witness_of
get_array_element _ = none

unfoldable pub get_pointed : TypeExpr → Option TypeExpr
get_pointed (ref t) = some t
get_pointed _ = none

abbrev pub nth_type : TypeList → ℕ → Option TypeExpr
nth_type nil n = none
nth_type (cons t ts) zero = some t
nth_type (cons t ts) (suc n) = nth_type ts n

unfoldable pub get_tuple_element : TypeExpr → ℕ → Option TypeExpr
unfolding mk_witness_of
get_tuple_element (tuple ts) n = nth_type ts n
get_tuple_element (witness_of t) n = get_tuple_element t n >>= mk_witness_of
get_tuple_element _ n = none

unfoldable pub get_bit_size : TypeExpr → Option ℕ
get_bit_size (u n) = some n
get_bit_size (i n) = some n
get_bit_size field = some 254
get_bit_size (witness_of t) = get_bit_size t
get_bit_size _ = none

unfoldable pub try_unwrap_witness_of : TypeExpr → Option TypeExpr
try_unwrap_witness_of (witness_of t) = some t
try_unwrap_witness_of _ = none

unfoldable pub is_ref_of : TypeExpr → TypeExpr → Bool
unfolding type_eq
is_ref_of (ref t) other = type_eq t other
is_ref_of _ other = false

-- The sum of two sizes, where both are known.
abbrev pub add_sizes : Option ℕ → Option ℕ → Option ℕ
add_sizes (some m) (some n) = some (m + n)
add_sizes _ _ = none

unfoldable mutual
  pub calculate_type_size : TypeExpr → Option ℕ
  calculate_type_size field = some 1
  calculate_type_size (array t n) = some 1
  calculate_type_size (tuple ts) = sum_type_sizes ts
  calculate_type_size function = some 1
  calculate_type_size (u n) = some 1
  calculate_type_size (i n) = some 1
  calculate_type_size (witness_of t) = some 1
  calculate_type_size _ = none

  pub sum_type_sizes : TypeList → Option ℕ
  sum_type_sizes nil = some 0
  sum_type_sizes (cons t ts) = add_sizes (calculate_type_size t) (sum_type_sizes ts)

-- A type has a bit size exactly where it is numeric.
is_numeric-get_bit_size :
    (t : TypeExpr) → (is_numeric t ≡ true) ↔ ((n : ℕ) × (get_bit_size t ≡ some n))
unfolding is_numeric get_bit_size
is_numeric-get_bit_size field = (λ h. (254, refl), λ h. refl)
is_numeric-get_bit_size (u n) = (λ h. (n, refl), λ h. refl)
is_numeric-get_bit_size (i n) = (λ h. (n, refl), λ h. refl)
is_numeric-get_bit_size (witness_of t) = is_numeric-get_bit_size t
is_numeric-get_bit_size (array t n) = (λ h. cc, λ (m, h). cc)
is_numeric-get_bit_size (slice t) = (λ h. cc, λ (m, h). cc)
is_numeric-get_bit_size (ref t) = (λ h. cc, λ (m, h). cc)
is_numeric-get_bit_size (tuple ts) = (λ h. cc, λ (m, h). cc)
is_numeric-get_bit_size function = (λ h. cc, λ (m, h). cc)

-- A subtype and its supertype have the same bit size, or neither has one.
get_bit_size-subtype : (a b : TypeExpr) → is_subtype_of a b ≡ true → get_bit_size a ≡ get_bit_size b
unfolding is_subtype_of get_bit_size
get_bit_size-subtype (witness_of a) (witness_of b) h = get_bit_size-subtype a b h
get_bit_size-subtype field (witness_of b) h = get_bit_size-subtype field b h
get_bit_size-subtype (u n) (witness_of b) h = get_bit_size-subtype (u n) b h
get_bit_size-subtype (i n) (witness_of b) h = get_bit_size-subtype (i n) b h
get_bit_size-subtype (array a n) (witness_of b) h = get_bit_size-subtype (array a n) b h
get_bit_size-subtype (slice a) (witness_of b) h = get_bit_size-subtype (slice a) b h
get_bit_size-subtype (ref a) (witness_of b) h = get_bit_size-subtype (ref a) b h
get_bit_size-subtype (tuple xs) (witness_of b) h = get_bit_size-subtype (tuple xs) b h
get_bit_size-subtype function (witness_of b) h = get_bit_size-subtype function b h
get_bit_size-subtype (u n) (u m) h = ap some (==_eq n m h)
get_bit_size-subtype (i n) (i m) h = ap some (==_eq n m h)
get_bit_size-subtype field field h = refl
get_bit_size-subtype (array a n) (array b m) h = refl
get_bit_size-subtype (slice a) (slice b) h = refl
get_bit_size-subtype (ref a) (ref b) h = refl
get_bit_size-subtype (tuple xs) (tuple ys) h = refl
get_bit_size-subtype function function h = refl
get_bit_size-subtype _ _ h = cc
