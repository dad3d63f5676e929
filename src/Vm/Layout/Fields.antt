-- ===== src/Vm/Layout/Fields.antt =====
-- Struct descriptors, the size of an object, and the fields that `dec_rc` visits (vm/src/array.rs).
use mavros.Prelude.{
  ℕ, ◌+◌, ◌*◌, ◌/◌, ◌^◌, ◌<◌, ◌≤◌, ◌≡◌, refl, ◌↔◌, Bool, true, false, Option, none, some, List, [],
  ◌∷◌, ◌==◌, ltb, if◌then◌else◌, arith, ap, sym, ◌∙◌, get_elem?,
}
use mathlib.Core.Path.{ap₂}
use mavros.Vm.Layout.{
  array_size, boxed_array, prim_array, struct_type, StructDescriptor, sum_sizes, descriptor_of,
  new_descriptor, array, new_struct, new_sized, as_struct, NodeSizes, underlying_array_size,
  refcounted_offsets,
}
use mavros.Vm.Layout.Packing.{new_sized-Reads}

-- The sum of the sizes, and every size above 0.
abbrev pub total_of : List (ℕ × Bool) → ℕ
total_of [] = 0
total_of ((sz, flag) ∷ fields) = sz + total_of fields

abbrev pub Sized : List (ℕ × Bool) → Type 0
Sized [] = Unit
Sized ((sz, flag) ∷ fields) = (1 ≤ sz) × Sized fields

tests_hold :
    (sz sum n total : ℕ) (rest : Option ℕ)
    → (if sz == 0 then none else if ltb sum n then rest else none) ≡ some total
    → (1 ≤ sz) × (sum < n) × (rest ≡ some total)
tests_hold sz sum n total rest h = ground arith

tests_pass :
    (sz sum n : ℕ) (rest : Option ℕ)
    → 1 ≤ sz
    → sum < n
    → (if sz == 0 then none else if ltb sum n then rest else none) ≡ rest
tests_pass sz sum n rest p q = ground arith

sum_sizes_sound :
    (fields : List (ℕ × Bool)) (start total : ℕ)
    → start < 2 ^ 32
    → sum_sizes fields start ≡ some total
    → Sized fields × (start + total_of fields ≡ total) × (total < 2 ^ 32)
sum_sizes_sound [] start total b h = (tt, ground arith, ground arith)
sum_sizes_sound ((sz, flag) ∷ fields) start total b h =
    let (p, q, e) = tests_hold sz (start + sz) (2 ^ 32) total (sum_sizes fields (start + sz)) h in
    let (s, f, g) = sum_sizes_sound fields (start + sz) total q e in ((p, s), omega arith, g)

sum_sizes_complete :
    (fields : List (ℕ × Bool)) (start : ℕ)
    → Sized fields
    → start + total_of fields < 2 ^ 32
    → sum_sizes fields start ≡ some (start + total_of fields)
sum_sizes_complete [] start s b = ap some (omega arith)
sum_sizes_complete ((sz, flag) ∷ fields) start (p, s) b =
    tests_pass sz (start + sz) (2 ^ 32) (sum_sizes fields (start + sz)) p (omega arith)
    ∙ sum_sizes_complete fields (start + sz) s (omega arith)
    ∙ ap some (omega arith)

abbrev with_descriptor : Option StructDescriptor → StructDescriptor → StructDescriptor
with_descriptor none d = d
with_descriptor (some x) d = x

built_from :
    (fields : List (ℕ × Bool)) (o : Option ℕ) (d : StructDescriptor)
    → descriptor_of fields o ≡ some d
    → (o ≡ some d.total_size) × (d.fields ≡ fields)
built_from fields none d h = cc
built_from fields (some total) d h =
    let e = ap (λ x. with_descriptor x (record { fields = fields; total_size = total })) h in
    (ap some (ap (λ x. x.total_size) e), ap (λ x. x.fields) (sym e))

zero_first : (n : ℕ) → 0 + n ≡ n
zero_first n = omega arith

-- A descriptor is built exactly where every size is above 0 and their sum, its total size, is below
-- 2 ^ 32.
pub new_descriptor_lem :
    (fields : List (ℕ × Bool)) (d : StructDescriptor)
    → (new_descriptor fields ≡ some d) ↔ (
        Sized fields
        × (d.fields ≡ fields)
        × (d.total_size ≡ total_of fields)
        × (total_of fields < 2 ^ 32))
unfolding new_descriptor
new_descriptor_lem fields d = (
  λ h.
      let (o, f) = built_from fields (sum_sizes fields 0) d h in
      let (s, e, b) = sum_sizes_sound fields 0 d.total_size (omega arith) o in
      (s, f, omega arith, omega arith),
  λ (s, f, e, b).
      rw (sum_sizes_complete fields 0 s (omega arith), zero_first (total_of fields))
        (ap₂ (λ x n. some (record { fields = x; total_size = n })) (sym f) (sym e)),
)

-- Every offset is at least `low` and below `high`.
abbrev pub Within : ℕ → ℕ → List ℕ → Type 0
Within low high [] = Unit
Within low high (o ∷ os) = (low ≤ o) × (o < high) × Within low high os

Within-widen :
    (low mid high : ℕ) (os : List ℕ) → low ≤ mid → Within mid high os → Within low high os
Within-widen low mid high [] h w = tt
Within-widen low mid high (o ∷ os) h (p, q, w) = (omega arith, q, Within-widen low mid high os h w)

visited :
    (low high : ℕ) (os : List ℕ) (flag : Bool)
    → low < high
    → Within low high os
    → Within low high (if flag then low ∷ os else os)
visited low high os true h w = (omega arith, h, w)
visited low high os false h w = w

assoc_of : (a b c : ℕ) → a + b + c ≡ a + (b + c)
assoc_of a b c = omega arith

offsets-Within :
    (fields : List (ℕ × Bool)) (start : ℕ)
    → Sized fields
    → Within start (start + total_of fields) (refcounted_offsets fields start)
unfolding refcounted_offsets
offsets-Within [] start s = tt
offsets-Within ((sz, flag) ∷ fields) start (p, s) =
    let w = rw (assoc_of start sz (total_of fields)) at (offsets-Within fields (start + sz) s) in
    let v = Within-widen start (start + sz) (start + (sz + total_of fields)) _ (omega arith) w in
    visited start (start + (sz + total_of fields)) _ flag (omega arith) v

object_words : (n : ℕ) → (8 * n + 7) / 8 + 3 ≡ n + 3
object_words n = omega arith

same_test :
    (t : Bool) (x : ℕ)
    → (if t then if t then some x else none else none) ≡ (if t then some x else none)
same_test t x = ground arith

-- The header of an array of `n` words asks for n + 3 words.
pub array-underlying_array_size :
    (sizes : NodeSizes) (table : List StructDescriptor) (n w : ℕ) (ptr_elems : Bool)
    → array n ptr_elems ≡ some w
    → underlying_array_size sizes table w ≡ some (n + 3)
unfolding underlying_array_size array new_sized
array-underlying_array_size sizes table n w true h =
    let r = ((new_sized-Reads boxed_array n w).0 (sym (same_test _ _) ∙ h)).2 in
    rw (r.0, r.1, object_words n) refl
array-underlying_array_size sizes table n w false h =
    let r = ((new_sized-Reads prim_array n w).0 (sym (same_test _ _) ∙ h)).2 in
    rw (r.0, r.1, object_words n) refl

pub array-array_size : (n w : ℕ) (ptr_elems : Bool) → array n ptr_elems ≡ some w → array_size w ≡ n
unfolding array new_sized
array-array_size n w true h = ((new_sized-Reads boxed_array n w).0 (sym (same_test _ _) ∙ h)).2.1
array-array_size n w false h = ((new_sized-Reads prim_array n w).0 (sym (same_test _ _) ∙ h)).2.1

-- The header of a struct asks for the total size of its descriptor and 3 words, and every counted
-- field that `dec_rc` visits starts inside those words.
pub struct-underlying_array_size :
    (sizes : NodeSizes) (table : List StructDescriptor) (idx w : ℕ) (fields : List (ℕ × Bool))
    (d : StructDescriptor)
    → new_descriptor fields ≡ some d
    → get_elem? table idx ≡ some d
    → new_struct idx ≡ some w
    → (underlying_array_size sizes table w ≡ some (d.total_size + 3))
      × Within 0 d.total_size (refcounted_offsets d.fields 0)
unfolding underlying_array_size new_struct as_struct
struct-underlying_array_size sizes table idx w fields d h k e =
    let (s, f, g, _) = (new_descriptor_lem fields d).0 h in
    let r = ((new_sized-Reads struct_type idx w).0 e).2 in
    (
      rw (r.0, r.2, k, object_words d.total_size) refl,
      rw (f, g) (rw (zero_first (total_of fields)) at (offsets-Within fields 0 s)),
    )
