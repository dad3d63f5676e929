-- ===== src/Vm/Layout/Packing.antt =====
-- The header word and back: each constructor of `BoxedLayout` against its accessors.
use mathlib.Core.Bool.{not}
use mavros.Prelude.{
  ℕ, ◌+◌, ◌*◌, ◌/◌, ◌%◌, ◌^◌, ◌<◌, ◌≡◌, refl, ◌↔◌, Bool, true, none, some, ◌==◌, ltb, if◌then◌else◌,
  arith, ap, sym,
}
use mavros.Vm.Layout.{
  DataType, ref_cell_type, discriminant, from_discriminant, new_sized, ref_cell, flag_bit,
  ref_cell_elem_size, ref_cell_elem_is_refcounted, data_type, array_size, struct_layout_idx,
}

below_byte : (t : DataType) → discriminant t < 256
below_byte t = ground arith

from-discriminant : (t : DataType) → from_discriminant (discriminant t) ≡ some t
from-discriminant t = ground arith

to-discriminant : (k : ℕ) (t : DataType) → from_discriminant k ≡ some t → k ≡ discriminant t
to-discriminant k t h = ground arith

low_byte : (k n : ℕ) → k < 256 → (k + n * 256) % 256 ≡ k
low_byte k n h = omega arith

high_bytes : (k n : ℕ) → k < 256 → (k + n * 256) / 256 ≡ n
high_bytes k n h = omega arith

small_enough :
    (n v w : ℕ) → (if ltb n (2 ^ 56) then some v else none) ≡ some w → (n < 2 ^ 56) × (v ≡ w)
small_enough n v w h = ground arith

ltb_of : (n m : ℕ) → n < m → ltb n m ≡ true
ltb_of n m h = ground arith

rejoin : (k n w : ℕ) → w % 256 ≡ k → w / 256 ≡ n → k + n * 256 ≡ w
rejoin k n w h e = omega arith

-- What the word `w` says, with the data type `t` and the payload `n`.
abbrev pub Reads : ℕ → DataType → ℕ → Type 0
Reads w t n = (data_type w ≡ some t) × (array_size w ≡ n) × (struct_layout_idx w ≡ n)

packed-Reads : (t : DataType) (n : ℕ) → Reads (discriminant t + n * 256) t n
unfolding data_type array_size struct_layout_idx
packed-Reads t n = (
  rw (low_byte (discriminant t) n (below_byte t)) (from-discriminant t),
  high_bytes (discriminant t) n (below_byte t),
  high_bytes (discriminant t) n (below_byte t),
)

-- A header is packed exactly when the payload has at most 56 bits, then fits in 64 bits, and gives
-- back the data type and the payload.
pub new_sized-Reads :
    (t : DataType) (n w : ℕ)
    → (new_sized t n ≡ some w) ↔ ((n < 2 ^ 56) × (w < 2 ^ 64) × Reads w t n)
unfolding new_sized data_type array_size
new_sized-Reads t n w = (
  λ h.
      let (p, e) = small_enough n _ w h in
      (p, omega (arith, below_byte t), rw (sym e) (packed-Reads t n)),
  λ (p, _, r).
      rw (ltb_of n (2 ^ 56) p)
        (ap some (rejoin (discriminant t) n w (to-discriminant (w % 256) t r.0) r.1)),
)

low_bits : (flag : Bool) (n : ℕ) → n < 8 → (flag_bit flag + n) % 8 ≡ n
low_bits flag n h = ground arith

high_bit : (flag : Bool) (n : ℕ) → n < 8 → not ((flag_bit flag + n) / 8 % 2 == 0) ≡ flag
high_bit flag n h = ground arith

-- `ref_cell` takes an element of less than 8 words, and its header gives back the data type, the
-- element's size and the flag.
ref_cell-elem :
    (n : ℕ) (flag : Bool)
    → n < 8
    → (w : ℕ) × (ref_cell n flag ≡ some w)
      × (data_type w ≡ some ref_cell_type)
      × (ref_cell_elem_size w ≡ n)
      × (ref_cell_elem_is_refcounted w ≡ flag)
unfolding ref_cell new_sized ref_cell_elem_size ref_cell_elem_is_refcounted
ref_cell-elem n flag h = (
  7 + (flag_bit flag + n) * 256,
  rw (ltb_of n 8 h, ltb_of (flag_bit flag + n) (2 ^ 56) (ground arith)) refl,
  (packed-Reads ref_cell_type (flag_bit flag + n)).0,
  rw (high_bytes 7 (flag_bit flag + n) (omega arith)) (low_bits flag n h),
  rw (high_bytes 7 (flag_bit flag + n) (omega arith)) (high_bit flag n h),
)
