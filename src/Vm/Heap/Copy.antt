-- ===== src/Vm/Heap/Copy.antt =====
-- `alloc` and `copy_if_reused` (vm/src/array.rs). The allocator, which is not the machine's, gives a
-- new slot at the end of the heap; what its memory holds at first is the argument `fresh`.
mod Array
mod Tests
use mavros.Prelude.{
  ℕ, zero, suc, ◌+◌, ◌-◌, ◌^◌, Bool, true, false, Option, none, some, List, [], ◌∷◌, ◌++◌, ◌==◌,
  if◌then◌else◌, length, get_elem?, set,
}
use mavros.Prelude.Field.{Field}
use mavros.Artifacts.R1cs.{◌>>=◌}
use mavros.Vm.Layout.{StructDescriptor, NodeSizes, array_size, underlying_array_size}
use mavros.Vm.Heap.{Event, allocated, Body, words, Object, Machine, object_at, store}
use mavros.Vm.Heap.Release.{with_rc}

-- `copy_nonoverlapping` of `n` words over the first words of `target`; both must have them.
abbrev pub copy_words : ℕ → List ℕ → List ℕ → Option (List ℕ)
copy_words zero source target = some target
copy_words (suc n) [] target = none
copy_words (suc n) (w ∷ source) [] = none
copy_words (suc n) (w ∷ source) (x ∷ target) = do rest ← copy_words n source target; some (w ∷ rest)

module _ (F : Field) (sizes : NodeSizes) (table : List StructDescriptor) where
  -- An object with a count of 1 and no table.
  abbrev pub new_object : ℕ → Body F → Object F
  new_object layout fresh = record { layout = layout; rc = 1; table_id = 2 ^ 64 - 1; body = fresh }

  abbrev pub grown : Machine F → Object F → ℕ → Machine F
  grown m o size = record {
    heap = m.heap ++ some o ∷ [];
    out_da = m.out_da;
    out_db = m.out_db;
    out_dc = m.out_dc;
    events = allocated size ∷ m.events;
  }

  unfoldable pub alloc : ℕ → Body F → Machine F → Option (Machine F × ℕ)
  unfolding underlying_array_size
  alloc layout fresh m = do
    size ← underlying_array_size sizes table layout
    some (grown m (new_object layout fresh) size, length m.heap)

  -- A node of derivatives has the payload 0, so that nothing of it is copied.
  abbrev pub copy_body : ℕ → Body F → Body F → Option (Body F)
  copy_body n (words ws) (words fresh) = do copied ← copy_words n ws fresh; some (words copied)
  copy_body zero b fresh = some fresh
  copy_body (suc n) b fresh = none

  -- The branch of an object that stays in use. A count of 0 overflows.
  unfoldable pub copy_reused : ℕ → Object F → Body F → Machine F → Option (Machine F × ℕ)
  unfolding alloc array_size
  copy_reused p o fresh m = do
    body ← copy_body (array_size o.layout) o.body fresh
    r ← alloc o.layout body m
    let dropped = some (store F r.0 p (some (with_rc F sizes table o (o.rc - 1))), r.1)
    if o.rc == 0 then none else dropped

  unfoldable pub copy_if_reused : ℕ → Body F → Machine F → Option (Machine F × ℕ)
  unfolding object_at copy_reused
  copy_if_reused p fresh m = do
    o ← object_at F m p
    let copied = copy_reused p o fresh m
    if o.rc == 1 then some (m, p) else copied
