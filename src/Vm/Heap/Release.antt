-- ===== src/Vm/Heap/Release.antt =====
-- `inc_rc`, `free` and `dec_rc` (vm/src/array.rs): the queue of the objects whose count is to go down
-- is an argument, with fuel for the rounds of the loop.
mod Fuel
mod Tests
use mavros.Prelude.{
  ℕ, zero, suc, ◌+◌, ◌-◌, ◌^◌, Bool, true, false, Option, none, some, List, [], ◌∷◌, ◌++◌, ◌==◌,
  ltb, if◌then◌else◌, length, get_elem?, set,
}
use mavros.Prelude.Field.{Field}
use mavros.Artifacts.R1cs.{◌>>=◌}
use mavros.Vm.Layout.{
  DataType, prim_array, boxed_array, ad_const_type, ad_witness_type, ad_sum_type, ad_mul_const_type,
  struct_type, ref_cell_type, StructDescriptor, NodeSizes, data_type, array_size, as_struct,
  ref_cell_elem_is_refcounted, underlying_array_size, refcounted_offsets,
}
use mavros.Vm.Heap.{
  Event, freed, read_all, read_first, non_null, Sensitivity, Body, words, const_node, witness_node,
  sum_node, mul_const_node, Object, Machine, object_at, store, bump_three,
}

module _ (F : Field) (sizes : NodeSizes) (table : List StructDescriptor) where
  open F use {Elem, ◌⊗◌}

  abbrev pub with_rc : Object F → ℕ → Object F
  with_rc o n = record { layout = o.layout; rc = n; table_id = o.table_id; body = o.body }

  unfoldable pub inc_rc : ℕ → ℕ → Machine F → Option (Machine F)
  unfolding object_at
  inc_rc by p m = do
    o ← object_at F m p
    if ltb (o.rc + by) (2 ^ 64) then some (store F m p (some (with_rc o (o.rc + by)))) else none

  unfoldable pub free : ℕ → ℕ → Machine F → Option (Machine F)
  unfolding underlying_array_size
  free p layout m = do
    size ← underlying_array_size sizes table layout
    some (record {
      heap = set m.heap p none;
      out_da = m.out_da;
      out_db = m.out_db;
      out_dc = m.out_dc;
      events = freed size ∷ m.events;
    })

  -- The objects that the arm of a data type puts in the queue.
  abbrev pub counted : ℕ → Option DataType → Body F → Option (List ℕ)
  counted layout (some prim_array) b = some []
  counted layout (some boxed_array) (words ws) = read_first (array_size layout) ws
  counted layout (some struct_type) (words ws) = do
    d ← as_struct layout table
    read_all ws (refcounted_offsets d.fields 0)
  counted layout (some ref_cell_type) (words ws) =
      let first = do w ← get_elem? ws 0; some (non_null w)
      in if ref_cell_elem_is_refcounted layout then first else some []
  counted layout (some ad_const_type) b = some []
  counted layout (some ad_witness_type) b = some []
  counted layout (some ad_sum_type) (sum_node a b s) = some (a ∷ b ∷ [])
  counted layout (some ad_mul_const_type) (mul_const_node coeff value s) = some (value ∷ [])
  counted layout _ _ = none

  -- The bumps of a derivative node that dies.
  abbrev pub propagate : Option DataType → Body F → Machine F → Option (Machine F)
  propagate (some ad_sum_type) (sum_node a b s) m = do
    m₁ ← bump_three F s.da s.db s.dc a m
    bump_three F s.da s.db s.dc b m₁
  propagate (some ad_mul_const_type) (mul_const_node coeff value s) m =
      bump_three F (s.da ⊗ coeff) (s.db ⊗ coeff) (s.dc ⊗ coeff) value m
  propagate t b m = some m

  abbrev pub release : ℕ → Object F → Machine F → Option (Machine F × List ℕ)
  release p o m = do
    children ← counted o.layout (data_type o.layout) o.body
    m₁ ← propagate (data_type o.layout) o.body m
    m₂ ← free p o.layout m₁
    some (m₂, children)

  -- One round of the loop. A count of 0 overflows.
  unfoldable pub dec_one : ℕ → Machine F → Option (Machine F × List ℕ)
  unfolding object_at data_type free
  dec_one p m = do
    o ← object_at F m p
    let released = release p o m
    let dropped = some (store F m p (some (with_rc o (o.rc - 1))), [])
    if o.rc == 1 then released else if o.rc == 0 then none else dropped

  pub data Outcome : Type 0 where
    out_of_fuel : Outcome
    fault : Outcome
    done : Machine F → Outcome

  unfoldable pub dec_loop : ℕ → List ℕ → Machine F → Outcome
  unfolding dec_one
  dec_loop fuel [] m = done m
  dec_loop zero (p ∷ queue) m = out_of_fuel
  dec_loop (suc fuel) (p ∷ queue) m = elim (dec_one p m) [
    | none ↦ fault
    | some r ↦ dec_loop fuel (queue ++ r.1) r.0
  ]
