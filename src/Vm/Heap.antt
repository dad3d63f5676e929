-- ===== src/Vm/Heap.antt =====
-- `BoxedValue` (vm/src/array.rs): the heap of counted objects. An address is the index of a slot and
-- 0 the null pointer; a freed slot is `none`, as is a read of one, a `panic!` and an overflow.
-- The words behind the header are typed by what the instructions store in them.
pub mod Release
pub mod Copy
use mavros.Prelude.{
  ℕ, zero, suc, ◌+◌, ◌-◌, Bool, true, false, Option, none, some, List, [], ◌∷◌, ◌++◌, ◌==◌, ltb,
  if◌then◌else◌, length, get_elem?, set,
}
use mavros.Prelude.Field.{Field}
use mavros.Vm.Layout.{
  DataType, prim_array, boxed_array, ad_const_type, ad_witness_type, ad_sum_type, ad_mul_const_type,
  struct_type, ref_cell_type, StructDescriptor, NodeSizes, data_type, array_size, as_struct,
  ref_cell_elem_is_refcounted, underlying_array_size, refcounted_offsets,
}
use mavros.Artifacts.R1cs.{assign_at, ◌>>=◌}

-- The output vector that a bump adds to.
pub data Matrix : Type 0 where
  matrix_a matrix_b matrix_c : Matrix

-- What the allocation instrumenter is told, with sizes in words.
pub data Event : Type 0 where
  allocated : ℕ → Event
  freed : ℕ → Event

-- The words at the given offsets.
abbrev pub read_all : List ℕ → List ℕ → Option (List ℕ)
read_all words [] = some []
read_all words (o ∷ os) = do w ← get_elem? words o; ws ← read_all words os; some (w ∷ ws)

-- The words 0 .. n - 1.
abbrev pub read_first : ℕ → List ℕ → Option (List ℕ)
read_first zero words = some []
read_first (suc n) [] = none
read_first (suc n) (w ∷ words) = do ws ← read_first n words; some (w ∷ ws)

-- The null pointer is not followed.
abbrev pub non_null : ℕ → List ℕ
non_null p = if p == 0 then [] else p ∷ []

module _ (F : Field) where
  open F use {Elem, nought, ◌⊕◌, ◌⊗◌}

  pub record Sensitivity : Type 0 where
    pub da : Elem
    pub db : Elem
    pub dc : Elem

  pub data Body : Type 0 where
    words : List ℕ → Body
    const_node : (value : Elem) → Body
    witness_node : (index : ℕ) → Body
    sum_node : (a b : ℕ) → Sensitivity → Body
    mul_const_node : (coeff : Elem) (value : ℕ) → Sensitivity → Body

  pub record Object : Type 0 where
    pub layout : ℕ
    pub rc : ℕ
    pub table_id : ℕ
    pub body : Body

  pub record Machine : Type 0 where
    pub heap : List (Option Object)
    pub out_da : List Elem
    pub out_db : List Elem
    pub out_dc : List Elem
    pub events : List Event

  unfoldable pub object_at : Machine → ℕ → Option Object
  object_at m p = do slot ← get_elem? m.heap p; slot

  abbrev pub store : Machine → ℕ → Option Object → Machine
  store m p slot = record {
    heap = set m.heap p slot;
    out_da = m.out_da;
    out_db = m.out_db;
    out_dc = m.out_dc;
    events = m.events;
  }

  abbrev pub bump_sensitivity : Matrix → Elem → Sensitivity → Sensitivity
  bump_sensitivity matrix_a x s = record { da = s.da ⊕ x; db = s.db; dc = s.dc }
  bump_sensitivity matrix_b x s = record { da = s.da; db = s.db ⊕ x; dc = s.dc }
  bump_sensitivity matrix_c x s = record { da = s.da; db = s.db; dc = s.dc ⊕ x }

  abbrev with_body : Object → Body → Object
  with_body o b = record { layout = o.layout; rc = o.rc; table_id = o.table_id; body = b }

  -- `out[index] += amount`
  unfoldable pub bump_out : Matrix → ℕ → Elem → Machine → Option Machine
  bump_out matrix_a n x m = do
    out ← assign_at F ◌⊕◌ n x m.out_da
    some (record {
      heap = m.heap;
      out_da = out;
      out_db = m.out_db;
      out_dc = m.out_dc;
      events = m.events;
    })
  bump_out matrix_b n x m = do
    out ← assign_at F ◌⊕◌ n x m.out_db
    some (record {
      heap = m.heap;
      out_da = m.out_da;
      out_db = out;
      out_dc = m.out_dc;
      events = m.events;
    })
  bump_out matrix_c n x m = do
    out ← assign_at F ◌⊕◌ n x m.out_dc
    some (record {
      heap = m.heap;
      out_da = m.out_da;
      out_db = m.out_db;
      out_dc = out;
      events = m.events;
    })

  -- The arms of `bump_da` and its siblings, by the data type and the body it gives the object.
  abbrev pub bump_object :
      Matrix → Elem → ℕ → Object → Option DataType → Body → Machine → Option Machine
  bump_object k x p o (some ad_const_type) (const_node value) m = bump_out k 0 (x ⊗ value) m
  bump_object k x p o (some ad_witness_type) (witness_node index) m = bump_out k index x m
  bump_object k x p o (some ad_sum_type) (sum_node a b s) m =
      some (store m p (some (with_body o (sum_node a b (bump_sensitivity k x s)))))
  bump_object k x p o (some ad_mul_const_type) (mul_const_node c v s) m =
      some (store m p (some (with_body o (mul_const_node c v (bump_sensitivity k x s)))))
  bump_object k x p o _ _ m = none

  unfoldable pub bump : Matrix → Elem → ℕ → Machine → Option Machine
  unfolding object_at data_type
  bump k x p m = do o ← object_at m p; bump_object k x p o (data_type o.layout) o.body m

  -- `bump_da`, `bump_db` and `bump_dc` of one node.
  abbrev pub bump_three : Elem → Elem → Elem → ℕ → Machine → Option Machine
  bump_three x y z p m = do
    m₁ ← bump matrix_a x p m
    m₂ ← bump matrix_b y p m₁
    bump matrix_c z p m₂
