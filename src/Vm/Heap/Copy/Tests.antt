-- ===== src/Vm/Heap/Copy/Tests.antt =====
-- An array of two words that is used twice.
use mavros.Prelude.{ℕ, ◌<◌, ◌≡◌, ◌≢◌, refl, false, none, some, List, [], ◌∷◌, get_elem?}
use mavros.Prelude.Field.{gf3}
use mavros.Vm.Layout.{NodeSizes, array, new_sized}
use mavros.Vm.Heap.{allocated, words, Machine}
use mavros.Vm.Heap.Copy.{copy_if_reused, new_object}
use mavros.Vm.Heap.Copy.Array.{copy_if_reused-array}

abbrev node_sizes : NodeSizes
node_sizes = record { of_const = 32; of_witness = 8; of_mul_const = 136; of_sum = 112 }

abbrev two_words : List ℕ
two_words = 7 ∷ 9 ∷ []

abbrev shared : Machine gf3
shared = record {
  heap = none ∷ some (record { layout = 512; rc = 2; table_id = 0; body = words two_words }) ∷ [];
  out_da = [];
  out_db = [];
  out_dc = [];
  events = [];
}

abbrev unshared : Machine gf3
unshared = record {
  heap =
      none
      ∷ some (record { layout = 512; rc = 1; table_id = 0; body = words two_words })
      ∷ some (new_object gf3 node_sizes [] 512 (words two_words))
      ∷ [];
  out_da = [];
  out_db = [];
  out_dc = [];
  events = allocated 5 ∷ [];
}

copy_if_reused-array_example :
    (copy_if_reused gf3 node_sizes [] 1 (words (0 ∷ 0 ∷ [])) shared ≡ some (unshared, 2))
    × (get_elem? unshared.heap 2 ≡ some (some (new_object gf3 node_sizes [] 512 (words two_words))))
    × (get_elem? unshared.heap 1
        ≡ some (some (record { layout = 512; rc = 1; table_id = 0; body = words two_words })))
    × ((q : ℕ) → q < 2 → 1 ≢ q → get_elem? unshared.heap q ≡ get_elem? shared.heap q)
unfolding array new_sized
copy_if_reused-array_example =
    copy_if_reused-array gf3 node_sizes [] 1 512 0 0 false two_words (0 ∷ 0 ∷ []) shared refl refl
      refl
