-- ===== src/Vm/Heap/Release/Tests.antt =====
-- A sum node of a constant and a witness dies.
use mavros.Prelude.{ℕ, ◌≡◌, refl, false, Option, none, some, [], ◌∷◌, arith}
use mavros.Prelude.Field.{t0, t1, t2, gf3}
use mavros.Vm.Layout.{NodeSizes, data_type, underlying_array_size}
use mavros.Vm.Heap.{
  freed, Sensitivity, Body, const_node, witness_node, sum_node, Object, Machine, object_at, bump,
  bump_out,
}
use mavros.Artifacts.R1cs.{assign_at}
use mavros.Vm.Heap.Release.{free, dec_one, dec_loop, out_of_fuel, done}
use mavros.Vm.Heap.Release.Fuel.{ran_out, weight, dec_loop-fuel}

abbrev node_sizes : NodeSizes
node_sizes = record { of_const = 32; of_witness = 8; of_mul_const = 136; of_sum = 112 }

abbrev object : ℕ → Body gf3 → Option (Object gf3)
object layout body = some (record { layout = layout; rc = 1; table_id = 0; body = body })

abbrev sensitivity : Sensitivity gf3
sensitivity = record { da = t1; db = t2; dc = t0 }

abbrev before : Machine gf3
before = record {
  heap =
      none
      ∷ object 4 (sum_node 2 3 sensitivity)
      ∷ object 2 (const_node t2)
      ∷ object 3 (witness_node 1)
      ∷ [];
  out_da = t0 ∷ t0 ∷ [];
  out_db = t0 ∷ t0 ∷ [];
  out_dc = t0 ∷ t0 ∷ [];
  events = [];
}

-- Everything is freed, and the sensitivities are in the output vectors.
abbrev after : Machine gf3
after = record {
  heap = none ∷ none ∷ none ∷ none ∷ [];
  out_da = t2 ∷ t1 ∷ [];
  out_db = t1 ∷ t2 ∷ [];
  out_dc = t0 ∷ t0 ∷ [];
  events = freed 4 ∷ freed 7 ∷ freed 17 ∷ [];
}

all_freed_run : dec_loop gf3 node_sizes [] 3 (1 ∷ []) before ≡ done after
unfolding dec_loop dec_one free object_at bump bump_out assign_at data_type underlying_array_size
all_freed_run = refl

too_little_run : dec_loop gf3 node_sizes [] 2 (1 ∷ []) before ≡ out_of_fuel
unfolding dec_loop dec_one free object_at bump bump_out assign_at data_type underlying_array_size
too_little_run = refl

dec_loop-fuel_example :
    ran_out gf3 node_sizes [] (dec_loop gf3 node_sizes [] 3 (1 ∷ []) before) ≡ false
unfolding weight data_type
dec_loop-fuel_example = dec_loop-fuel gf3 node_sizes [] 3 (1 ∷ []) before (omega arith)
