-- ===== src/Vm/Heap/Release/Fuel.antt =====
-- The loop of `dec_rc` (vm/src/array.rs) ends: each round takes one object from the queue, and an
-- object that dies adds only the objects that it points to.
use mathlib.Core.Option.{some-injective}
use mavros.Prelude.{
  ℕ, zero, suc, ◌+◌, ◌-◌, ◌≤◌, ◌≡◌, refl, sym, ap, ◌∙◌, Bool, true, false, Option, none, some, List,
  [], ◌∷◌, ◌++◌, ◌==◌, length, get_elem?, set, get_or, length-append, arith, Bool-cases, none-some,
  inl, inr,
}
use mavros.Prelude.Field.{Field}
use mavros.Artifacts.R1cs.{◌>>=◌, assign_at}
use mavros.Vm.Layout.{
  DataType, ad_const_type, ad_witness_type, ad_sum_type, ad_mul_const_type, StructDescriptor,
  NodeSizes, data_type, underlying_array_size,
}
use mavros.Vm.Heap.{
  Matrix, matrix_a, matrix_b, matrix_c, Body, const_node, witness_node, sum_node, mul_const_node,
  Object, Machine, object_at, store, bump, bump_out, bump_object, bump_three,
}
use mavros.Vm.Heap.Release.{
  with_rc, free, counted, propagate, release, dec_one, Outcome, out_of_fuel, fault, done, dec_loop,
}

bind_some {ℓ κ} :
    {A : Type ℓ} {B : Type κ} (o : Option A) (f : A → Option B) (b : B)
    → (o >>= f) ≡ some b
    → (a : A) × (o ≡ some a) × (f a ≡ some b)
bind_some none f b h = cc
bind_some (some a) f b h = (a, refl, h)

abbrev pub total : List ℕ → ℕ
total [] = 0
total (n ∷ ns) = n + total ns

module _ (F : Field) (sizes : NodeSizes) (table : List StructDescriptor) where
  open F use {Elem}

  abbrev pub count_of : Option (List ℕ) → ℕ
  count_of none = 0
  count_of (some l) = length l

  -- The objects that an object puts in the queue when it dies.
  unfoldable pub weight : Object F → ℕ
  weight o = count_of (counted F sizes table o.layout (data_type o.layout) o.body)

  abbrev pub slot_weight : Option (Object F) → ℕ
  slot_weight none = 0
  slot_weight (some o) = weight o

  abbrev pub weights : List (Option (Object F)) → List ℕ
  weights [] = []
  weights (s ∷ heap) = slot_weight s ∷ weights heap

  weights-set :
      (heap : List (Option (Object F))) (p : ℕ) (s t : Option (Object F))
      → get_elem? heap p ≡ some s
      → slot_weight t ≡ slot_weight s
      → weights (set heap p t) ≡ weights heap
  weights-set [] p s t h w = cc
  weights-set (x ∷ heap) zero s t h w = ap (λ n. n ∷ weights heap) (rw (some-injective x s h) w)
  weights-set (x ∷ heap) (suc p) s t h w = ap (λ l. slot_weight x ∷ l) (weights-set heap p s t h w)

  abbrev heap_weights : Option (Machine F) → Machine F → List ℕ
  heap_weights none m = weights m.heap
  heap_weights (some r) m = weights r.heap

  slot_at :
      (m : Machine F) (p : ℕ) (o : Object F)
      → object_at F m p ≡ some o
      → get_elem? m.heap p ≡ some (some o)
  unfolding object_at
  slot_at m p o h = let (s, e, f) = bind_some (get_elem? m.heap p) (λ s. s) o h in e ∙ ap some f

  bump_out-weights :
      (k : Matrix) (n : ℕ) (x : Elem) (m r : Machine F)
      → bump_out F k n x m ≡ some r
      → weights r.heap ≡ weights m.heap
  unfolding bump_out
  bump_out-weights matrix_a n x m r h =
      let (out, _, f) = bind_some (assign_at F _ n x m.out_da) _ r h in
      sym (ap (λ o. heap_weights o m) f)
  bump_out-weights matrix_b n x m r h =
      let (out, _, f) = bind_some (assign_at F _ n x m.out_db) _ r h in
      sym (ap (λ o. heap_weights o m) f)
  bump_out-weights matrix_c n x m r h =
      let (out, _, f) = bind_some (assign_at F _ n x m.out_dc) _ r h in
      sym (ap (λ o. heap_weights o m) f)

  store-weights :
      (m r : Machine F) (p : ℕ) (o q : Object F)
      → get_elem? m.heap p ≡ some (some o)
      → weight q ≡ weight o
      → some (store F m p (some q)) ≡ some r
      → weights r.heap ≡ weights m.heap
  store-weights m r p o q e w h =
      sym (ap (λ x. heap_weights x m) h) ∙ weights-set m.heap p (some o) (some q) e w

  bump_object-weights :
      (k : Matrix) (x : Elem) (p : ℕ) (o : Object F) (t : Option DataType) (b : Body F)
      (m r : Machine F)
      → get_elem? m.heap p ≡ some (some o)
      → data_type o.layout ≡ t
      → o.body ≡ b
      → bump_object F k x p o t b m ≡ some r
      → weights r.heap ≡ weights m.heap
  unfolding weight
  bump_object-weights k x p o (some ad_const_type) (const_node value) m r e d b h =
      bump_out-weights k 0 _ m r h
  bump_object-weights k x p o (some ad_witness_type) (witness_node index) m r e d b h =
      bump_out-weights k index x m r h
  bump_object-weights k x p o (some ad_sum_type) (sum_node a c s) m r e d b h =
      store-weights m r p o _ e (rw (d, b) refl) h
  bump_object-weights k x p o (some ad_mul_const_type) (mul_const_node c v s) m r e d b h =
      store-weights m r p o _ e (rw (d, b) refl) h
  bump_object-weights k x p o _ _ m r e d b h = cc

  bump-weights :
      (k : Matrix) (x : Elem) (p : ℕ) (m r : Machine F)
      → bump F k x p m ≡ some r
      → weights r.heap ≡ weights m.heap
  unfolding bump
  bump-weights k x p m r h =
      let (o, e, f) = bind_some (object_at F m p) _ r h in
      bump_object-weights k x p o (data_type o.layout) o.body m r (slot_at m p o e) refl refl f

  bump_three-weights :
      (x y z : Elem) (p : ℕ) (m r : Machine F)
      → bump_three F x y z p m ≡ some r
      → weights r.heap ≡ weights m.heap
  bump_three-weights x y z p m r h =
      let (m₁, e, f) = bind_some (bump F matrix_a x p m) _ r h in
      let (m₂, g, k) = bind_some (bump F matrix_b y p m₁) _ r f in
      bump-weights matrix_c z p m₂ r k
      ∙ bump-weights matrix_b y p m₁ m₂ g
      ∙ bump-weights matrix_a x p m m₁ e

  propagate-weights :
      (t : Option DataType) (b : Body F) (m r : Machine F)
      → propagate F sizes table t b m ≡ some r
      → weights r.heap ≡ weights m.heap
  propagate-weights (some ad_sum_type) (sum_node a b s) m r h =
      let (m₁, e, f) = bind_some (bump_three F s.da s.db s.dc a m) _ r h in
      bump_three-weights s.da s.db s.dc b m₁ r f ∙ bump_three-weights s.da s.db s.dc a m m₁ e
  propagate-weights (some ad_mul_const_type) (mul_const_node c v s) m r h =
      bump_three-weights _ _ _ v m r h
  propagate-weights _ _ m r h = sym (ap (λ x. heap_weights x m) h)

  total-set-none :
      (heap : List (Option (Object F))) (p : ℕ)
      → total (weights (set heap p none)) + get_or (weights heap) p 0 ≡ total (weights heap)
  total-set-none [] p = omega arith
  total-set-none (s ∷ heap) zero = omega arith
  total-set-none (s ∷ heap) (suc p) = omega (arith, total-set-none heap p)

  weight_at :
      (heap : List (Option (Object F))) (p : ℕ) (s : Option (Object F))
      → get_elem? heap p ≡ some s
      → get_or (weights heap) p 0 ≡ slot_weight s
  weight_at [] p s h = cc
  weight_at (x ∷ heap) zero s h = rw (some-injective x s h) refl
  weight_at (x ∷ heap) (suc p) s h = weight_at heap p s h

  abbrev heap_of : Option (Machine F) → Machine F → List (Option (Object F))
  heap_of none m = m.heap
  heap_of (some r) m = r.heap

  free_heap :
      (p layout : ℕ) (m r : Machine F)
      → free F sizes table p layout m ≡ some r
      → r.heap ≡ set m.heap p none
  unfolding free
  free_heap p layout m r h =
      let (n, _, f) = bind_some (underlying_array_size sizes table layout) _ r h in
      sym (ap (λ x. heap_of x m) f)

  abbrev stepped : Machine F → List ℕ → Option (Machine F × List ℕ)
  stepped m cs = some (m, cs)

  freed_total :
      (p : ℕ) (m m₁ m₂ r : Machine F) (ds cs : List ℕ)
      → weights m₁.heap ≡ weights m.heap
      → m₂.heap ≡ set m₁.heap p none
      → get_or (weights m.heap) p 0 ≡ length ds
      → stepped m₂ ds ≡ stepped r cs
      → total (weights r.heap) + length cs ≡ total (weights m.heap)
  freed_total p m m₁ m₂ r ds cs w s n k =
      let q = some-injective (m₂, ds) (r, cs) k in
      let t = rw (w, n) at (total-set-none m₁.heap p) in
      rw (sym (ap (λ x. x.0.heap) q), sym (ap (λ x. x.1) q), s) t

  -- An object that dies takes its own pointers off the heap and puts them in the queue.
  release-weights :
      (p : ℕ) (o : Object F) (m r : Machine F) (cs : List ℕ)
      → get_elem? m.heap p ≡ some (some o)
      → release F sizes table p o m ≡ some (r, cs)
      → total (weights r.heap) + length cs ≡ total (weights m.heap)
  unfolding weight
  release-weights p o m r cs e h =
      let (ds, a, f) =
        bind_some (counted F sizes table o.layout (data_type o.layout) o.body) _ (r, cs) h in
      let (m₁, b, g) =
        bind_some (propagate F sizes table (data_type o.layout) o.body m) _ (r, cs) f in
      let (m₂, c, k) = bind_some (free F sizes table p o.layout m₁) _ (r, cs) g in
      freed_total p m m₁ m₂ r ds cs (propagate-weights (data_type o.layout) o.body m m₁ b)
        (free_heap p o.layout m₁ m₂ c) (weight_at m.heap p (some o) e ∙ ap count_of a) k

  counts_down :
      (p : ℕ) (o : Object F) (m r : Machine F) (cs : List ℕ) (n : ℕ)
      → get_elem? m.heap p ≡ some (some o)
      → stepped (store F m p (some (with_rc F sizes table o n))) [] ≡ stepped r cs
      → total (weights r.heap) + length cs ≤ total (weights m.heap)
  unfolding weight
  counts_down p o m r cs n e h =
      let q = some-injective (store F m p (some (with_rc F sizes table o n)), []) (r, cs) h in
      rw
        (
          sym (ap (λ x. x.0.heap) q),
          sym (ap (λ x. x.1) q),
          weights-set m.heap p (some o) (some (with_rc F sizes table o n)) e refl,
        )
        (omega arith)

  -- A round does not raise the number of pointers on the heap and those it adds to the queue.
  dec_one-weights :
      (p : ℕ) (m r : Machine F) (cs : List ℕ)
      → dec_one F sizes table p m ≡ some (r, cs)
      → total (weights r.heap) + length cs ≤ total (weights m.heap)
  unfolding dec_one
  dec_one-weights p m r cs h =
      let (o, e, f) = bind_some (object_at F m p) _ (r, cs) h in
      let s = slot_at m p o e in
      elim (Bool-cases (o.rc == 1)) [
        | inl x ↦ omega (arith, release-weights p o m r cs s (rw x at f))
        | inr x ↦ elim (Bool-cases (o.rc == 0)) [
          | inl y ↦ absurd (none-some (rw (x, y) at f))
          | inr y ↦ counts_down p o m r cs (o.rc - 1) s (rw (x, y) at f)
        ]
      ]

  abbrev pub ran_out : Outcome F sizes table → Bool
  ran_out out_of_fuel = true
  ran_out fault = false
  ran_out (done m) = false

  goes_on :
      (fuel : ℕ) (queue : List ℕ) (o : Option (Machine F × List ℕ))
      → ((r : Machine F × List ℕ)
          → o ≡ some r
          → ran_out (dec_loop F sizes table fuel (queue ++ r.1) r.0) ≡ false)
      → ran_out (elim o [ none ↦ fault | some r ↦ dec_loop F sizes table fuel (queue ++ r.1) r.0 ])
        ≡ false
  goes_on fuel queue none h = refl
  goes_on fuel queue (some r) h = h r refl

  -- With as much fuel as the queue and the heap together have pointers, the loop does not run out of
  -- fuel, whatever the heap is.
  pub dec_loop-fuel :
      (fuel : ℕ) (queue : List ℕ) (m : Machine F)
      → length queue + total (weights m.heap) ≤ fuel
      → ran_out (dec_loop F sizes table fuel queue m) ≡ false
  unfolding dec_loop
  dec_loop-fuel fuel [] m h = refl
  dec_loop-fuel zero (p ∷ queue) m h = absurd (omega arith)
  dec_loop-fuel (suc fuel) (p ∷ queue) m h = goes_on fuel queue (dec_one F sizes table p m) (λ r e.
      dec_loop-fuel fuel (queue ++ r.1) r.0
        (omega (arith, length-append queue r.1, dec_one-weights p m r.0 r.1 e)))
