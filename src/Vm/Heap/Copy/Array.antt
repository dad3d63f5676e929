-- ===== src/Vm/Heap/Copy/Array.antt =====
-- The copy of an array that stays in use (`copy_if_reused`, vm/src/array.rs).
use mavros.Prelude.{
  ℕ, zero, suc, ◌+◌, ◌-◌, ◌<◌, ◌≡◌, refl, ◌∙◌, ◌≢◌, Bool, false, some, List, [], ◌∷◌, ◌++◌, ◌==◌,
  length, get_elem?, get_elem?-set_self, get_elem?-set_ne, length-append, arith,
}
use mavros.Prelude.Field.{Field}
use mavros.Vm.Layout.{StructDescriptor, NodeSizes, array}
use mavros.Vm.Layout.Fields.{array-underlying_array_size, array-array_size}
use mavros.Vm.Heap.{words, Object, Machine, object_at, store}
use mavros.Vm.Heap.Release.{with_rc}
use mavros.Vm.Heap.Copy.{copy_words, new_object, grown, alloc, copy_reused, copy_if_reused}

copy_words-all :
    (ws fresh : List ℕ) → length fresh ≡ length ws → copy_words (length ws) ws fresh ≡ some ws
copy_words-all [] [] h = refl
copy_words-all [] (x ∷ fresh) h = absurd (omega arith)
copy_words-all (w ∷ ws) [] h = absurd (omega arith)
copy_words-all (w ∷ ws) (x ∷ fresh) h = rw (copy_words-all ws fresh (omega arith)) refl

not_last : (k : ℕ) → (suc (suc k) == 0) ≡ false
not_last k = ground arith

not_one : (k : ℕ) → (suc (suc k) == 1) ≡ false
not_one k = ground arith

less_one : (k : ℕ) → suc (suc k) - 1 ≡ suc k
less_one k = omega arith

module _ {A : Type 0} where
  get_elem?-append_old :
      (xs ys : List A) (n : ℕ) → n < length xs → get_elem? (xs ++ ys) n ≡ get_elem? xs n
  get_elem?-append_old [] ys n h = absurd (omega arith)
  get_elem?-append_old (x ∷ xs) ys zero h = refl
  get_elem?-append_old (x ∷ xs) ys (suc n) h = get_elem?-append_old xs ys n (omega arith)

  get_elem?-append_new : (xs : List A) (y : A) → get_elem? (xs ++ y ∷ []) (length xs) ≡ some y
  get_elem?-append_new [] y = refl
  get_elem?-append_new (x ∷ xs) y = get_elem?-append_new xs y

  get_elem?-lt : (xs : List A) (n : ℕ) (y : A) → get_elem? xs n ≡ some y → n < length xs
  get_elem?-lt [] n y h = cc
  get_elem?-lt (x ∷ xs) zero y h = omega arith
  get_elem?-lt (x ∷ xs) (suc n) y h = omega (arith, get_elem?-lt xs n y h)

module _ (F : Field) (sizes : NodeSizes) (table : List StructDescriptor) (p w table_id k : ℕ)
    (ptr_elems : Bool) (ws fresh : List ℕ) (m : Machine F)
    (header : array (length ws) ptr_elems ≡ some w)
    (old : get_elem? m.heap p
      ≡ some (some (record { layout = w; rc = suc (suc k); table_id = table_id; body = words ws })))
    (room : length fresh ≡ length ws) where
  abbrev pub before : Object F
  before = record { layout = w; rc = suc (suc k); table_id = table_id; body = words ws }

  abbrev pub copied : Machine F
  copied =
      store F (grown F sizes table m (new_object F sizes table w (words ws)) (length ws + 3)) p
        (some (with_rc F sizes table before (suc k)))

  copy_reused-array :
      copy_reused F sizes table p before (words fresh) m ≡ some (copied, length m.heap)
  unfolding copy_reused alloc
  copy_reused-array =
      rw
        (
          array-array_size (length ws) w ptr_elems header,
          copy_words-all ws fresh room,
          array-underlying_array_size sizes table (length ws) w ptr_elems header,
          not_last k,
          less_one k,
        )
        refl

  -- A shared array is copied into a new object, counted once and with the same header and words; the
  -- old object's count goes down by one, and every other object stays as it was.
  pub copy_if_reused-array :
      (copy_if_reused F sizes table p (words fresh) m ≡ some (copied, length m.heap))
      × (get_elem? copied.heap (length m.heap)
          ≡ some (some (new_object F sizes table w (words ws))))
      × (get_elem? copied.heap p ≡ some (some (with_rc F sizes table before (suc k))))
      × ((q : ℕ) → q < length m.heap → p ≢ q → get_elem? copied.heap q ≡ get_elem? m.heap q)
  unfolding copy_if_reused object_at
  copy_if_reused-array =
      let inside = get_elem?-lt m.heap p (some before) old in
      let grown_heap = m.heap ++ some (new_object F sizes table w (words ws)) ∷ [] in
      (
        rw (old, not_one k) copy_reused-array,
        get_elem?-set_ne grown_heap _ (λ e. omega arith)
            ∙ get_elem?-append_new m.heap (some (new_object F sizes table w (words ws))),
        get_elem?-set_self grown_heap p _ (
            omega
              (arith, length-append m.heap (some (new_object F sizes table w (words ws)) ∷ []))),
        λ q b n. get_elem?-set_ne grown_heap _ n ∙ get_elem?-append_old m.heap _ q b,
      )
