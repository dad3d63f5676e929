-- ===== src/Codegen/Frame/Tests.antt =====
-- A call with two arguments.
use mavros.Prelude.{ℕ, ◌+◌, ◌≡◌, refl, some, [], ◌∷◌}
use mavros.Types.{field, u}
use mavros.Codegen.Frame.{
  FrameLayouter, new_frame, type_size, alloc_value, alloc_all, alloc_many_contiguous, get_value,
}
use mavros.Codegen.Frame.Contiguous.{total_words, alloc_many_contiguous_lem}

abbrev after_two : FrameLayouter
after_two = record { next_free = 7; variables = (10, 2) ∷ (11, 6) ∷ [] }

alloc_many_contiguous_lem_example :
    (n : ℕ) × (m : ℕ) × (total_words ((10, field) ∷ []) ≡ some n)
    × (get_value 11 after_two ≡ some (2 + n))
    × (total_words ((10, field) ∷ (11, u 32) ∷ []) ≡ some m)
    × (after_two.next_free ≡ 2 + m)
unfolding alloc_many_contiguous alloc_all alloc_value type_size
alloc_many_contiguous_lem_example =
    alloc_many_contiguous_lem ((10, field) ∷ []) 11 (u 32) [] new_frame 2 after_two refl refl
