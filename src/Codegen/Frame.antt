-- ===== src/Codegen/Frame.antt =====
-- `FrameLayouter` (compiler/src/compiler/codegen/bytecode/layout.rs): the words of one stack frame. A
-- panic is `none`. A position is a `usize` and is not wrapped: a frame has far fewer than 2 ^ 64
-- words.
mod Contiguous
mod Tests
use mavros.Prelude.{
  ℕ, suc, ◌+◌, Bool, true, false, Option, none, some, List, [], ◌∷◌, leb, if◌then◌else◌,
}
use mavros.Types.{TypeExpr, field, u, i, witness_of, array, slice, ref, tuple, function, ◌>>=◌}
use mavros.Ssa.Dict.{Dict, get, insert}

-- The words of a field element and of a pointer.
abbrev pub felt_limbs : ℕ
felt_limbs = 4

abbrev pub pointer_size_cells : ℕ
pointer_size_cells = 1

pub record FrameLayouter : Type 0 where
  pub next_free : ℕ
  pub variables : Dict ℕ

abbrev pub new_frame : FrameLayouter
new_frame = record { next_free = 2; variables = [] }

unfoldable pub type_size : TypeExpr → Option ℕ
type_size field = some felt_limbs
type_size (u bits) = if leb bits 64 then some 1 else none
type_size (i bits) = if leb bits 64 then some 1 else none
type_size (array _ _) = some pointer_size_cells
type_size (slice _) = some pointer_size_cells
type_size (witness_of _) = some pointer_size_cells
type_size (tuple _) = some pointer_size_cells
type_size (ref _) = some pointer_size_cells
type_size function = none

abbrev pub get_value : ℕ → FrameLayouter → Option ℕ
get_value v l = get v (l.variables)

-- The words from the position it gives on, with and without a name.
abbrev pub alloc_named : ℕ → ℕ → FrameLayouter → ℕ × FrameLayouter
alloc_named v size l = (
  l.next_free,
  record { next_free = l.next_free + size; variables = insert v (l.next_free) (l.variables) },
)

abbrev pub alloc_scratch : ℕ → FrameLayouter → ℕ × FrameLayouter
alloc_scratch count l = (l.next_free, record l { next_free = l.next_free + count })

unfoldable pub alloc_value : ℕ → TypeExpr → FrameLayouter → Option (ℕ × FrameLayouter)
alloc_value v t l = do size ← type_size t; some (alloc_named v size l)

unfoldable pub alloc_u64 : ℕ → ℕ → FrameLayouter → Option (ℕ × FrameLayouter)
alloc_u64 v size l = if leb size 64 then some (alloc_named v 1 l) else none

abbrev pub alloc_field : ℕ → FrameLayouter → ℕ × FrameLayouter
alloc_field v l = alloc_named v felt_limbs l

abbrev pub alloc_temp_field : FrameLayouter → ℕ × FrameLayouter
alloc_temp_field l = alloc_scratch felt_limbs l

abbrev pub alloc_ptr : ℕ → FrameLayouter → ℕ × FrameLayouter
alloc_ptr v l = alloc_named v 1 l

-- The loop of `alloc_many_contiguous`.
unfoldable pub alloc_all : List (ℕ × TypeExpr) → FrameLayouter → Option FrameLayouter
unfolding alloc_value
alloc_all [] l = some l
alloc_all ((v, t) ∷ vs) l = do (_, next) ← alloc_value v t l; alloc_all vs next

unfoldable pub alloc_many_contiguous :
    List (ℕ × TypeExpr) → FrameLayouter → Option (ℕ × FrameLayouter)
unfolding alloc_all
alloc_many_contiguous vs l = do after ← alloc_all vs l; some (l.next_free, after)
