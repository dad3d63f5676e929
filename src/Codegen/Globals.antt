-- ===== src/Codegen/Globals.antt =====
-- `GlobalFrameLayouter` (compiler/src/compiler/codegen/bytecode/layout.rs): the words of the globals.
-- A panic is `none`; a position is not wrapped.
mod Packed
mod Tests
use mavros.Prelude.{
  ℕ, ◌+◌, Bool, true, false, Option, none, some, List, [], ◌∷◌, leb, if◌then◌else◌, get_elem?,
}
use mavros.Types.{TypeExpr, field, u, i, ◌>>=◌}
use mavros.Codegen.Frame.{felt_limbs}

pub record GlobalFrameLayouter : Type 0 where
  pub offsets : List ℕ
  pub sizes : List ℕ
  pub total_size : ℕ

unfoldable pub type_frame_size : TypeExpr → Option ℕ
type_frame_size field = some felt_limbs
type_frame_size (u bits) = if leb bits 64 then some 1 else none
type_frame_size (i bits) = if leb bits 64 then some 1 else none
type_frame_size _ = some 1

-- The loop of `new`, from the first free word on.
unfoldable pub layout_from : ℕ → List TypeExpr → Option GlobalFrameLayouter
layout_from next_free [] = some (record { offsets = []; sizes = []; total_size = next_free })
layout_from next_free (t ∷ ts) = do
  size ← type_frame_size t
  rest ← layout_from (next_free + size) ts
  some (record rest { offsets = next_free ∷ rest.offsets; sizes = size ∷ rest.sizes })

unfoldable pub new_globals : List TypeExpr → Option GlobalFrameLayouter
unfolding layout_from
new_globals ts = layout_from 0 ts

unfoldable pub get_offset : GlobalFrameLayouter → ℕ → Option ℕ
get_offset g n = get_elem? (g.offsets) n

unfoldable pub get_size : GlobalFrameLayouter → ℕ → Option ℕ
get_size g n = get_elem? (g.sizes) n
