-- ===== src/Codegen/Globals/Tests.antt =====
-- Three globals.
use mavros.Prelude.{◌+◌, ◌≤◌, ◌≡◌, ◌⊎◌, refl, some, List, [], ◌∷◌, get_elem?}
use mavros.Types.{TypeExpr, field, u, slice, ◌>>=◌}
use mavros.Codegen.Globals.{
  GlobalFrameLayouter, new_globals, layout_from, type_frame_size, get_offset, get_size,
}
use mavros.Codegen.Globals.Packed.{new_globals-apart}

abbrev three : List TypeExpr
three = field ∷ u 8 ∷ slice field ∷ []

abbrev laid_out : GlobalFrameLayouter
laid_out = record { offsets = 0 ∷ 4 ∷ 5 ∷ []; sizes = 4 ∷ 1 ∷ 1 ∷ []; total_size = 6 }

new_globals-apart_example :
    ((get_elem? three 0 >>= type_frame_size) ≡ some 4) × (0 + 4 ≤ 6) × ((0 + 4 ≤ 5) ⊎ (2 ≤ 0))
unfolding new_globals layout_from type_frame_size get_offset get_size
new_globals-apart_example = new_globals-apart three laid_out refl 0 0 4 refl refl 2 5 refl
