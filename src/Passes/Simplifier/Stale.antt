-- ===== src/Passes/Simplifier/Stale.antt =====
-- The simplifier (compiler/src/compiler/passes/simplifier.rs) asks for the type of a constant that it
-- has added in the same round, which the types inferred before the round do not have.
use mavros.Prelude.{ℕ, ◌^◌, ◌<◌, ◌≡◌, ◌≢◌, true, false, none, some, [], ◌∷◌}
use mavros.Prelude.Field.{Field}
use mavros.Types.{TypeExpr, u}
use mavros.Ssa.Dict.{Dict, get}
use mavros.Ssa.Constant.{Constant, u_const}
use mavros.Ssa.Function.{Function}
use mavros.Ssa.BiMap.{BiMap}
use mavros.Ssa.Program.{get_const, add_const}
use mavros.Ssa.Program.Constants.{IsWf}
use mavros.Passes.Simplifier.{Program}
use mavros.Passes.Simplifier.Rounds.{Round}

-- v_a = v_x - v_x and v_b = v_a >> v_c stand one after the other, where the constant 0 of v_a's type is
-- not in the program yet, its identifier has no type, and v_c is a constant other than 0.
pub record IsStale {F : Field} {bimap : BiMap (Constant F)} (types : Dict TypeExpr)
    (s : Program bimap) (a x c w v n : ℕ) : Type 0 where
  pub well_formed : IsWf s
  pub typed : get a types ≡ some (u w)
  pub zero_new : bimap.get_by_right (u_const w 0) (s.constants) ≡ none
  pub untyped : get (s.next_value_id) types ≡ none
  pub variable : get_const x s ≡ none
  pub shift : get_const c s ≡ some (u_const v n)
  pub positive : 0 < n
  pub small : n < 2 ^ 64
  pub apart : a ≢ c

module _ {F : Field} {bimap : BiMap (Constant F)} (types : Dict TypeExpr) (s : Program bimap)
    (a x c w v n : ℕ) (stale : IsStale types s a x c w v n) (b : ℕ) where
  abbrev start : Round bimap
  start = record { ssa = s; aliases = []; changed = false }

  abbrev aliased : Round bimap
  aliased = record {
    ssa = (add_const (u_const w 0) s).1;
    aliases = (a, (add_const (u_const w 0) s).0) ∷ [];
    changed = true;
  }
