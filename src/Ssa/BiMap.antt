-- ===== src/Ssa/BiMap.antt =====
-- `BiHashMap` of the bimap crate, with numbers on the left: a parameter of the program, with the
-- behaviour that the crate documents for it. An insertion drops the pairs that it is in conflict with.
pub mod Log
use mavros.Prelude.{ℕ, ◌≡◌, ◌≢◌, Bool, Option, none, some, if◌then◌else◌}

abbrev pub filtered : {C : Type 0} → (C → Bool) → Option C → Option C
filtered keep none = none
filtered keep (some c) = if keep c then some c else none

pub record BiMap (C : Type 0) : Type 1 where
  pub Table : Type 0
  pub empty : Table
  pub get_by_left : ℕ → Table → Option C
  pub get_by_right : C → Table → Option ℕ
  pub insert : ℕ → C → Table → Table
  pub remove_by_left : ℕ → Table → Table
  pub retain : (ℕ → C → Bool) → Table → Table
  pub get_by_left-empty : (v : ℕ) → get_by_left v empty ≡ none
  -- A left and a right value belong to one pair at most.
  pub get_by_left-right :
      (v : ℕ) (c : C) (t : Table) → get_by_left v t ≡ some c → get_by_right c t ≡ some v
  pub get_by_right-left :
      (v : ℕ) (c : C) (t : Table) → get_by_right c t ≡ some v → get_by_left v t ≡ some c
  pub get_by_left-insert_self : (v : ℕ) (c : C) (t : Table) → get_by_left v (insert v c t) ≡ some c
  pub get_by_left-insert_ne :
      (w v : ℕ) (c : C) (t : Table)
      → w ≢ v
      → get_by_right c t ≡ none
      → get_by_left w (insert v c t) ≡ get_by_left w t
  pub get_by_left-remove_self : (v : ℕ) (t : Table) → get_by_left v (remove_by_left v t) ≡ none
  pub get_by_left-remove_ne :
      (w v : ℕ) (t : Table) → w ≢ v → get_by_left w (remove_by_left v t) ≡ get_by_left w t
  pub get_by_left-retain :
      (keep : ℕ → C → Bool) (v : ℕ) (t : Table)
      → get_by_left v (retain keep t) ≡ filtered (keep v) (get_by_left v t)
