-- ===== src/Ssa/Meaning/Lists.antt =====
-- The meaning of a list of instructions, of the blocks of a function, and of a table of definitions.
use mavros.Prelude.{ℕ, ◌≡◌, ◌↔◌, Bool, true, false, some, List, [], ◌∷◌, ◌++◌, ◌==◌, if◌then◌else◌}
use mavros.Prelude.Field.{Field}
use mavros.Types.{TypeExpr}
use mavros.Ssa.Dict.{Dict, get}
use mavros.Ssa.Op.{OpCode}
use mavros.Ssa.Op.Results.{get_results}
use mavros.Ssa.Function.{Block}
use mavros.Ssa.Meaning.{Scalars, Assignment, Holds, AllHold, has_type}

-- `contains` on a vector of values
unfoldable pub contains : List ℕ → ℕ → Bool
contains [] v = false
contains (w ∷ ws) v = if v == w then true else contains ws v

module _ {F : Field} (env : Assignment F) where
  -- Every value of a list of parameters has the type that stands beside it.
  unfoldable pub ParametersTyped : List (ℕ × TypeExpr) → Type 0
  ParametersTyped [] = Unit {0}
  ParametersTyped ((v, t) ∷ ps) = (has_type t (env v) ≡ true) × ParametersTyped ps

  -- The parameters of all blocks have their types.
  unfoldable pub BlocksTyped : Dict (Block OpCode TypeExpr) → Type 0
  unfolding ParametersTyped
  BlocksTyped [] = Unit {0}
  BlocksTyped ((_, b) ∷ bs) = ParametersTyped (b.parameters) × BlocksTyped bs

module _ {F : Field} (S : Scalars F) (env : Assignment F) where
  -- Every instruction of every block holds.
  unfoldable pub BlocksHold : Dict (Block OpCode TypeExpr) → Type 0
  unfolding AllHold
  BlocksHold [] = Unit {0}
  BlocksHold ((_, b) ∷ bs) = AllHold S env (b.instructions) × BlocksHold bs

  -- Every entry of a table of definitions is an instruction that holds and defines the value.
  abbrev pub DefsHold : Dict OpCode → Type 0
  DefsHold defs =
      (v : ℕ) (op : OpCode)
      → get v defs ≡ some op
      → (contains (get_results op) v ≡ true) × Holds S env op

  -- An instruction holds if it defines a value.
  abbrev pub Defines : OpCode → Type 0
  Defines op = (v : ℕ) → contains (get_results op) v ≡ true → Holds S env op

  pub AllHold-++ :
      (xs ys : List OpCode) → AllHold S env (xs ++ ys) ↔ (AllHold S env xs × AllHold S env ys)
  unfolding AllHold
  AllHold-++ [] ys = (λ h. (tt, h), λ h. h.1)
  AllHold-++ (x ∷ xs) ys =
      let (to, from) = AllHold-++ xs ys in
      (λ h. ((h.0, (to (h.1)).0), (to (h.1)).1), λ h. (h.0.0, from (h.0.1, h.1)))

  -- Every instruction that defines a value holds.
  unfoldable pub AllDefine : List OpCode → Type 0
  AllDefine [] = Unit {0}
  AllDefine (op ∷ ops) = Defines op × AllDefine ops

  unfoldable pub BlocksDefine : Dict (Block OpCode TypeExpr) → Type 0
  unfolding AllDefine
  BlocksDefine [] = Unit {0}
  BlocksDefine ((_, b) ∷ bs) = AllDefine (b.instructions) × BlocksDefine bs

  pub AllHold-AllDefine : (ops : List OpCode) → AllHold S env ops → AllDefine ops
  unfolding AllDefine AllHold
  AllHold-AllDefine [] h = tt
  AllHold-AllDefine (op ∷ ops) h = (λ v m. h.0, AllHold-AllDefine ops (h.1))

  pub BlocksHold-BlocksDefine :
      (bs : Dict (Block OpCode TypeExpr)) → BlocksHold bs → BlocksDefine bs
  unfolding BlocksDefine BlocksHold
  BlocksHold-BlocksDefine [] h = tt
  BlocksHold-BlocksDefine ((_, b) ∷ bs) h =
      (AllHold-AllDefine (b.instructions) (h.0), BlocksHold-BlocksDefine bs (h.1))

  pub AllDefine-++ : (xs ys : List OpCode) → AllDefine xs → AllDefine ys → AllDefine (xs ++ ys)
  unfolding AllDefine
  AllDefine-++ [] ys h k = k
  AllDefine-++ (x ∷ xs) ys h k = (h.0, AllDefine-++ xs ys (h.1) k)
