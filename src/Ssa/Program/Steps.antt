-- ===== src/Ssa/Program/Steps.antt =====
-- What holds of a program (compiler/src/compiler/ssa/mod.rs) after any number of operations of `SSA`.
use Prim.Native.String.{String}
use mavros.Prelude.{ℕ, ◌<◌, ◌⊎◌, ◌≡◌, sym, ◌∙◌, some, inl, inr, none-some, arith}
use mavros.Ssa.Function.{Function}
use mavros.Ssa.BiMap.{BiMap}
use mavros.Ssa.Program.{Ssa, with_main, get_function, put_function}
use mavros.Ssa.Program.Constants.{IsWf}
use mavros.Ssa.Program.Operations.{Step, Step-IsWf, put_function-IsWf, Step-grows}

module _ {Op Ty C : Type 0} {bimap : BiMap C} where
  -- Any number of operations. `put_function` puts any function under any identifier.
  pub data Steps : Ssa Op Ty bimap → Ssa Op Ty bimap → Type 0 where
    done : (s : Ssa Op Ty bimap) → Steps s s
    then_step : {s t r : Ssa Op Ty bimap} → Steps s t → Step t r → Steps s r
    then_put :
        {s t : Ssa Op Ty bimap}
        → Steps s t
        → (n : ℕ) (f : Function Op Ty) → Steps s (put_function n f t)

  -- Some function stands under the identifier.
  abbrev Present : ℕ → Ssa Op Ty bimap → Type 0
  Present n s = (f : Function Op Ty) × (get_function n s ≡ some f)

  -- At some point of a run a function stood under the identifier.
  abbrev pub WasPresent : ℕ → {s t : Ssa Op Ty bimap} → Steps s t → Type 0
  WasPresent n (done s) = Present n s
  WasPresent n (then_step {t} {r} p q) = WasPresent n p ⊎ Present n r
  WasPresent n (then_put p m f) = WasPresent n p

  -- Every `put_function` of a run is under an identifier under which a function stood before.
  abbrev pub PutsBack : {s t : Ssa Op Ty bimap} → Steps s t → Type 0
  PutsBack (done s) = Unit
  PutsBack (then_step p q) = PutsBack p
  PutsBack (then_put p n f) = PutsBack p × WasPresent n p

  with_main-IsWf : (name : String) → IsWf (with_main {Op = Op} {Ty = Ty} {bimap = bimap} name)
  unfolding with_main
  with_main-IsWf name = record {
    functions_below = λ n f e. ground (arith, e);
    constants_below = λ v c e. absurd (none-some (sym (bimap.get_by_left-empty v) ∙ e));
    bounded = omega arith;
  }

  mutual
    Steps-IsWf : {s t : Ssa Op Ty bimap} (p : Steps s t) → PutsBack p → IsWf s → IsWf t
    Steps-IsWf (done s) back wf = wf
    Steps-IsWf (then_step p q) back wf = Step-IsWf q (Steps-IsWf p back wf)
    Steps-IsWf (then_put {t} p n f) back wf =
        put_function-IsWf n f t (present_below n p (back.0) wf (back.1)) (Steps-IsWf p (back.0) wf)

    -- An identifier under which a function stood is below the counter.
    present_below :
        (n : ℕ) {s t : Ssa Op Ty bimap} (p : Steps s t)
        → PutsBack p
        → IsWf s
        → WasPresent n p
        → n < t.next_function_id
    present_below n (done s) back wf (f, e) = wf.functions_below n f e
    present_below n (then_step p q) back wf (inl w) =
        omega (arith, present_below n p back wf w, Step-grows q)
    present_below n (then_step p q) back wf (inr (f, e)) =
        (Step-IsWf q (Steps-IsWf p back wf)).functions_below n f e
    present_below n (then_put p m f) back wf w = present_below n p (back.0) wf w

  pub with_main-Steps-IsWf :
      (name : String) {s : Ssa Op Ty bimap} (p : Steps (with_main name) s) → PutsBack p → IsWf s
  with_main-Steps-IsWf name p back = Steps-IsWf p back (with_main-IsWf name)
