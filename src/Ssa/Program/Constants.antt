-- ===== src/Ssa/Program/Constants.antt =====
-- The table of constants (compiler/src/compiler/ssa/mod.rs) and the counters of the program.
use mavros.Prelude.{
  ◌==◌, if◌then◌else◌, inl, inr, Option-cases, Bool-cases, ◌∙◌, ℕ, suc, ◌^◌, ◌%◌, ◌<◌, ◌≡◌, refl,
  sym, ap, Option, none, some, arith, ==_eq, ==_self,
}
use native.Mathlib.Nat.{mod-lt}
use mathlib.Core.Option.{some-injective}
use mavros.Ssa.BiMap.{BiMap}
use mavros.Ssa.Function.{Function}
use mavros.Ssa.Program.{Ssa, get_const, add_const, fresh_value, get_function}

module _ {Op Ty C : Type 0} {bimap : BiMap C} where
  -- Every identifier in use is below its counter.
  pub record IsWf (s : Ssa Op Ty bimap) : Type 0 where
    pub functions_below :
        (n : ℕ) (f : Function Op Ty) → get_function n s ≡ some f → n < s.next_function_id
    pub constants_below : (v : ℕ) (c : C) → get_const v s ≡ some c → v < s.next_value_id
    pub bounded : s.next_value_id < 2 ^ 64

  abbrev interned : C → Ssa Op Ty bimap → Option ℕ
  interned c s = bimap.get_by_right c (s.constants)

  add_const_hit :
      (c : C) (s : Ssa Op Ty bimap) {v : ℕ} → interned c s ≡ some v → add_const c s ≡ (v, s)
  unfolding add_const
  add_const_hit c s e = rw (e, add_const) refl

  add_const_miss :
      (c : C) (s : Ssa Op Ty bimap)
      → interned c s ≡ none
      → add_const c s ≡ (
        s.next_value_id,
        record s {
          next_value_id = suc (s.next_value_id) % 2 ^ 64;
          constants = bimap.insert (s.next_value_id) c (s.constants);
        },
      )
  unfolding add_const fresh_value
  add_const_miss c s e = rw (e, add_const) refl

  -- A value that has an identifier gives that identifier, and nothing changes.
  pub add_const_again :
      (c : C) (s : Ssa Op Ty bimap) (v : ℕ) → get_const v s ≡ some c → add_const c s ≡ (v, s)
  add_const_again c s v e = add_const_hit c s (bimap.get_by_left-right v c (s.constants) e)

  -- After `add_const c` the identifier it gives is bound to `c`, and every other one to what it was.
  pub get_const-add_const :
      (c : C) (s : Ssa Op Ty bimap) (w : ℕ)
      → get_const w ((add_const c s).1) ≡ (if w == (add_const c s).0 then some c else get_const w s)
  get_const-add_const c s w = elim (Option-cases (interned c s)) [
    | inl e ↦ rw (add_const_miss c s e) (miss e)
    | inr (v, e) ↦ rw (add_const_hit c s e) (hit v e)
  ]
    where
      miss :
          interned c s ≡ none
          → bimap.get_by_left w (bimap.insert (s.next_value_id) c (s.constants))
            ≡ (if w == s.next_value_id then some c else get_const w s)
      miss e = elim (Bool-cases (w == s.next_value_id)) [
        | inl t ↦
            rw (t, ==_eq w (s.next_value_id) t)
              (bimap.get_by_left-insert_self (s.next_value_id) c (s.constants))
        | inr t ↦
            rw t (bimap.get_by_left-insert_ne w (s.next_value_id) c (s.constants) (ground arith) e)
      ]

      hit :
          (v : ℕ)
          → interned c s ≡ some v
          → get_const w s ≡ (if w == v then some c else get_const w s)
      hit v e = elim (Bool-cases (w == v)) [
        | inl t ↦ rw (t, ==_eq w v t) (bimap.get_by_right-left v c (s.constants) e)
        | inr t ↦ rw t refl
      ]

  -- A constant keeps its identifier when another is added.
  pub get_const-add_const_kept :
      (c : C) (s : Ssa Op Ty bimap) (w : ℕ) (d : C)
      → IsWf s
      → get_const w s ≡ some d
      → get_const w ((add_const c s).1) ≡ some d
  get_const-add_const_kept c s w d wf h = elim (Option-cases (interned c s)) [
    | inl e ↦
        rw (add_const_miss c s e)
          (bimap.get_by_left-insert_ne w (s.next_value_id) c (s.constants) (λ q. below q) e ∙ h)
    | inr (v, e) ↦ rw (add_const_hit c s e) h
  ]
    where
      below : w ≡ s.next_value_id → ⊥
      below q = omega (arith, q, wf.constants_below w d h)

  pub get_const-add_const_self :
      (c : C) (s : Ssa Op Ty bimap) → get_const ((add_const c s).0) ((add_const c s).1) ≡ some c
  get_const-add_const_self c s =
      rw (==_self ((add_const c s).0)) at (get_const-add_const c s ((add_const c s).0))

  pub add_const-IsWf :
      (c : C) (s : Ssa Op Ty bimap)
      → IsWf s
      → suc (s.next_value_id) < 2 ^ 64
      → IsWf ((add_const c s).1)
  add_const-IsWf c s wf h = elim (Option-cases (interned c s)) [
    | inl e ↦ rw (add_const_miss c s e) (record {
      functions_below = wf.functions_below;
      constants_below = after e;
      bounded = mod-lt (suc (s.next_value_id)) (omega arith);
    })
    | inr (v, e) ↦ rw (add_const_hit c s e) wf
  ]
    where
      after :
          interned c s ≡ none
          → (w : ℕ) (d : C)
          → bimap.get_by_left w (bimap.insert (s.next_value_id) c (s.constants)) ≡ some d
          → w < suc (s.next_value_id) % 2 ^ 64
      after e w d q = elim (Bool-cases (w == s.next_value_id)) [
        | inl t ↦ rw (==_eq w (s.next_value_id) t) (omega (arith, h))
        | inr t ↦ omega (
          arith,
          h,
          wf.constants_below w d (
              sym (bimap.get_by_left-insert_ne w (s.next_value_id) c (s.constants) (ground arith) e)
              ∙ q),
        )
      ]

  pub add_const_idempotent :
      (c : C) (s : Ssa Op Ty bimap)
      → add_const c ((add_const c s).1) ≡ ((add_const c s).0, (add_const c s).1)
  add_const_idempotent c s =
      add_const_again c ((add_const c s).1) ((add_const c s).0) (get_const-add_const_self c s)

  -- In a well-formed program with an identifier to spare, two values added one after the other get one
  -- identifier only if they are the same.
  pub add_const_injective :
      (c d : C) (s : Ssa Op Ty bimap)
      → IsWf s
      → suc (s.next_value_id) < 2 ^ 64
      → (add_const d ((add_const c s).1)).0 ≡ (add_const c s).0
      → c ≡ d
  add_const_injective c d s wf b h = some-injective c d (
      sym (
        get_const-add_const_kept d ((add_const c s).1) ((add_const c s).0) c
          (add_const-IsWf c s wf b) (get_const-add_const_self c s))
      ∙ ap (λ v. get_const v ((add_const d ((add_const c s).1)).1)) (sym h)
      ∙ get_const-add_const_self d ((add_const c s).1))
