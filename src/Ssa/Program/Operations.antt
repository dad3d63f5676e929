-- ===== src/Ssa/Program/Operations.antt =====
-- The operations of `SSA` (compiler/src/compiler/ssa/mod.rs) as steps, each of which keeps a program
-- well-formed.
use native.Mathlib.Nat.{mod-lt}
use mathlib.Core.Option.{some-injective}
use mathlib.Core.Path.{subst}
use mavros.Prelude.{
  ℕ, suc, ◌+◌, ◌^◌, ◌<◌, ◌≤◌, ◌≡◌, refl, sym, ap, ◌∙◌, Bool, Option, none, some, ◌==◌, length, inl,
  inr, Option-cases, Bool-cases, none-some, if_some, ==_eq, arith, ltb, ltb→lt,
}
use mavros.Ssa.Dict.{
  get, insert, remove, get-insert_cases, get-remove_self, get-remove_ne, get-retain,
  contains_key-some,
}
use mavros.Ssa.Instruction.{Instruction}
use mavros.Ssa.Function.{Function}
use mavros.Ssa.BiMap.{BiMap, filtered}
use mavros.Ssa.Program.{
  Ssa, get_function, get_const, insert_function, delete_function, put_function, retain_functions,
  set_entry_point, fresh_value, add_const, retain_constants, take_function, remove_const_by_id,
}
use mavros.Ssa.Program.Duplicate.{all_ids, duplicate_function}
use mavros.Ssa.Program.Duplicate.Copy.{with_copy-IsWf, duplicate_function_inv}
use mavros.Ssa.Program.Constants.{IsWf, add_const-IsWf}

filtered-some :
    {C : Type 0} (keep : C → Bool) (o : Option C) (c : C) → filtered keep o ≡ some c → o ≡ some c
filtered-some keep none c h = h
filtered-some keep (some d) c h = let (b, e) = if_some (keep d) d c h in ap some e

module _ {Op Ty C : Type 0} {bimap : BiMap C} where
  -- One operation but `put_function`. A counter of values that would wrap ends the run.
  pub data Step : Ssa Op Ty bimap → Ssa Op Ty bimap → Type 0 where
    inserted :
        {s t : Ssa Op Ty bimap} (f : Function Op Ty) (n : ℕ)
        → insert_function f s ≡ some (n, t)
        → Step s t
    deleted : (n : ℕ) (s : Ssa Op Ty bimap) → Step s ((delete_function n s).1)
    taken :
        {s t : Ssa Op Ty bimap} (n : ℕ) (f : Function Op Ty)
        → take_function n s ≡ some (f, t)
        → Step s t
    retained :
        (keep : ℕ → Function Op Ty → Bool) (s : Ssa Op Ty bimap) → Step s (retain_functions keep s)
    duplicated :
        (instr : Instruction Op) (n : ℕ) (f : Function Op Ty) (s : Ssa Op Ty bimap)
        → get_function n s ≡ some f
        → s.next_value_id + length (all_ids instr (f.blocks)) < 2 ^ 64
        → {m : ℕ} {t : Ssa Op Ty bimap} → duplicate_function instr n s ≡ some (m, t)
        → Step s t
    entry_set : (n : ℕ) (s : Ssa Op Ty bimap) → Step s (set_entry_point n s)
    minted : (s : Ssa Op Ty bimap) → suc (s.next_value_id) < 2 ^ 64 → Step s ((fresh_value s).1)
    const_added :
        (c : C) (s : Ssa Op Ty bimap) → suc (s.next_value_id) < 2 ^ 64 → Step s ((add_const c s).1)
    const_removed :
        {s t : Ssa Op Ty bimap} (v : ℕ) (c : C) → remove_const_by_id v s ≡ some (c, t) → Step s t
    consts_retained : (keep : ℕ → C → Bool) (s : Ssa Op Ty bimap) → Step s (retain_constants keep s)

  abbrev pub with_function : Function Op Ty → Ssa Op Ty bimap → Ssa Op Ty bimap
  with_function f s = record s {
    functions = insert (s.next_function_id) f (s.functions);
    next_function_id = suc (s.next_function_id);
  }

  pub insert_function_inv :
      (n : ℕ) (f : Function Op Ty) (s t : Ssa Op Ty bimap)
      → insert_function f s ≡ some (n, t)
      → (suc (s.next_function_id) < 2 ^ 64) × (with_function f s ≡ t)
  unfolding insert_function
  insert_function_inv n f s t h =
      let (b, e) =
        if_some (ltb (suc (s.next_function_id)) (2 ^ 64)) (s.next_function_id, with_function f s)
          (n, t) h in
      (ltb→lt (suc (s.next_function_id)) (2 ^ 64) b, ap (λ p. p.1) e)

  with_function-IsWf :
      (f : Function Op Ty) (s : Ssa Op Ty bimap) → IsWf s → IsWf (with_function f s)
  with_function-IsWf f s wf = record {
    functions_below = λ n g e. elim (get-insert_cases n (s.next_function_id) f g (s.functions) e) [
      | inl (p, q) ↦ omega (arith, p)
      | inr q ↦ omega (arith, wf.functions_below n g q)
    ];
    constants_below = wf.constants_below;
    bounded = wf.bounded;
  }

  without-IsWf : (n : ℕ) (s : Ssa Op Ty bimap) → IsWf s → IsWf ((delete_function n s).1)
  without-IsWf n s wf = record {
    functions_below = λ m g e. elim (Bool-cases (m == n)) [
      | inl t ↦ absurd (
          none-some (
            sym (get-remove_self n (s.functions))
            ∙ ap (λ k. get k (remove n (s.functions))) (sym (==_eq m n t))
            ∙ e))
      | inr t ↦ wf.functions_below m g (sym (get-remove_ne m n (s.functions) (ground arith)) ∙ e)
    ];
    constants_below = wf.constants_below;
    bounded = wf.bounded;
  }

  abbrev without_const : ℕ → Ssa Op Ty bimap → Ssa Op Ty bimap
  without_const v s = record s { constants = bimap.remove_by_left v (s.constants) }

  without_const-IsWf : (v : ℕ) (s : Ssa Op Ty bimap) → IsWf s → IsWf (without_const v s)
  without_const-IsWf v s wf = record {
    functions_below = wf.functions_below;
    constants_below = λ w c e. elim (Bool-cases (w == v)) [
      | inl t ↦ absurd (
          none-some (
            sym (bimap.get_by_left-remove_self v (s.constants))
            ∙ ap (λ k. bimap.get_by_left k (bimap.remove_by_left v (s.constants)))
                (sym (==_eq w v t))
            ∙ e))
      | inr t ↦
          wf.constants_below w c
            (sym (bimap.get_by_left-remove_ne w v (s.constants) (ground arith)) ∙ e)
    ];
    bounded = wf.bounded;
  }

  pub take_function_inv :
      (n : ℕ) (f : Function Op Ty) (s t : Ssa Op Ty bimap)
      → take_function n s ≡ some (f, t)
      → (delete_function n s).1 ≡ t
  unfolding take_function
  take_function_inv n f s t h = elim (Option-cases (get_function n s)) [
    | inl e ↦ absurd (none-some (missing e ∙ h))
    | inr (g, e) ↦ ap (λ p. p.1) (some-injective (g, (delete_function n s).1) (f, t) (found e ∙ h))
  ]
    where
      missing : get_function n s ≡ none → none ≡ take_function n s
      missing e = rw (e, take_function) refl

      found :
          {g : Function Op Ty}
          → get_function n s ≡ some g
          → some (g, (delete_function n s).1) ≡ take_function n s
      found e = rw (e, take_function) refl

  remove_const_by_id_inv :
      (v : ℕ) (c : C) (s t : Ssa Op Ty bimap)
      → remove_const_by_id v s ≡ some (c, t)
      → without_const v s ≡ t
  unfolding remove_const_by_id
  remove_const_by_id_inv v c s t h = elim (Option-cases (get_const v s)) [
    | inl e ↦ absurd (none-some (missing e ∙ h))
    | inr (d, e) ↦ ap (λ p. p.1) (some-injective (d, without_const v s) (c, t) (found e ∙ h))
  ]
    where
      missing : get_const v s ≡ none → none ≡ remove_const_by_id v s
      missing e = rw (e, remove_const_by_id) refl

      found :
          {d : C} → get_const v s ≡ some d → some (d, without_const v s) ≡ remove_const_by_id v s
      found e = rw (e, remove_const_by_id) refl

  pub Step-IsWf : {s t : Ssa Op Ty bimap} → Step s t → IsWf s → IsWf t
  unfolding fresh_value take_function remove_const_by_id
  Step-IsWf (inserted {s} {t} f n e) wf =
      subst IsWf ((insert_function_inv n f s t e).1) (with_function-IsWf f s wf)
  Step-IsWf (deleted n s) wf = without-IsWf n s wf
  Step-IsWf (taken {s} {t} n f e) wf =
      subst IsWf (take_function_inv n f s t e) (without-IsWf n s wf)
  Step-IsWf (retained keep s) wf = record {
    functions_below = λ m g e.
        let (f, h) = contains_key-some m (s.functions) (get-retain keep m g (s.functions) e) in
        wf.functions_below m f h;
    constants_below = wf.constants_below;
    bounded = wf.bounded;
  }
  Step-IsWf (duplicated instr n f s e b {m} {t} h) wf =
      subst IsWf (duplicate_function_inv instr n m f s t e b h) (with_copy-IsWf instr f s b wf)
  Step-IsWf (entry_set n s) wf = record {
    functions_below = wf.functions_below;
    constants_below = wf.constants_below;
    bounded = wf.bounded;
  }
  Step-IsWf (minted s b) wf = record {
    functions_below = wf.functions_below;
    constants_below = λ v c e. omega (arith, b, wf.constants_below v c e);
    bounded = mod-lt (suc (s.next_value_id)) (omega arith);
  }
  Step-IsWf (const_added c s b) wf = add_const-IsWf c s wf b
  Step-IsWf (const_removed {s} {t} v c e) wf =
      subst IsWf (remove_const_by_id_inv v c s t e) (without_const-IsWf v s wf)
  Step-IsWf (consts_retained keep s) wf = record {
    functions_below = wf.functions_below;
    constants_below = λ v c e. wf.constants_below v c (
        filtered-some (keep v) (get_const v s) c
          (sym (bimap.get_by_left-retain keep v (s.constants)) ∙ e));
    bounded = wf.bounded;
  }

  pub put_function-IsWf :
      (n : ℕ) (f : Function Op Ty) (s : Ssa Op Ty bimap)
      → n < s.next_function_id
      → IsWf s
      → IsWf (put_function n f s)
  put_function-IsWf n f s b wf = record {
    functions_below = λ m g e. elim (get-insert_cases m n f g (s.functions) e) [
      | inl (p, q) ↦ omega (arith, p, b)
      | inr q ↦ wf.functions_below m g q
    ];
    constants_below = wf.constants_below;
    bounded = wf.bounded;
  }

  -- No operation takes the counter of functions back.
  pub Step-grows : {s t : Ssa Op Ty bimap} → Step s t → s.next_function_id ≤ t.next_function_id
  unfolding fresh_value add_const
  Step-grows (inserted {s} {t} f n e) =
      omega
        (arith, ap (λ (x : Ssa Op Ty bimap). x.next_function_id) (insert_function_inv n f s t e).1)
  Step-grows (deleted n s) = omega arith
  Step-grows (taken {s} {t} n f e) =
      omega (arith, ap (λ (x : Ssa Op Ty bimap). x.next_function_id) (take_function_inv n f s t e))
  Step-grows (retained keep s) = omega arith
  Step-grows (duplicated instr n f s e b {m} {t} h) = omega (
    arith,
    ap (λ (x : Ssa Op Ty bimap). x.next_function_id) (duplicate_function_inv instr n m f s t e b h),
  )
  Step-grows (entry_set n s) = omega arith
  Step-grows (minted s b) = omega arith
  Step-grows (const_added c s b) = ground arith
  Step-grows (const_removed {s} {t} v c e) =
      omega
        (arith, ap (λ (x : Ssa Op Ty bimap). x.next_function_id) (remove_const_by_id_inv v c s t e))
  Step-grows (consts_retained keep s) = omega arith

  pub insert_function_id :
      (n : ℕ) (f : Function Op Ty) (s t : Ssa Op Ty bimap)
      → insert_function f s ≡ some (n, t)
      → s.next_function_id ≡ n
  unfolding insert_function
  insert_function_id n f s t h =
      let (b, e) =
        if_some (ltb (suc (s.next_function_id)) (2 ^ 64)) (s.next_function_id, with_function f s)
          (n, t) h in
      ap (λ p. p.0) e
