-- ===== src/Ssa/Program/Duplicate/Copy.antt =====
-- `duplicate_function` (compiler/src/compiler/ssa/mod.rs): what the copy is.
use mathlib.Core.Option.{some-injective}
use mathlib.Core.List.{Memᴰ}
use mathlib.Core.Path.{subst}
use mavros.Prelude.{
  ℕ, suc, ◌+◌, ◌^◌, ◌<◌, ◌≤◌, ◌≡◌, refl, sym, ap, ◌∙◌, true, false, none, some, List, [], ◌∷◌, map,
  length, ◌⊎◌, inl, inr, Option-cases, Bool-cases, none-some, ltb, lt→ltb, ltb→lt, arith,
}
use mavros.Ssa.Dict.{Dict, get, insert, get-insert_cases}
use mavros.Ssa.Instruction.{Instruction}
use mavros.Ssa.Function.{Function}
use mavros.Ssa.BiMap.{BiMap}
use mavros.Ssa.Program.{Ssa, get_function, get_const, is_const, insert_function}
use mavros.Ssa.Program.Constants.{IsWf}
use mavros.Ssa.Program.Duplicate.{all_ids, map_blocks, allocate, replacement, duplicate_function}
use mavros.Ssa.Program.Duplicate.Values.{all_ids-map_blocks}
use mavros.Ssa.Program.Duplicate.Fresh.{
  IsRemap, empty-IsRemap, allocate-IsRemap, get-allocate, next_value_id-allocate,
}

Memᴰ-map : {w : ℕ} (f : ℕ → ℕ) (vs : List ℕ) → Memᴰ w (map f vs) → (v : ℕ) × Memᴰ v vs × (f v ≡ w)
Memᴰ-map f [] m = elim m [ ]
Memᴰ-map f (v ∷ vs) (Memᴰ.head e) = (v, Memᴰ.head refl, sym e)
Memᴰ-map f (v ∷ vs) (Memᴰ.tail m) = let (x, n, e) = Memᴰ-map f vs m in (x, Memᴰ.tail n, e)

replacement-some : (v w : ℕ) (remap : Dict ℕ) → get v remap ≡ some w → replacement remap v ≡ w
unfolding replacement
replacement-some v w remap e = rw (e, replacement) refl

replacement-none : (v : ℕ) (remap : Dict ℕ) → get v remap ≡ none → replacement remap v ≡ v
unfolding replacement
replacement-none v remap e = rw (e, replacement) refl

true-false : true ≡ false → ⊥
true-false h = cc

is_const_below :
    {Op Ty C : Type 0} {bimap : BiMap C} (v : ℕ) (s : Ssa Op Ty bimap)
    → IsWf s
    → is_const v s ≡ true
    → v < s.next_value_id
unfolding is_const
is_const_below v s wf c = elim (Option-cases (get_const v s)) [
  | inl e ↦ absurd (true-false (sym c ∙ rw (e, is_const) refl))
  | inr (d, e) ↦ wf.constants_below v d e
]

module _ {Op Ty C : Type 0} {bimap : BiMap C} (instr : Instruction Op) where
  -- What `duplicate_function` puts in place of each value.
  abbrev pub renaming : Function Op Ty → Ssa Op Ty bimap → ℕ → ℕ
  renaming f s = replacement ((allocate (all_ids instr (f.blocks)) [] s).0)

  abbrev pub renamed : Function Op Ty → Ssa Op Ty bimap → Function Op Ty
  renamed f s = record f { blocks = map_blocks instr (renaming f s) (f.blocks) }

  -- The program after.
  abbrev pub with_copy : Function Op Ty → Ssa Op Ty bimap → Ssa Op Ty bimap
  with_copy f s = record s {
    functions = insert (s.next_function_id) (renamed f s) (s.functions);
    next_function_id = suc (s.next_function_id);
    next_value_id = (allocate (all_ids instr (f.blocks)) [] s).1.next_value_id;
  }

  -- Where the function is there and identifiers are left, for it and for as many values as it has, the
  -- renamed copy stands under the next one, and nothing else changes but the counters.
  pub duplicate_function_lem :
      (n : ℕ) (f : Function Op Ty) (s : Ssa Op Ty bimap)
      → get_function n s ≡ some f
      → suc (s.next_function_id) < 2 ^ 64
      → s.next_value_id + length (all_ids instr (f.blocks)) < 2 ^ 64
      → duplicate_function instr n s ≡ some (s.next_function_id, with_copy f s)
  unfolding duplicate_function insert_function
  duplicate_function_lem n f s e b c =
      rw
        (
          e,
          (allocate-IsRemap s (all_ids instr (f.blocks)) [] s c (empty-IsRemap s)).rest,
          lt→ltb (suc (s.next_function_id)) (2 ^ 64) b,
        )
        refl

  -- With no identifier left for a function there is no result.
  duplicate_function-none :
      (n : ℕ) (f : Function Op Ty) (s : Ssa Op Ty bimap)
      → get_function n s ≡ some f
      → ltb (suc (s.next_function_id)) (2 ^ 64) ≡ false
      → s.next_value_id + length (all_ids instr (f.blocks)) < 2 ^ 64
      → duplicate_function instr n s ≡ none
  unfolding duplicate_function insert_function
  duplicate_function-none n f s e b c =
      rw (e, (allocate-IsRemap s (all_ids instr (f.blocks)) [] s c (empty-IsRemap s)).rest, b) refl

  pub duplicate_function_inv :
      (n m : ℕ) (f : Function Op Ty) (s t : Ssa Op Ty bimap)
      → get_function n s ≡ some f
      → s.next_value_id + length (all_ids instr (f.blocks)) < 2 ^ 64
      → duplicate_function instr n s ≡ some (m, t)
      → with_copy f s ≡ t
  duplicate_function_inv n m f s t e c h =
      elim (Bool-cases (ltb (suc (s.next_function_id)) (2 ^ 64))) [
        | inl b ↦
            ap (λ p. p.1)
              (some-injective (s.next_function_id, with_copy f s) (m, t)
                (sym (
                    duplicate_function_lem n f s e (ltb→lt (suc (s.next_function_id)) (2 ^ 64) b) c)
                  ∙ h))
        | inr b ↦ absurd (none-some (sym (duplicate_function-none n f s e b c) ∙ h))
      ]

  pub with_copy-IsWf :
      (f : Function Op Ty) (s : Ssa Op Ty bimap)
      → s.next_value_id + length (all_ids instr (f.blocks)) < 2 ^ 64
      → IsWf s
      → IsWf (with_copy f s)
  with_copy-IsWf f s room wf =
      let inv = allocate-IsRemap s (all_ids instr (f.blocks)) [] s room (empty-IsRemap s) in
      record {
        functions_below = λ n g e.
            elim (get-insert_cases n (s.next_function_id) (renamed f s) g (s.functions) e) [
              | inl (p, q) ↦ omega (arith, p)
              | inr q ↦ omega (arith, wf.functions_below n g q)
            ];
        constants_below = λ v c e. omega (arith, wf.constants_below v c e, inv.started);
        bounded = omega (arith, room, next_value_id-allocate (all_ids instr (f.blocks)) [] s room);
      }

  module _ (f : Function Op Ty) (s : Ssa Op Ty bimap)
      (room : s.next_value_id + length (all_ids instr (f.blocks)) < 2 ^ 64) where
    allocated-IsRemap :
        IsRemap s
          ((allocate (all_ids instr (f.blocks)) [] s).0)
          ((allocate (all_ids instr (f.blocks)) [] s).1)
    allocated-IsRemap = allocate-IsRemap s (all_ids instr (f.blocks)) [] s room (empty-IsRemap s)

    renaming_const : (v : ℕ) → is_const v s ≡ true → renaming f s v ≡ v
    renaming_const v c =
        elim (Option-cases (get v ((allocate (all_ids instr (f.blocks)) [] s).0))) [
          | inl e ↦ replacement-none v ((allocate (all_ids instr (f.blocks)) [] s).0) e
          | inr (w, e) ↦ absurd (true-false (sym c ∙ allocated-IsRemap.variable v w e))
        ]

    renaming-some :
        (v : ℕ)
        → Memᴰ v (all_ids instr (f.blocks))
        → is_const v s ≡ false
        → get v ((allocate (all_ids instr (f.blocks)) [] s).0) ≡ some (renaming f s v)
    renaming-some v m c =
        let (w, e) = get-allocate s (all_ids instr (f.blocks)) [] s v room (empty-IsRemap s) m c in
        e ∙ ap some (sym (replacement-some v w ((allocate (all_ids instr (f.blocks)) [] s).0) e))

    -- A value of the function keeps its identifier if it is a constant, and has one from the counter on
    -- otherwise.
    renaming_cases :
        (v : ℕ)
        → Memᴰ v (all_ids instr (f.blocks))
        → ((is_const v s ≡ true) × (renaming f s v ≡ v)) ⊎ (s.next_value_id ≤ renaming f s v)
    renaming_cases v m = elim (Bool-cases (is_const v s)) [
      | inl c ↦ inl (c, renaming_const v c)
      | inr c ↦ inr (allocated-IsRemap.above v (renaming f s v) (renaming-some v m c))
    ]

    -- While there are identifiers for as many values as the function has, every value of the copy is a
    -- constant of the program or has an identifier from the counter on.
    pub renamed_fresh :
        (w : ℕ)
        → Memᴰ w (all_ids instr ((renamed f s).blocks))
        → (is_const w s ≡ true) ⊎ (s.next_value_id ≤ w)
    renamed_fresh w m =
        let (v, n, e) =
          Memᴰ-map (renaming f s) (all_ids instr (f.blocks))
            (subst (λ vs. Memᴰ w vs) (all_ids-map_blocks instr (renaming f s) (f.blocks)) m) in
        elim (renaming_cases v n) [
          | inl (c, q) ↦ inl (ap (λ x. is_const x s) (sym e ∙ q) ∙ c)
          | inr q ↦ inr (omega (arith, q, e))
        ]

    -- In a well-formed program with identifiers for as many values as the function has, two values of the
    -- function have one identifier in the copy only if they are the same.
    pub renaming_injective :
        IsWf s
        → (v w : ℕ) → Memᴰ v (all_ids instr (f.blocks))
        → Memᴰ w (all_ids instr (f.blocks))
        → renaming f s v ≡ renaming f s w
        → v ≡ w
    renaming_injective wf v w m n e = elim (Bool-cases (is_const v s)) [
      | inl c ↦ elim (renaming_cases w n) [
        | inl (d, q) ↦ sym (renaming_const v c) ∙ e ∙ q
        | inr q ↦ absurd (omega (arith, renaming_const v c, is_const_below v s wf c, e, q))
      ]
      | inr c ↦ elim (Bool-cases (is_const w s)) [
        | inl d ↦ absurd (
            omega (
              arith,
              renaming_const w d,
              is_const_below w s wf d,
              e,
              allocated-IsRemap.above v (renaming f s v) (renaming-some v m c),
            ))
        | inr d ↦
            allocated-IsRemap.single v w (renaming f s v) (renaming-some v m c)
              (renaming-some w n d ∙ ap some (sym e))
      ]
    ]
