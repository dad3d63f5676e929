-- ===== src/Passes/DeduplicatePhis/Refine.antt =====
-- `deduplicate_phis` (compiler/src/compiler/passes/deduplicate_phis.rs) returns, and keeps the paths
-- of the function.
use mathlib.Core.Option.{some-injective}
use mathlib.Core.Path.{subst, ap₂}
use mathlib.Core.Bool.{and-eq-true_iff}
use mavros.Prelude.{
  ℕ, suc, ◌+◌, ◌^◌, ◌≤◌, ◌<◌, ◌≡◌, refl, sym, ap, ◌∙◌, false, ◌&&◌, Option, none, some, List, [],
  ◌∷◌, ◌==◌, leb, lt→ltb, length, inl, inr, Bool-cases, none-some, ==_eq, ==_self, arith,
}
use mavros.Ssa.Dict.{Dict, get, insert, get-insert_self, get-insert_ne, contains_key-get}
use mavros.Ssa.Function.{
  Block, Function, Terminator, jmp, jmp_if, return_values, empty_block, set_terminator, get_block,
  put_block, update_block, next_block_id, add_block, terminate_block_with_jmp,
}
use mavros.Passes.DeduplicatePhis.{
  Group, ids_eq, push_entry, collect_one, collect, redirect, unify, unify_all, deduplicate_function,
}
use mavros.Passes.DeduplicatePhis.Forward.{
  forwarder, Leaves, through, Keeps, UniqueKeys, BlocksBelow, AllJump, AllGroups, AllJump-++,
  ids_eq_sound, Reached, Keeps-kept, Reached-start, with_forwarder, Reached-with_forwarder,
}

length-push_entry :
    (target : ℕ) (args : List ℕ) (b : ℕ) (groups : List Group)
    → length (push_entry target args b groups) ≤ suc (length groups)
unfolding push_entry
length-push_entry target args b [] = omega arith
length-push_entry target args b (g ∷ groups) =
    elim (Bool-cases (target == g.0.0 && ids_eq args (g.0.1))) [
      | inl c ↦ rw c (omega arith)
      | inr c ↦ rw c (omega (arith, length-push_entry target args b groups))
    ]

module _ {Op Ty : Type 0} where
  terminate_lem :
      (b n : ℕ) (args : List ℕ) (g : Function Op Ty) (block : Block Op Ty)
      → get_block b g ≡ some block
      → terminate_block_with_jmp b n args g
        ≡ some (put_block b (set_terminator (jmp n args) block) g)
  unfolding terminate_block_with_jmp update_block
  terminate_lem b n args g block e = rw (e, update_block) refl

  Reached-redirected :
      (f g : Function Op Ty) (target : ℕ) (args : List ℕ) (n b : ℕ) (old new : Block Op Ty)
      → BlocksBelow f
      → Reached f g
      → f.next_block ≤ n
      → get_block n g ≡ some (forwarder target args)
      → get_block b f ≡ some old
      → old.terminator ≡ some (jmp target args)
      → get_block b g ≡ some new
      → Keeps (f.next_block) g old new
      → Reached f (put_block b (set_terminator (jmp n []) new) g)
  Reached-redirected f g target args n b old new low r up there e t k p = record {
    kept = λ x other q. elim (Bool-cases (x == b)) [
      | inl s ↦ (
        set_terminator (jmp n []) new,
        ap (λ y. get_block y after) (==_eq x b s)
            ∙ get-insert_self b (set_terminator (jmp n []) new) (g.blocks),
        subst (λ o. Keeps (f.next_block) after o (set_terminator (jmp n []) new))
            (some-injective old other (sym e ∙ ap (λ y. get_block y f) (sym (==_eq x b s)) ∙ q))
            moved,
      )
      | inr s ↦
          let (same, j, l) = r.kept x other q in
          (same, other_blocks x s ∙ j, Keeps-kept (f.next_block) g after other same stays l)
    ];
    below = λ x block q. elim (Bool-cases (x == b)) [
      | inl s ↦ omega (arith, ==_eq x b s, r.below b new k)
      | inr s ↦ r.below x block (sym (other_blocks x s) ∙ q)
    ];
    grown = r.grown;
    same_entry = r.same_entry;
  }
    where
      after : Function Op Ty
      after = put_block b (set_terminator (jmp n []) new) g

      other_blocks : (x : ℕ) → (x == b) ≡ false → get_block x after ≡ get_block x g
      other_blocks x s =
          get-insert_ne x b (set_terminator (jmp n []) new) (g.blocks) (ground (arith, s))

      stays :
          (x : ℕ) (block : Block Op Ty)
          → f.next_block ≤ x
          → get_block x g ≡ some block
          → get_block x after ≡ some block
      stays x block u q = other_blocks x (ground (arith, u, low b old e)) ∙ q

      moved : Keeps (f.next_block) after old (set_terminator (jmp n []) new)
      moved = record {
        same_parameters = p.same_parameters;
        same_instructions = p.same_instructions;
        leaves =
            subst (λ o. Leaves (f.next_block) after o (some (jmp n []))) (sym t)
              (through target args n up (stays n (forwarder target args) up there));
      }

  redirect_lem :
      (f : Function Op Ty) (target : ℕ) (args : List ℕ) (n : ℕ) (bs : List ℕ) (g : Function Op Ty)
      → BlocksBelow f
      → Reached f g
      → f.next_block ≤ n
      → get_block n g ≡ some (forwarder target args)
      → AllJump f target args bs
      → (h : Function Op Ty) × (redirect bs n g ≡ some h)
        × Reached f h
        × (h.next_block ≡ g.next_block)
  unfolding redirect
  redirect_lem f target args n [] g low r up there jumps = (g, refl, r, refl)
  redirect_lem f target args n (b ∷ bs) g low r up there ((old, e, t), jumps) =
      let (new, k, p) = r.kept b old e in
      let next = put_block b (set_terminator (jmp n []) new) g in
      let (h, q, s, c) =
        redirect_lem f target args n bs next low
          (Reached-redirected f g target args n b old new low r up there e t k p) up
          (get-insert_ne n b (set_terminator (jmp n []) new) (g.blocks)
              (λ x. absurd (omega (arith, x, up, low b old e)))
            ∙ there)
          jumps in
      (h, rw (terminate_lem b n [] g new k) q, s, c)

  abbrev with_block : Function Op Ty → Function Op Ty
  with_block g = record g {
    blocks = insert (g.next_block) empty_block (g.blocks);
    next_block = suc (g.next_block);
  }

  unify_lem :
      (f : Function Op Ty) (group : Group) (g : Function Op Ty)
      → BlocksBelow f
      → Reached f g
      → suc (g.next_block) < 2 ^ 64
      → AllJump f (group.0.0) (group.0.1) (group.1)
      → (h : Function Op Ty) × (unify group g ≡ some h)
        × Reached f h
        × (h.next_block ≡ suc (g.next_block))
  unfolding unify add_block next_block_id
  unify_lem f group g low r room jumps =
      let grown = with_forwarder (group.0.0) (group.0.1) g in
      let (h, q, s, c) =
        redirect_lem f (group.0.0) (group.0.1) (g.next_block) (group.1) grown low
          (Reached-with_forwarder (group.0.0) (group.0.1) f g r) (r.grown)
          (get-insert_self (g.next_block) (forwarder (group.0.0) (group.0.1))
            (insert (g.next_block) empty_block (g.blocks)))
          jumps in
      let ready = with_block g in
      (
        h,
        rw
            (
              lt→ltb (suc (g.next_block)) (2 ^ 64) room,
              terminate_lem (g.next_block) (group.0.0) (group.0.1) ready empty_block
                  (get-insert_self (g.next_block) empty_block (g.blocks)),
            )
            q,
        s,
        c,
      )

  unify_all_lem :
      (f : Function Op Ty) (groups : List Group) (g : Function Op Ty)
      → BlocksBelow f
      → Reached f g
      → g.next_block + length groups < 2 ^ 64
      → AllGroups f groups
      → (h : Function Op Ty) × (unify_all groups g ≡ some h) × Reached f h
  unfolding unify_all
  unify_all_lem f [] g low r room jumps = (g, refl, r)
  unify_all_lem f (group ∷ groups) g low r room (j, jumps) =
      elim (Bool-cases (leb (length (group.1)) 1)) [
        | inl t ↦
            let (h, e, q) = unify_all_lem f groups g low r (omega (arith, room)) jumps in
            (h, rw t e, q)
        | inr t ↦
            let (next, k, s, c) = unify_lem f group g low r (omega (arith, room)) j in
            let (h, e, q) = unify_all_lem f groups next low s (omega (arith, room, c)) jumps in
            (h, rw (t, k) e, q)
      ]

  push_entry-AllGroups :
      (f : Function Op Ty) (target : ℕ) (args : List ℕ) (b : ℕ) (block : Block Op Ty)
      (groups : List Group)
      → get_block b f ≡ some block
      → block.terminator ≡ some (jmp target args)
      → AllGroups f groups
      → AllGroups f (push_entry target args b groups)
  unfolding push_entry
  push_entry-AllGroups f target args b block [] e t jumps = (((block, e, t), tt), tt)
  push_entry-AllGroups f target args b block (g ∷ groups) e t (j, jumps) =
      elim (Bool-cases (target == g.0.0 && ids_eq args (g.0.1))) [
        | inl c ↦
            let (x, y) = (and-eq-true_iff _ _).0 c in
            rw c (
              AllJump-++ f (g.0.0) (g.0.1) (g.1) b block e
                  (t
                    ∙ ap₂ (λ m vs. some (jmp m vs)) (==_eq target (g.0.0) x)
                        (ids_eq_sound args (g.0.1) y))
                  j,
              jumps,
            )
        | inr c ↦ rw c (j, push_entry-AllGroups f target args b block groups e t jumps)
      ]

  collect_one-AllGroups :
      (f : Function Op Ty) (b : ℕ) (block : Block Op Ty) (t : Option Terminator)
      (groups : List Group)
      → get_block b f ≡ some block
      → block.terminator ≡ t
      → AllGroups f groups
      → AllGroups f (collect_one b t groups)
        × (length (collect_one b t groups) ≤ suc (length groups))
  unfolding collect_one
  collect_one-AllGroups f b block none groups e t jumps = (jumps, omega arith)
  collect_one-AllGroups f b block (some (jmp target [])) groups e t jumps = (jumps, omega arith)
  collect_one-AllGroups f b block (some (jmp target (v ∷ vs))) groups e t jumps = (
    push_entry-AllGroups f target (v ∷ vs) b block groups e t jumps,
    length-push_entry target (v ∷ vs) b groups,
  )
  collect_one-AllGroups f b block (some (jmp_if p x y)) groups e t jumps = (jumps, omega arith)
  collect_one-AllGroups f b block (some (return_values vs)) groups e t jumps = (jumps, omega arith)

  collect-AllGroups :
      (f : Function Op Ty) (bs : Dict (Block Op Ty)) (groups : List Group)
      → UniqueKeys bs
      → ((b : ℕ) (block : Block Op Ty) → get b bs ≡ some block → get_block b f ≡ some block)
      → AllGroups f groups
      → AllGroups f (collect bs groups) × (length (collect bs groups) ≤ length bs + length groups)
  unfolding collect
  collect-AllGroups f [] groups keys part jumps = (jumps, omega arith)
  collect-AllGroups f ((b, block) ∷ bs) groups (new, keys) part jumps =
      let (more, n) =
        collect_one-AllGroups f b block (block.terminator) groups
          (part b block (rw (==_self b) refl)) refl jumps in
      let (all, m) =
        collect-AllGroups f bs (collect_one b (block.terminator) groups) keys
          (λ x other e. part x other (rw (apart x other e) e)) more in
      (all, omega (arith, n, m))
    where
      apart : (x : ℕ) (other : Block Op Ty) → get x bs ≡ some other → (x == b) ≡ false
      apart x other e = elim (Bool-cases (x == b)) [
        | inl t ↦ absurd (
            none-some
              (sym (contains_key-get b bs new) ∙ ap (λ y. get y bs) (sym (==_eq x b t)) ∙ e))
        | inr t ↦ t
      ]

  deduplicated :
      (f : Function Op Ty)
      → UniqueKeys (f.blocks)
      → BlocksBelow f
      → f.next_block + length (f.blocks) < 2 ^ 64
      → (g : Function Op Ty) × (deduplicate_function f ≡ some g) × Reached f g
  unfolding deduplicate_function
  deduplicated f keys low room =
      let (jumps, n) = collect-AllGroups f (f.blocks) [] keys (λ b block e. e) tt in
      unify_all_lem f (collect (f.blocks) []) f low (Reached-start f low) (omega (arith, n, room))
        jumps

  -- On a function whose blocks have different identifiers below the counter, with identifiers left for
  -- one more block per block, the pass returns, and the entry block stays what it was.
  pub deduplicate_function_total :
      (f : Function Op Ty)
      → UniqueKeys (f.blocks)
      → BlocksBelow f
      → f.next_block + length (f.blocks) < 2 ^ 64
      → (g : Function Op Ty) × (deduplicate_function f ≡ some g) × (g.entry_block ≡ f.entry_block)
  deduplicate_function_total f keys low room =
      let (g, e, r) = deduplicated f keys low room in (g, e, r.same_entry)

  -- On a function whose blocks have different identifiers below the counter, with identifiers left for
  -- one more block per block: every block of the function is still there with its parameters and instructions, and it leaves as it
  -- did, or through a new block that does nothing but jump where it did, with the same arguments.
  pub deduplicate_function-Keeps :
      (f g : Function Op Ty)
      → UniqueKeys (f.blocks)
      → BlocksBelow f
      → f.next_block + length (f.blocks) < 2 ^ 64
      → deduplicate_function f ≡ some g
      → (b : ℕ) (old : Block Op Ty) → get_block b f ≡ some old
      → (new : Block Op Ty) × (get_block b g ≡ some new) × Keeps (f.next_block) g old new
  deduplicate_function-Keeps f g keys low room h b old e =
      let (same, k, r) = deduplicated f keys low room in
      (subst (Reached f) (some-injective same g (sym k ∙ h)) r).kept b old e
