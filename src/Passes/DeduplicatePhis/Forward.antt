-- ===== src/Passes/DeduplicatePhis/Forward.antt =====
-- What `deduplicate_phis` (compiler/src/compiler/passes/deduplicate_phis.rs) keeps of a function.
use mathlib.Core.Bool.{and-eq-true_iff}
use mavros.Prelude.{
  ℕ, suc, ◌≤◌, ◌<◌, ◌≡◌, ◌≢◌, refl, sym, ◌∙◌, true, false, Option, some, List, [], ◌∷◌, ◌++◌, ◌==◌,
  inl, inr, Bool-cases, ==_eq, arith,
}
use mavros.Ssa.Dict.{Dict, insert, contains_key, get-insert_ne}
use mavros.Ssa.Function.{Block, Function, Terminator, jmp, empty_block, set_terminator, get_block}
use mavros.Passes.DeduplicatePhis.{Group, ids_eq}

pub ids_eq_sound : (vs ws : List ℕ) → ids_eq vs ws ≡ true → vs ≡ ws
unfolding ids_eq
ids_eq_sound [] [] h = refl
ids_eq_sound [] (w ∷ ws) h = cc
ids_eq_sound (v ∷ vs) [] h = cc
ids_eq_sound (v ∷ vs) (w ∷ ws) h =
    let (a, b) = (and-eq-true_iff _ _).0 h in rw (==_eq v w a, ids_eq_sound vs ws b) refl

module _ {Op Ty : Type 0} where
  -- A block that only jumps.
  abbrev pub forwarder : ℕ → List ℕ → Block Op Ty
  forwarder target args = set_terminator (jmp target args) empty_block

  -- A block leaves as it did, or through a forwarder, from `start` on, to where it did.
  pub data Leaves (start : ℕ) (g : Function Op Ty) : (old new : Option Terminator) → Type 0 where
    directly : (t : Option Terminator) → Leaves start g t t
    through :
        (target : ℕ) (args : List ℕ) (n : ℕ)
        → start ≤ n
        → get_block n g ≡ some (forwarder target args)
        → Leaves start g (some (jmp target args)) (some (jmp n []))

  -- What the pass keeps of a block.
  pub record Keeps (start : ℕ) (g : Function Op Ty) (old new : Block Op Ty) : Type 0 where
    pub same_parameters : new.parameters ≡ old.parameters
    pub same_instructions : new.instructions ≡ old.instructions
    pub leaves : Leaves start g (old.terminator) (new.terminator)

  -- Every block has its own identifier, below the counter.
  abbrev pub UniqueKeys : Dict (Block Op Ty) → Type 0
  UniqueKeys [] = Unit
  UniqueKeys ((b, _) ∷ bs) = (contains_key b bs ≡ false) × UniqueKeys bs

  abbrev pub BlocksBelow : Function Op Ty → Type 0
  BlocksBelow f = (b : ℕ) (block : Block Op Ty) → get_block b f ≡ some block → b < f.next_block

  -- The blocks of a group jump to its target with its arguments.
  abbrev pub AllJump : Function Op Ty → ℕ → List ℕ → List ℕ → Type 0
  AllJump f target args [] = Unit
  AllJump f target args (b ∷ bs) =
      ((block : Block Op Ty) × (get_block b f ≡ some block)
        × (block.terminator ≡ some (jmp target args)))
      × AllJump f target args bs

  abbrev pub AllGroups : Function Op Ty → List Group → Type 0
  AllGroups f [] = Unit
  AllGroups f (g ∷ gs) = AllJump f (g.0.0) (g.0.1) (g.1) × AllGroups f gs

  pub AllJump-++ :
      (f : Function Op Ty) (target : ℕ) (args bs : List ℕ) (b : ℕ) (block : Block Op Ty)
      → get_block b f ≡ some block
      → block.terminator ≡ some (jmp target args)
      → AllJump f target args bs
      → AllJump f target args (bs ++ b ∷ [])
  AllJump-++ f target args [] b block e t p = ((block, e, t), tt)
  AllJump-++ f target args (x ∷ bs) b block e t (q, p) =
      (q, AllJump-++ f target args bs b block e t p)

  -- Where the pass stands: what it keeps of `f` in `g`.
  pub record Reached (f g : Function Op Ty) : Type 0 where
    pub kept :
        (b : ℕ) (old : Block Op Ty)
        → get_block b f ≡ some old
        → (new : Block Op Ty) × (get_block b g ≡ some new) × Keeps (f.next_block) g old new
    pub below : BlocksBelow g
    pub grown : f.next_block ≤ g.next_block
    pub same_entry : g.entry_block ≡ f.entry_block

  Leaves-kept :
      (start : ℕ) (g h : Function Op Ty) (old new : Option Terminator)
      → ((n : ℕ) (block : Block Op Ty)
          → start ≤ n
          → get_block n g ≡ some block
          → get_block n h ≡ some block)
      → Leaves start g old new
      → Leaves start h old new
  Leaves-kept start g h old new k (directly t) = directly t
  Leaves-kept start g h old new k (through target args n b e) =
      through target args n b (k n (forwarder target args) b e)

  pub Keeps-kept :
      (start : ℕ) (g h : Function Op Ty) (old new : Block Op Ty)
      → ((n : ℕ) (block : Block Op Ty)
          → start ≤ n
          → get_block n g ≡ some block
          → get_block n h ≡ some block)
      → Keeps start g old new
      → Keeps start h old new
  Keeps-kept start g h old new k p = record {
    same_parameters = p.same_parameters;
    same_instructions = p.same_instructions;
    leaves = Leaves-kept start g h (old.terminator) (new.terminator) k (p.leaves);
  }

  pub Reached-start : (f : Function Op Ty) → BlocksBelow f → Reached f f
  Reached-start f b = record {
    kept = λ n old e. (
      old,
      e,
      record {
        same_parameters = refl;
        same_instructions = refl;
        leaves = directly (old.terminator);
      },
    );
    below = b;
    grown = omega arith;
    same_entry = refl;
  }

  abbrev pub with_forwarder : ℕ → List ℕ → Function Op Ty → Function Op Ty
  with_forwarder target args g = record g {
    blocks =
        insert (g.next_block) (forwarder target args)
          (insert (g.next_block) empty_block (g.blocks));
    next_block = suc (g.next_block);
  }

  get_block-with_forwarder :
      (target : ℕ) (args : List ℕ) (g : Function Op Ty) (n : ℕ)
      → n ≢ g.next_block
      → get_block n (with_forwarder target args g) ≡ get_block n g
  get_block-with_forwarder target args g n d =
      get-insert_ne n (g.next_block) (forwarder target args)
        (insert (g.next_block) empty_block (g.blocks)) d
      ∙ get-insert_ne n (g.next_block) empty_block (g.blocks) d

  pub Reached-with_forwarder :
      (target : ℕ) (args : List ℕ) (f g : Function Op Ty)
      → Reached f g
      → Reached f (with_forwarder target args g)
  Reached-with_forwarder target args f g r = record {
    kept = λ b old e.
        let (new, k, p) = r.kept b old e in
        (
          new,
          stays b new k,
          Keeps-kept (f.next_block) g (with_forwarder target args g) old new
              (λ n block s q. stays n block q) p,
        );
    below = λ b block e. elim (Bool-cases (b == g.next_block)) [
      | inl t ↦ omega (arith, ==_eq b (g.next_block) t)
      | inr t ↦ omega (
        arith,
        r.below b block (sym (get_block-with_forwarder target args g b (ground (arith, t))) ∙ e),
      )
    ];
    grown = omega (arith, r.grown);
    same_entry = r.same_entry;
  }
    where
      stays :
          (n : ℕ) (block : Block Op Ty)
          → get_block n g ≡ some block
          → get_block n (with_forwarder target args g) ≡ some block
      stays n block e =
          get_block-with_forwarder target args g n
            (λ q. absurd (omega (arith, q, r.below n block e)))
          ∙ e
