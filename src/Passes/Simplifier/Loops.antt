-- ===== src/Passes/Simplifier/Loops.antt =====
-- The loops over the instructions and the blocks in a round of the simplifier
-- (compiler/src/compiler/passes/simplifier.rs).
use mathlib.Core.Option.{some-injective}
use mathlib.Core.Path.{subst}
use mavros.Prelude.{
  ◌↔◌, ◌++◌, ℕ, suc, ◌+◌, ◌≤◌, ◌≡◌, refl, sym, ap, some, List, [], ◌∷◌, ◌∙◌, arith, length,
  length-append,
}
use mavros.Prelude.Field.{Field}
use mavros.Types.{TypeExpr, bind_some}
use mavros.Analysis.ValueDefinitions.{FunctionValueDefinitions}
use mavros.Ssa.Dict.{Dict}
use mavros.Ssa.Constant.{Constant}
use mavros.Ssa.Op.{OpCode}
use mavros.Ssa.BiMap.{BiMap}
use mavros.Ssa.Function.{Block}
use mavros.Ssa.Meaning.{Scalars, Assignment, AllHold}
use mavros.Ssa.Meaning.Lists.{AllDefine, BlocksDefine, AllDefine-++, BlocksHold, AllHold-++}
use mavros.Passes.Replacements.{
  ValueReplacements, replace_in, replace_inputs, replace_terminator, apply_to_block, inputs,
  apply_to_blocks,
}
use mavros.Passes.Simplifier.Rounds.{Round, run_instruction, run_instructions, run_blocks}
use mavros.Passes.Simplifier.Adds.{HasRoom}
use mavros.Passes.Simplifier.Steps.{Kept, Keeps, Given, Keeps-trans, run_instruction-Keeps}

-- The instructions of a table of blocks, counted.
unfoldable pub count_instructions : Dict (Block OpCode TypeExpr) → ℕ
count_instructions [] = 0
count_instructions ((_, b) ∷ bs) = length (b.instructions) + count_instructions bs

length-replace_in :
    (r : ValueReplacements) (ops new : List OpCode)
    → replace_in inputs r ops ≡ some new
    → length new ≡ length ops
unfolding replace_in
length-replace_in r [] new e = ap length (sym (some-injective _ _ e))
length-replace_in r (op ∷ ops) new e =
    let (first, e1, k) = bind_some (replace_inputs r op) _ _ e in
    let (rest, e2, j) = bind_some (replace_in inputs r ops) _ _ k in
    ap length (sym (some-injective _ _ j)) ∙ ap suc (length-replace_in r ops rest e2)

pub count-apply_to_blocks :
    (r : ValueReplacements) (bs new : Dict (Block OpCode TypeExpr))
    → apply_to_blocks inputs r bs ≡ some new
    → count_instructions new ≡ count_instructions bs
unfolding apply_to_blocks apply_to_block count_instructions
count-apply_to_blocks r [] new e = ap count_instructions (sym (some-injective _ _ e))
count-apply_to_blocks r ((n, b) ∷ bs) new e =
    let (first, e1, k) = bind_some (apply_to_block inputs r b) _ _ e in
    let (rest, e2, j) = bind_some (apply_to_blocks inputs r bs) _ _ k in
    let (ops, e3, k3) = bind_some (replace_in inputs r (b.instructions)) _ _ e1 in
    let (t, e4, k4) = bind_some (b.terminator) _ _ k3 in
    let (new_t, e5, k5) = bind_some (replace_terminator r t) _ _ k4 in
    let same : length ops ≡ length (first.instructions) =
      ap (λ (x : Block OpCode TypeExpr). length (x.instructions)) (some-injective _ _ k5) in
    ap count_instructions (sym (some-injective _ _ j))
    ∙ omega (
      arith,
      same,
      length-replace_in r (b.instructions) ops e3,
      count-apply_to_blocks r bs rest e2,
    )

module _ {F : Field} (S : Scalars F) (env : Assignment F) where
  -- As `Kept` for the instructions of a block, and of a table of blocks.
  abbrev KeptAll : List OpCode → List OpCode → Type 0
  KeptAll ops new = (AllHold S env new ↔ AllHold S env ops) × AllDefine S env new

  abbrev pub KeptBlocks : (bs new : Dict (Block OpCode TypeExpr)) → Type 0
  KeptBlocks bs new = (BlocksHold S env new ↔ BlocksHold S env bs) × BlocksDefine S env new

  join_instructions :
      (op : OpCode) (ops first rest : List OpCode)
      → Kept S env op first × KeptAll ops rest
      → KeptAll (op ∷ ops) (first ++ rest)
  unfolding AllHold
  join_instructions op ops first rest ((same, define), (others, define_rest)) =
      let (split, join) = AllHold-++ S env first rest in
      (
        (
          λ h. (same.0 ((split h).0), others.0 ((split h).1)),
          λ h. join (same.1 (h.0), others.1 (h.1)),
        ),
        AllDefine-++ S env first rest define define_rest,
      )

  join_blocks :
      (m : ℕ) (b : Block OpCode TypeExpr) (ops : List OpCode)
      (bs rest : Dict (Block OpCode TypeExpr))
      → KeptAll (b.instructions) ops × KeptBlocks bs rest
      → KeptBlocks ((m, b) ∷ bs) ((m, record b { instructions = ops }) ∷ rest)
  unfolding BlocksHold BlocksDefine
  join_blocks m b ops bs rest ((same, define), (others, define_rest)) = (
    (λ h. (same.0 (h.0), others.0 (h.1)), λ h. (same.1 (h.0), others.1 (h.1))),
    (define, define_rest),
  )

  module _ {bimap : BiMap (Constant F)} (defs : FunctionValueDefinitions)
      (types : Dict TypeExpr) where
    abbrev Goes : ℕ → Type 0 → Type 0 → Round bimap → Round bimap → Type 0
    Goes = Keeps S env (Given S env defs types)

    stays : {A B : Type 0} (r : Round bimap) (n : ℕ) → B → HasRoom (0 + n) (r.ssa) → Goes n A B r r
    stays r n b room =
        ((room.0, omega (arith, room.1)), (λ v c k. k, refl, refl), λ given consts a h. (b, a))

    run_instructions-Keeps :
        (ops : List OpCode) (n : ℕ) (r r1 : Round bimap) (new : List OpCode)
        → HasRoom (length ops + n) (r.ssa)
        → run_instructions defs types ops r ≡ some (new, r1)
        → Goes n (AllDefine S env ops) (KeptAll ops new) r r1 × (length new ≤ length ops)
    unfolding run_instructions AllDefine AllHold
    run_instructions-Keeps [] n r r1 new room e =
        subst
          (λ (x : List OpCode × Round bimap).
            Goes n (Unit {0}) (KeptAll [] (x.0)) r (x.1) × (length (x.0) ≤ 0))
          (some-injective _ _ e) (stays r n ((λ h. h, λ h. h), tt) room, omega arith)
    run_instructions-Keeps (op ∷ ops) n r r1 new room e =
        let (p, e1, k1) = bind_some (run_instruction defs types op r) _ _ e in
        let (q, e2, k2) = bind_some (run_instructions defs types ops (p.1)) _ _ k1 in
        let (first, small) =
          run_instruction-Keeps S env defs types op (length ops + n) r (p.1) (p.0)
            (room.0, omega (arith, room.1)) e1 in
        let (rest, short) = run_instructions-Keeps ops n (p.1) (q.1) (q.0) (first.0) e2 in
        subst
          (λ (x : List OpCode × Round bimap).
            Goes n (AllDefine S env (op ∷ ops)) (KeptAll (op ∷ ops) (x.0)) r (x.1)
            × (length (x.0) ≤ suc (length ops)))
          (some-injective _ _ k2)
          (
            Keeps-trans S env (length ops + n) n r (p.1) (q.1)
                (join_instructions op ops (p.0) (q.0)) first rest,
            omega (arith, small, short, length-append {0} (p.0) (q.0)),
          )

    pub run_blocks-Keeps :
        (bs : Dict (Block OpCode TypeExpr)) (n : ℕ) (r r1 : Round bimap)
        (new : Dict (Block OpCode TypeExpr))
        → HasRoom (count_instructions bs + n) (r.ssa)
        → run_blocks defs types bs r ≡ some (new, r1)
        → Goes n (BlocksDefine S env bs) (KeptBlocks bs new) r r1
          × (count_instructions new ≤ count_instructions bs)
    unfolding run_blocks BlocksHold BlocksDefine count_instructions
    run_blocks-Keeps [] n r r1 new room e =
        subst
          (λ (x : Dict (Block OpCode TypeExpr) × Round bimap).
            Goes n (Unit {0}) (KeptBlocks [] (x.0)) r (x.1) × (count_instructions (x.0) ≤ 0))
          (some-injective _ _ e) (stays r n ((λ h. h, λ h. h), tt) room, omega arith)
    run_blocks-Keeps ((m, b) ∷ bs) n r r1 new room e =
        let (p, e1, k1) = bind_some (run_instructions defs types (b.instructions) r) _ _ e in
        let (q, e2, k2) = bind_some (run_blocks defs types bs (p.1)) _ _ k1 in
        let (first, small) =
          run_instructions-Keeps (b.instructions) (count_instructions bs + n) r (p.1) (p.0)
            (room.0, omega (arith, room.1)) e1 in
        let (rest, short) = run_blocks-Keeps bs n (p.1) (q.1) (q.0) (first.0) e2 in
        subst
          (λ (x : Dict (Block OpCode TypeExpr) × Round bimap).
            Goes n (AllDefine S env (b.instructions) × BlocksDefine S env bs)
              (KeptBlocks ((m, b) ∷ bs) (x.0)) r (x.1)
            × (count_instructions (x.0) ≤ length (b.instructions) + count_instructions bs))
          (some-injective _ _ k2)
          (
            Keeps-trans S env (count_instructions bs + n) n r (p.1) (q.1)
                (join_blocks m b (p.0) bs (q.0)) first rest,
            omega (arith, small, short),
          )
