-- ===== src/Passes/Simplifier/Steps.antt =====
-- What one instruction in a round of the simplifier (compiler/src/compiler/passes/simplifier.rs) does to
-- the constants, the aliases and the instructions.
use mathlib.Core.Option.{some-injective}
use mathlib.Core.Path.{subst}
use mavros.Prelude.{
  ◌↔◌, ℕ, suc, ◌≤◌, ◌≡◌, refl, sym, ap, ◌∙◌, inl, inr, Option, none, some, List, arith, length,
}
use mavros.Prelude.Field.{Field}
use mavros.Types.{TypeExpr, bind_some}
use mavros.Analysis.ValueDefinitions.{FunctionValueDefinitions}
use mavros.Ssa.Dict.{Dict, get-insert_cases}
use mavros.Ssa.Constant.{Constant}
use mavros.Ssa.Op.{OpCode}
use mavros.Ssa.BiMap.{BiMap}
use mavros.Ssa.Meaning.{Scalars, Assignment, Holds, AllHold, IsTyped}
use mavros.Ssa.Meaning.Lists.{Defines, AllDefine, AllHold-AllDefine}
use mavros.Passes.Replacements.{ValueReplacements, insert_replacement, replace_inputs}
use mavros.Passes.Simplifier.{Rewrite, alias, replace}
use mavros.Passes.Simplifier.Algebraic.{try_algebraic}
use mavros.Passes.Simplifier.Rounds.{Round, apply_rewrite, run_instruction}
use mavros.Passes.Simplifier.Rules.{ConstsHold, RewriteHolds}
use mavros.Passes.Simplifier.Sound.{
  DefinitionsHold, first_result, try_algebraic-defines, try_algebraic-Holds,
}
use mavros.Passes.Simplifier.Adds.{Extends, Extends-trans, HasRoom, IsSmall, try_algebraic-HasRoom}
use mavros.Passes.Simplifier.Keeps.{AliasesHold, replace_inputs-Holds, Defines-transfer}

module _ {F : Field} (S : Scalars F) (env : Assignment F) where
  insert_replacement-AliasesHold :
      (result target : ℕ) (r : ValueReplacements)
      → env result ≡ env target
      → AliasesHold env r
      → AliasesHold env (insert_replacement result target r)
  insert_replacement-AliasesHold result target r e a v w h =
      elim (get-insert_cases v result target w r h) [
        | inl (p, q) ↦ ap env p ∙ e ∙ ap env q
        | inr k ↦ a v w k
      ]

  -- What the attempts rely on.
  abbrev pub Given : FunctionValueDefinitions → Dict TypeExpr → Type 0
  Given defs types = DefinitionsHold S env defs × IsTyped types env

  -- The new instructions hold exactly where the old one does, and those of them that define a value
  -- hold.
  abbrev pub Kept : OpCode → List OpCode → Type 0
  Kept op new = (AllHold S env new ↔ Holds S env op) × AllDefine S env new

  module _ {bimap : BiMap (Constant F)} where
    -- From one state of a round to a later one: there is room for `n` more constants, no constant
    -- went, and under what is given, the later constants and the earlier aliases, what held before
    -- gives what holds after, and the later aliases.
    abbrev pub Keeps : Type 0 → ℕ → Type 0 → Type 0 → Round bimap → Round bimap → Type 0
    Keeps Given n Before After r r1 =
        HasRoom n (r1.ssa)
        × Extends (r.ssa) (r1.ssa)
        × (Given
            → ConstsHold env (r1.ssa)
            → AliasesHold env (r.aliases)
            → Before
            → After × AliasesHold env (r1.aliases))

    pub Keeps-trans :
        {G A B C D E : Type 0} (n m : ℕ) (r r1 r2 : Round bimap)
        → (B × D → E)
        → Keeps G n A B r r1
        → Keeps G m C D r1 r2
        → Keeps G m (A × C) E r r2
    Keeps-trans n m r r1 r2 join (room, extends, keep) (room1, extends1, keep1) = (
      room1,
      Extends-trans (r.ssa) (r1.ssa) (r2.ssa) extends extends1,
      λ given consts aliases before.
          let (b, aliases1) =
            keep given (λ v c k. consts v c (extends1.0 v c k)) aliases (before.0) in
          let (d, aliases2) = keep1 given consts aliases1 (before.1) in (join (b, d), aliases2),
    )

    apply_rewrite-Kept :
        (op : OpCode) (rewrite : Option Rewrite) (r : Round bimap)
        → AliasesHold env (r.aliases)
        → Defines S env op
        → ((w : Rewrite) → rewrite ≡ some w → Holds S env op)
        → (Holds S env op → RewriteHolds S env (first_result op) rewrite)
        → Kept op ((apply_rewrite op rewrite r).0)
          × AliasesHold env ((apply_rewrite op rewrite r).1.aliases)
    unfolding apply_rewrite RewriteHolds AllHold AllDefine
    apply_rewrite-Kept op none r a d hold k = (((λ h. h.0, λ h. (h, tt)), (d, tt)), a)
    apply_rewrite-Kept op (some (replace ops)) r a d hold k =
        let h = hold (replace ops) refl in
        (((λ x. h, λ x. k h), AllHold-AllDefine S env ops (k h)), a)
    apply_rewrite-Kept op (some (alias result target)) r a d hold k =
        let h = hold (alias result target) refl in
        (
          ((λ x. h, λ x. tt), tt),
          insert_replacement-AliasesHold result target (r.aliases) (ap env ((k h).0) ∙ (k h).1) a,
        )

    ssa-apply_rewrite :
        (op : OpCode) (rewrite : Option Rewrite) (r : Round bimap)
        → (apply_rewrite op rewrite r).1.ssa ≡ r.ssa
    unfolding apply_rewrite
    ssa-apply_rewrite op none r = refl
    ssa-apply_rewrite op (some (replace ops)) r = refl
    ssa-apply_rewrite op (some (alias result target)) r = refl

    length-apply_rewrite :
        (op : OpCode) (rewrite : Option Rewrite) (r : Round bimap)
        → IsSmall rewrite
        → length ((apply_rewrite op rewrite r).0) ≤ 1
    unfolding apply_rewrite
    length-apply_rewrite op none r h = omega arith
    length-apply_rewrite op (some (replace ops)) r h = h
    length-apply_rewrite op (some (alias result target)) r h = omega arith

    module _ (defs : FunctionValueDefinitions) (types : Dict TypeExpr) where
      pub run_instruction-Keeps :
          (op : OpCode) (n : ℕ) (r r1 : Round bimap) (new : List OpCode)
          → HasRoom (suc n) (r.ssa)
          → run_instruction defs types op r ≡ some (new, r1)
          → Keeps (Given defs types) n (Defines S env op) (Kept op new) r r1 × (length new ≤ 1)
      unfolding run_instruction
      run_instruction-Keeps op n r r1 new room e =
          let (op1, e1, k1) = bind_some (replace_inputs (r.aliases) op) _ _ e in
          let (p, e2, k2) = bind_some (try_algebraic defs types op1 (r.ssa)) _ _ k1 in
          let middle = record r { ssa = p.1 } in
          let (room1, extends, small) =
            try_algebraic-HasRoom defs types op1 n (r.ssa) (p.0) (p.1) room e2 in
          let out = apply_rewrite op1 (p.0) middle in
          let same : out ≡ (new, r1) = some-injective _ _ k2 in
          let stays = ssa-apply_rewrite op1 (p.0) middle in
          subst
            (λ (x : List OpCode × Round bimap).
              Keeps (Given defs types) n (Defines S env op) (Kept op (x.0)) r (x.1)
              × (length (x.0) ≤ 1))
            same
            (
              (
                subst (HasRoom n) (sym stays) room1,
                subst (Extends (r.ssa)) (sym stays) extends,
                λ given consts aliases d.
                    let now = subst (ConstsHold env) stays consts in
                    let before : ConstsHold env (r.ssa) = λ v c k. now v c (extends.0 v c k) in
                    let (both, results) =
                      replace_inputs-Holds S env (r.aliases) op op1 aliases e1 in
                    let d1 = Defines-transfer S env op op1 both results d in
                    let ((iff, define), later) =
                      apply_rewrite-Kept op1 (p.0) middle aliases d1
                        (λ w q. d1 (first_result op1) (
                          try_algebraic-defines defs types op1 (r.ssa) (p.1) w
                            (e2 ∙ ap (λ x. some (x, p.1)) q)))
                        (λ h1.
                          try_algebraic-Holds S env (r.ssa) before types (given.1) defs op1
                            (given.0) h1 (p.0) (p.1) e2 now) in
                    (((λ h. both.0 (iff.0 h), λ h. iff.1 (both.1 h)), define), later),
              ),
              length-apply_rewrite op1 (p.0) middle small,
            )
