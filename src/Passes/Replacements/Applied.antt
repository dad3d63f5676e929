-- ===== src/Passes/Replacements/Applied.antt =====
-- `ValueReplacements::apply_to_function` (compiler/src/compiler/passes/fix_double_jumps.rs): no value
-- that another stands for is left.
use mathlib.Core.Option.{some-injective}
use mathlib.Core.Path.{subst}
use mavros.Prelude.{ℕ, ◌≡◌, refl, sym, ap, ◌∙◌, some, List, [], ◌∷◌, ◌++◌, map, map-++}
use mavros.Types.{TypeExpr, bind_some}
use mavros.Ssa.Dict.{Dict}
use mavros.Ssa.Op.{OpCode}
use mavros.Ssa.Op.Inputs.{get_inputs}
use mavros.Ssa.Op.Results.{get_results}
use mavros.Ssa.Op.Mutate.{map_operands}
use mavros.Ssa.Op.Traverse.{op_code_instruction, get_inputs-map_operands, get_results-map_operands}
use mavros.Ssa.Function.{Block, Function, Terminator, jmp, jmp_if, return_values}
use mavros.Ssa.Program.Duplicate.{terminator_values, instruction_values}
use mavros.Passes.Replacements.{
  ValueReplacements, get_replacement, replace_all, replaced, replace_instruction,
  replace_terminator, operands, replace_in, apply_to_block, apply_to_blocks, apply_to_function,
}
use mavros.Passes.Replacements.Chain.{IsFinal, get_replacement-IsFinal}

abbrev pub AllFinal : ValueReplacements → List ℕ → Type 0
AllFinal r [] = Unit
AllFinal r (v ∷ vs) = IsFinal r v × AllFinal r vs

-- The values of the instructions and terminators.
unfoldable pub body_values : Dict (Block OpCode TypeExpr) → List ℕ
body_values [] = []
body_values ((_, b) ∷ bs) =
    instruction_values op_code_instruction (b.instructions)
    ++ (terminator_values (b.terminator) ++ body_values bs)

AllFinal-++ :
    (r : ValueReplacements) (vs ws : List ℕ) → AllFinal r vs → AllFinal r ws → AllFinal r (vs ++ ws)
AllFinal-++ r [] ws p q = q
AllFinal-++ r (v ∷ vs) ws (f, p) q = (f, AllFinal-++ r vs ws p q)

AllFinal-left : (r : ValueReplacements) (vs ws : List ℕ) → AllFinal r (vs ++ ws) → AllFinal r vs
AllFinal-left r [] ws p = tt
AllFinal-left r (v ∷ vs) ws (f, p) = (f, AllFinal-left r vs ws p)

AllFinal-right : (r : ValueReplacements) (vs ws : List ℕ) → AllFinal r (vs ++ ws) → AllFinal r ws
AllFinal-right r [] ws p = p
AllFinal-right r (v ∷ vs) ws (f, p) = AllFinal-right r vs ws p

replaced-some : (r : ValueReplacements) (v w : ℕ) → get_replacement r v ≡ some w → replaced r v ≡ w
unfolding replaced
replaced-some r v w e = rw (e, replaced) refl

replace_all_lem :
    (r : ValueReplacements) (vs ws : List ℕ)
    → replace_all r vs ≡ some ws
    → (map (replaced r) vs ≡ ws) × AllFinal r ws
unfolding replace_all
replace_all_lem r [] ws h = let e = some-injective [] ws h in (e, subst (AllFinal r) e tt)
replace_all_lem r (v ∷ vs) ws h =
    let (w, e, k) = bind_some (get_replacement r v) _ ws h in
    let (rest, a, b) = bind_some (replace_all r vs) _ ws k in
    let (p, q) = replace_all_lem r vs rest a in
    let same = some-injective (w ∷ rest) ws b in
    (
      rw (replaced-some r v w e, p) same,
      subst (AllFinal r) same ((get_replacement-IsFinal r v w e).0, q),
    )

map_final :
    (r : ValueReplacements) (vs ws : List ℕ)
    → replace_all r vs ≡ some ws
    → AllFinal r (map (replaced r) vs)
map_final r vs ws h = let (p, q) = replace_all_lem r vs ws h in subst (AllFinal r) (sym p) q

replace_instruction-AllFinal :
    (r : ValueReplacements) (op new : OpCode)
    → replace_instruction r op ≡ some new
    → AllFinal r (get_inputs new) × AllFinal r (get_results new)
unfolding replace_instruction
replace_instruction-AllFinal r op new h =
    let (ws, e, k) = bind_some (replace_all r (get_inputs op ++ get_results op)) _ new h in
    let same = some-injective (map_operands (replaced r) op) new k in
    let both =
      subst (AllFinal r) (map-++ (replaced r) (get_inputs op) (get_results op))
        (map_final r (get_inputs op ++ get_results op) ws e) in
    (
      subst (AllFinal r) (sym (get_inputs-map_operands (replaced r) op) ∙ ap get_inputs same) (
          AllFinal-left r (map (replaced r) (get_inputs op)) (map (replaced r) (get_results op))
            both),
      subst (AllFinal r) (sym (get_results-map_operands (replaced r) op) ∙ ap get_results same) (
          AllFinal-right r (map (replaced r) (get_inputs op)) (map (replaced r) (get_results op))
            both),
    )

replace_in-AllFinal :
    (r : ValueReplacements) (ops new : List OpCode)
    → replace_in operands r ops ≡ some new
    → AllFinal r (instruction_values op_code_instruction new)
unfolding replace_in instruction_values
replace_in-AllFinal r [] new h =
    subst (λ x. AllFinal r (instruction_values op_code_instruction x)) (some-injective [] new h) tt
replace_in-AllFinal r (op ∷ ops) new h =
    let (first, e, k) = bind_some (replace_instruction r op) _ new h in
    let (rest, a, b) = bind_some (replace_in operands r ops) _ new k in
    let (p, q) = replace_instruction-AllFinal r op first e in
    subst (λ x. AllFinal r (instruction_values op_code_instruction x))
      (some-injective (first ∷ rest) new b)
      (AllFinal-++ r (get_inputs first)
        (get_results first ++ instruction_values op_code_instruction rest) p
        (AllFinal-++ r (get_results first) (instruction_values op_code_instruction rest) q
          (replace_in-AllFinal r ops rest a)))

replace_terminator-AllFinal :
    (r : ValueReplacements) (t new : Terminator)
    → replace_terminator r t ≡ some new
    → AllFinal r (terminator_values (some new))
unfolding replace_terminator terminator_values
replace_terminator-AllFinal r (jmp b params) new h =
    let (ws, e, k) = bind_some (replace_all r params) _ new h in
    subst (λ x. AllFinal r (terminator_values (some x))) (some-injective (jmp b ws) new k)
      ((replace_all_lem r params ws e).1)
replace_terminator-AllFinal r (jmp_if cond x y) new h =
    let (w, e, k) = bind_some (get_replacement r cond) _ new h in
    subst (λ x. AllFinal r (terminator_values (some x))) (some-injective (jmp_if w x y) new k)
      ((get_replacement-IsFinal r cond w e).0, tt)
replace_terminator-AllFinal r (return_values vals) new h =
    let (ws, e, k) = bind_some (replace_all r vals) _ new h in
    subst (λ x. AllFinal r (terminator_values (some x))) (some-injective (return_values ws) new k)
      ((replace_all_lem r vals ws e).1)

apply_to_block-AllFinal :
    (r : ValueReplacements) (b new : Block OpCode TypeExpr)
    → apply_to_block operands r b ≡ some new
    → AllFinal r (instruction_values op_code_instruction (new.instructions))
      × AllFinal r (terminator_values (new.terminator))
unfolding apply_to_block
apply_to_block-AllFinal r b new h =
    let (ops, e, k) = bind_some (replace_in operands r (b.instructions)) _ new h in
    let (old, a, l) = bind_some (b.terminator) _ new k in
    let (t, c, m) = bind_some (replace_terminator r old) _ new l in
    let same = some-injective (record b { instructions = ops; terminator = some t }) new m in
    (
      subst (λ x. AllFinal r (instruction_values op_code_instruction (x.instructions))) same
          (replace_in-AllFinal r (b.instructions) ops e),
      subst (λ x. AllFinal r (terminator_values (x.terminator))) same
          (replace_terminator-AllFinal r old t c),
    )

apply_to_blocks-AllFinal :
    (r : ValueReplacements) (bs new : Dict (Block OpCode TypeExpr))
    → apply_to_blocks operands r bs ≡ some new
    → AllFinal r (body_values new)
unfolding apply_to_blocks body_values
apply_to_blocks-AllFinal r [] new h =
    subst (λ x. AllFinal r (body_values x)) (some-injective [] new h) tt
apply_to_blocks-AllFinal r ((n, b) ∷ bs) new h =
    let (first, e, k) = bind_some (apply_to_block operands r b) _ new h in
    let (rest, a, c) = bind_some (apply_to_blocks operands r bs) _ new k in
    let (p, q) = apply_to_block-AllFinal r b first e in
    subst (λ x. AllFinal r (body_values x)) (some-injective ((n, first) ∷ rest) new c)
      (AllFinal-++ r (instruction_values op_code_instruction (first.instructions))
        (terminator_values (first.terminator) ++ body_values rest) p
        (AllFinal-++ r (terminator_values (first.terminator)) (body_values rest) q
          (apply_to_blocks-AllFinal r bs rest a)))

-- After a sweep over all operands, no value that the replacements replace is read or defined by an
-- instruction, or read by a terminator, and the entry block and the return types are what they were.
pub apply_to_function-AllFinal :
    (r : ValueReplacements) (f g : Function OpCode TypeExpr)
    → apply_to_function operands r f ≡ some g
    → AllFinal r (body_values (g.blocks))
      × (g.entry_block ≡ f.entry_block)
      × (g.returns ≡ f.returns)
unfolding apply_to_function
apply_to_function-AllFinal r f g h =
    let (bs, e, k) = bind_some (apply_to_blocks operands r (f.blocks)) _ g h in
    let same = some-injective (record f { blocks = bs }) g k in
    (
      subst (λ x. AllFinal r (body_values (x.blocks))) same
          (apply_to_blocks-AllFinal r (f.blocks) bs e),
      ap (λ x. x.entry_block) (sym same),
      ap (λ x. x.returns) (sym same),
    )
