-- ===== src/Codegen/Frame/Contiguous.antt =====
-- Where the values of a frame stand (compiler/src/compiler/codegen/bytecode/layout.rs).
use mathlib.Core.Option.{some-injective}
use mavros.Prelude.{
  ℕ, ◌+◌, ◌≡◌, refl, sym, ap, ◌∙◌, false, Option, some, List, [], ◌∷◌, ◌++◌, arith,
}
use mavros.Types.{TypeExpr, bind_some, ◌>>=◌}
use mavros.Ssa.Dict.{contains_key, get-insert_self, get-insert_ne}
use mavros.Codegen.Frame.{
  FrameLayouter, type_size, alloc_named, alloc_value, alloc_all, alloc_many_contiguous, get_value,
}

-- The words of a list of values.
unfoldable pub total_words : List (ℕ × TypeExpr) → Option ℕ
total_words [] = some 0
total_words ((_, t) ∷ vs) = do size ← type_size t; rest ← total_words vs; some (size + rest)

alloc_value_inv :
    (v : ℕ) (t : TypeExpr) (l : FrameLayouter) (r : ℕ × FrameLayouter)
    → alloc_value v t l ≡ some r
    → (size : ℕ) × (type_size t ≡ some size) × (alloc_named v size l ≡ r)
unfolding alloc_value
alloc_value_inv v t l r h =
    let (size, e, q) = bind_some (type_size t) _ r h in
    (size, e, some-injective (alloc_named v size l) r q)

alloc_all_inv :
    (v : ℕ) (t : TypeExpr) (vs : List (ℕ × TypeExpr)) (l after : FrameLayouter)
    → alloc_all ((v, t) ∷ vs) l ≡ some after
    → (size : ℕ) × (type_size t ≡ some size)
      × (alloc_all vs ((alloc_named v size l).1) ≡ some after)
unfolding alloc_all
alloc_all_inv v t vs l after h =
    let ((p, next), e, q) = bind_some (alloc_value v t l) _ after h in
    let (size, k, a) = alloc_value_inv v t l (p, next) e in
    (size, k, ap (λ x. alloc_all vs (x.1)) a ∙ q)

-- A value that is not in the list keeps its position.
alloc_all_other :
    (x : ℕ) (vs : List (ℕ × TypeExpr)) (l after : FrameLayouter)
    → contains_key x vs ≡ false
    → alloc_all vs l ≡ some after
    → get_value x after ≡ get_value x l
unfolding alloc_all
alloc_all_other x [] l after c h = ap (get_value x) (sym (some-injective l after h))
alloc_all_other x ((v, t) ∷ vs) l after c h =
    let (size, e, q) = alloc_all_inv v t vs l after h in
    alloc_all_other x vs ((alloc_named v size l).1) after (ground (arith, c)) q
    ∙ get-insert_ne x v (l.next_free) (l.variables) (ground (arith, c))

alloc_all_end :
    (vs : List (ℕ × TypeExpr)) (l after : FrameLayouter)
    → alloc_all vs l ≡ some after
    → (n : ℕ) × (total_words vs ≡ some n) × (after.next_free ≡ l.next_free + n)
unfolding alloc_all total_words
alloc_all_end [] l after h = let e = some-injective l after h in (0, refl, rw (sym e) (omega arith))
alloc_all_end ((v, t) ∷ vs) l after h =
    let (size, e, q) = alloc_all_inv v t vs l after h in
    let (n, k, a) = alloc_all_end vs ((alloc_named v size l).1) after q in
    (size + n, rw (e, k) refl, omega (arith, a))

alloc_all_position :
    (before : List (ℕ × TypeExpr)) (v : ℕ) (t : TypeExpr) (rest : List (ℕ × TypeExpr))
    (l after : FrameLayouter)
    → contains_key v rest ≡ false
    → alloc_all (before ++ (v, t) ∷ rest) l ≡ some after
    → (n : ℕ) × (total_words before ≡ some n) × (get_value v after ≡ some (l.next_free + n))
unfolding total_words
alloc_all_position [] v t rest l after c h =
    let (size, e, q) = alloc_all_inv v t rest l after h in
    (
      0,
      refl,
      alloc_all_other v rest ((alloc_named v size l).1) after c q
          ∙ get-insert_self v (l.next_free) (l.variables)
          ∙ ap some (omega arith),
    )
alloc_all_position ((x, s) ∷ before) v t rest l after c h =
    let (size, e, q) = alloc_all_inv x s (before ++ (v, t) ∷ rest) l after h in
    let (n, k, a) = alloc_all_position before v t rest ((alloc_named x size l).1) after c q in
    (size + n, rw (e, k) refl, a ∙ ap some (omega arith))

-- `alloc_many_contiguous` puts each value after the words of those before it, from the position it gives
-- on, and leaves the frame free right after the last; a value that comes again has the last position.
pub alloc_many_contiguous_lem :
    (before : List (ℕ × TypeExpr)) (v : ℕ) (t : TypeExpr) (rest : List (ℕ × TypeExpr))
    (l : FrameLayouter) (r : ℕ) (after : FrameLayouter)
    → contains_key v rest ≡ false
    → alloc_many_contiguous (before ++ (v, t) ∷ rest) l ≡ some (r, after)
    → (n : ℕ) × (m : ℕ) × (total_words before ≡ some n)
      × (get_value v after ≡ some (r + n))
      × (total_words (before ++ (v, t) ∷ rest) ≡ some m)
      × (after.next_free ≡ r + m)
unfolding alloc_many_contiguous
alloc_many_contiguous_lem before v t rest l r after c h =
    let (last, e, q) = bind_some (alloc_all (before ++ (v, t) ∷ rest) l) _ (r, after) h in
    let same = some-injective (l.next_free, last) (r, after) q in
    let (n, a, b) = alloc_all_position before v t rest l last c e in
    let (m, d, f) = alloc_all_end (before ++ (v, t) ∷ rest) l last e in
    (
      n,
      m,
      a,
      sym (ap (λ p. get_value v (p.1)) same) ∙ b ∙ ap (λ p. some (p.0 + n)) same,
      d,
      sym (ap (λ p. p.1.next_free) same) ∙ f ∙ ap (λ p. p.0 + m) same,
    )
