-- ===== src/Codegen/Globals/Packed.antt =====
-- The globals (compiler/src/compiler/codegen/bytecode/layout.rs) stand one after another.
use native.Mathlib.Decide.{dec_lt}
use mathlib.Core.Option.{some-injective}
use mavros.Prelude.{
  ℕ, zero, suc, ◌+◌, ◌≤◌, ◌<◌, ◌≡◌, sym, ap, ◌∙◌, some, List, [], ◌∷◌, get_elem?, none-some, arith,
  ◌⊎◌, inl, inr,
}
use mavros.Types.{TypeExpr, bind_some, ◌>>=◌}
use mavros.Codegen.Globals.{
  GlobalFrameLayouter, type_frame_size, layout_from, new_globals, get_offset, get_size,
}

abbrev extended : ℕ → ℕ → GlobalFrameLayouter → GlobalFrameLayouter
extended start size rest = record rest { offsets = start ∷ rest.offsets; sizes = size ∷ rest.sizes }

layout_from_inv :
    (start : ℕ) (t : TypeExpr) (ts : List TypeExpr) (g : GlobalFrameLayouter)
    → layout_from start (t ∷ ts) ≡ some g
    → (size : ℕ) × (rest : GlobalFrameLayouter) × (layout_from (start + size) ts ≡ some rest)
      × (type_frame_size t ≡ some size)
      × (g ≡ extended start size rest)
unfolding layout_from
layout_from_inv start t ts g h =
    let (size, e1, k) = bind_some (type_frame_size t) _ g h in
    let (rest, e, q) = bind_some (layout_from (start + size) ts) _ g k in
    (size, rest, e, e1, sym (some-injective (extended start size rest) g q))

layout_from_nil :
    (start : ℕ) (g : GlobalFrameLayouter)
    → layout_from start [] ≡ some g
    → g ≡ record { offsets = []; sizes = []; total_size = start }
unfolding layout_from
layout_from_nil start g h =
    sym (some-injective (record { offsets = []; sizes = []; total_size = start }) g h)

total_above :
    (start : ℕ) (ts : List TypeExpr) (g : GlobalFrameLayouter)
    → layout_from start ts ≡ some g
    → start ≤ g.total_size
total_above start [] g h = rw (layout_from_nil start g h) (omega arith)
total_above start (t ∷ ts) g h =
    let (size, rest, e, _, q) = layout_from_inv start t ts g h in
    rw q (omega (arith, total_above (start + size) ts rest e))

starts_above :
    (start : ℕ) (ts : List TypeExpr) (g : GlobalFrameLayouter) (n p : ℕ)
    → layout_from start ts ≡ some g
    → get_elem? (g.offsets) n ≡ some p
    → start ≤ p
starts_above start [] g n p h e =
    absurd (none-some (ap (λ x. get_elem? (x.offsets) n) (sym (layout_from_nil start g h)) ∙ e))
starts_above start (t ∷ ts) g zero p h e =
    let (sz, rest, l, _, q) = layout_from_inv start t ts g h in
    let a = some-injective start p (ap (λ x. get_elem? (x.offsets) 0) (sym q) ∙ e) in
    omega (arith, a)
starts_above start (t ∷ ts) g (suc n) p h e =
    let (sz, rest, l, _, q) = layout_from_inv start t ts g h in
    let a =
      starts_above (start + sz) ts rest n p l
        (ap (λ x. get_elem? (x.offsets) (suc n)) (sym q) ∙ e) in
    omega (arith, a)

-- Every global lies between the start and the end.
inside :
    (start : ℕ) (ts : List TypeExpr) (g : GlobalFrameLayouter) (n p size : ℕ)
    → layout_from start ts ≡ some g
    → get_elem? (g.offsets) n ≡ some p
    → get_elem? (g.sizes) n ≡ some size
    → (start ≤ p) × (p + size ≤ g.total_size)
inside start [] g n p size h e k =
    absurd (none-some (ap (λ x. get_elem? (x.offsets) n) (sym (layout_from_nil start g h)) ∙ e))
inside start (t ∷ ts) g zero p size h e k =
    let (sz, rest, l, _, q) = layout_from_inv start t ts g h in
    let a = some-injective start p (ap (λ x. get_elem? (x.offsets) 0) (sym q) ∙ e) in
    let b = some-injective sz size (ap (λ x. get_elem? (x.sizes) 0) (sym q) ∙ k) in
    let c = total_above (start + sz) ts rest l in (omega (arith, a), rw q (omega (arith, a, b, c)))
inside start (t ∷ ts) g (suc n) p size h e k =
    let (sz, rest, l, _, q) = layout_from_inv start t ts g h in
    let (a, b) =
      inside (start + sz) ts rest n p size l (ap (λ x. get_elem? (x.offsets) (suc n)) (sym q) ∙ e)
        (ap (λ x. get_elem? (x.sizes) (suc n)) (sym q) ∙ k) in
    (omega (arith, a), rw q b)

apart :
    (start : ℕ) (ts : List TypeExpr) (g : GlobalFrameLayouter) (n m p size r : ℕ)
    → layout_from start ts ≡ some g
    → n < m
    → get_elem? (g.offsets) n ≡ some p
    → get_elem? (g.sizes) n ≡ some size
    → get_elem? (g.offsets) m ≡ some r
    → p + size ≤ r
apart start [] g n m p size r h b e k j =
    absurd (none-some (ap (λ x. get_elem? (x.offsets) n) (sym (layout_from_nil start g h)) ∙ e))
apart start (t ∷ ts) g n zero p size r h b e k j = absurd (omega (arith, b))
apart start (t ∷ ts) g zero (suc m) p size r h b e k j =
    let (sz, rest, l, _, q) = layout_from_inv start t ts g h in
    let a = some-injective start p (ap (λ x. get_elem? (x.offsets) 0) (sym q) ∙ e) in
    let c = some-injective sz size (ap (λ x. get_elem? (x.sizes) 0) (sym q) ∙ k) in
    let d =
      starts_above (start + sz) ts rest m r l
        (ap (λ x. get_elem? (x.offsets) (suc m)) (sym q) ∙ j) in
    omega (arith, a, c, d)
apart start (t ∷ ts) g (suc n) (suc m) p size r h b e k j =
    let (sz, rest, l, _, q) = layout_from_inv start t ts g h in
    apart (start + sz) ts rest n m p size r l (omega (arith, b))
      (ap (λ x. get_elem? (x.offsets) (suc n)) (sym q) ∙ e)
      (ap (λ x. get_elem? (x.sizes) (suc n)) (sym q) ∙ k)
      (ap (λ x. get_elem? (x.offsets) (suc m)) (sym q) ∙ j)

sized :
    (start : ℕ) (ts : List TypeExpr) (g : GlobalFrameLayouter) (n size : ℕ)
    → layout_from start ts ≡ some g
    → get_elem? (g.sizes) n ≡ some size
    → (get_elem? ts n >>= type_frame_size) ≡ some size
sized start [] g n size h k =
    absurd (none-some (ap (λ x. get_elem? (x.sizes) n) (sym (layout_from_nil start g h)) ∙ k))
sized start (t ∷ ts) g zero size h k =
    let (sz, rest, l, e, q) = layout_from_inv start t ts g h in
    e ∙ ap (λ x. get_elem? (x.sizes) 0) (sym q) ∙ k
sized start (t ∷ ts) g (suc n) size h k =
    let (sz, rest, l, e, q) = layout_from_inv start t ts g h in
    sized (start + sz) ts rest n size l (ap (λ x. get_elem? (x.sizes) (suc n)) (sym q) ∙ k)

-- A global has as many words as its type takes, they lie below the total size, and for any global, the
-- same or another, they lie before its words unless it is the same or an earlier one.
pub new_globals-apart :
    (ts : List TypeExpr) (g : GlobalFrameLayouter)
    → new_globals ts ≡ some g
    → (n p size : ℕ) → get_offset g n ≡ some p
    → get_size g n ≡ some size
    → (m r : ℕ) → get_offset g m ≡ some r
    → ((get_elem? ts n >>= type_frame_size) ≡ some size)
      × (p + size ≤ g.total_size)
      × ((p + size ≤ r) ⊎ (m ≤ n))
unfolding new_globals get_offset get_size
new_globals-apart ts g h n p size e k m r j = (
  sized 0 ts g n size h k,
  (inside 0 ts g n p size h e k).1,
  elim (dec_lt n m) [
    | yes b ↦ inl (apart 0 ts g n m p size r h b e k j)
    | no b ↦ inr (omega (arith, b))
  ],
)
