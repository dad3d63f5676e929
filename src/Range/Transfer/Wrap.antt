-- ===== src/Range/Transfer/Wrap.antt =====
-- `overwrite` exactly, and the difference of two field elements in `transfer`
-- (value_range_analysis.rs), where the field's subtraction wraps around.
use mavros.Prelude.{
  ==_self, ℕ, suc, ◌+◌, ◌-◌, ◌<◌, ◌≡◌, refl, inl, inr, ap, true, Option, none, some, arith,
  Bool-cases,
}
use mathlib.Core.Path.{ap₂}
use mavros.Prelude.Int.{ℤ, pos, pos_part, neg_part, ◌-ℤ◌, eq_of_parts, int_laws}
use mavros.Types.{field, strip_witness}
use mavros.Range.Interval.{
  IntInterval, interval, is_empty, singleton, closed, intersect, field_top, for_type, sub,
}
use mavros.Range.Interval.Lattice.{Contains, Contains-closed}
use mavros.Range.Transfer.{
  sub_op, binary_arith_op, Env, State, eq_end, eq_bound, get, overwrite, binary_range, type_range,
  cap_to_type, transfer,
}
use mavros.Range.Transfer.Single.{and_split}

eq_end_eq : (a b : Option ℤ) → eq_end a b ≡ true → a ≡ b
eq_end_eq none none e = refl
eq_end_eq none (some b) e = ground arith
eq_end_eq (some a) none e = ground arith
eq_end_eq (some a) (some b) e = ap some (eq_of_parts a b (ground arith))

eq_bound_eq : (b : Option IntInterval) (r : IntInterval) → eq_bound b r ≡ true → b ≡ some r
eq_bound_eq none r e = ground arith
eq_bound_eq (some s) r e =
    let (p, q) = and_split _ _ e in
    ap₂ (λ l h. some (interval l h)) (eq_end_eq s.lo r.lo p) (eq_end_eq s.hi r.hi q)

-- After `overwrite` the value has the new bound.
pub get-overwrite : (s : State) (v : ℕ) (r : IntInterval) → get (overwrite s v r) v ≡ r
unfolding get overwrite
get-overwrite s v r = elim (Bool-cases (eq_bound (s.bounds v) r)) [
  | inl e ↦ rw (e, eq_bound_eq (s.bounds v) r e) refl
  | inr e ↦ rw (e, ==_self v) refl
]

negative_capped :
    (v w : ℤ)
    → suc (pos_part v) < suc (neg_part v)
    → is_empty (intersect (interval (some v) (some v)) (closed (pos 0) w)) ≡ true
unfolding is_empty intersect closed
negative_capped v w h = ground arith

type_range-field :
    (env : Env) (r : ℕ) → env.value_type r ≡ field → type_range env r ≡ field_top env.modulus
unfolding type_range for_type strip_witness
type_range-field env r t = rw t refl

get_known : (s : State) (v : ℕ) (r : IntInterval) → s.bounds v ≡ some r → get s v ≡ r
unfolding get
get_known s v r e = rw e refl

sub-singleton :
    (a b : ℕ)
    → sub (singleton (pos a)) (singleton (pos b))
      ≡ interval (some (pos a -ℤ pos b)) (some (pos a -ℤ pos b))
unfolding sub is_empty singleton
sub-singleton a b = ground arith

capped_empty :
    (env : Env) (s : State) (r x y a b : ℕ)
    → env.value_type r ≡ field
    → s.bounds x ≡ some (singleton (pos a))
    → s.bounds y ≡ some (singleton (pos b))
    → a < b
    → is_empty (cap_to_type env r (binary_range env sub_op (type_range env r) (get s x) (get s y)))
      ≡ true
unfolding cap_to_type binary_range field_top
capped_empty env s r x y a b t p q h =
    rw (type_range-field env r t, get_known s x _ p, get_known s y _ q, sub-singleton a b)
      (negative_capped (pos a -ℤ pos b) (pos env.modulus -ℤ pos 1) (omega int_laws))

-- Where a field result is the difference of the constants a and b, a < b, `transfer` leaves the
-- result no value at all, although the field's difference, modulus + a - b, is a value of its type.
pub transfer-field_sub :
    (env : Env) (s : State) (r x y a b : ℕ)
    → env.value_type r ≡ field
    → s.bounds x ≡ some (singleton (pos a))
    → s.bounds y ≡ some (singleton (pos b))
    → a < b
    → b < env.modulus
    → (is_empty (get (transfer env (binary_arith_op sub_op r x y) s) r) ≡ true)
      × Contains (field_top env.modulus) (pos (env.modulus + a - b))
unfolding transfer field_top
transfer-field_sub env s r x y a b t p q h k = (
  rw
      (get-overwrite s r
        (cap_to_type env r (binary_range env sub_op (type_range env r) (get s x) (get s y))))
      (capped_empty env s r x y a b t p q h),
  (Contains-closed (pos 0) (pos env.modulus -ℤ pos 1) (pos (env.modulus + a - b))).1
      (omega arith, omega int_laws),
)
