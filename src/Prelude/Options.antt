-- ===== src/Prelude/Options.antt =====
-- Equations between optional values.
use mathlib.Core.Path.{◌≡◌, refl}
use mathlib.Core.Bool.{Bool, true, false}
use mathlib.Core.Option.{none, some, some-injective}
use mavros.Prelude.Tests.{if◌then◌else◌}

pub none-some {ℓ} : {A : Type ℓ} {a : A} → none ≡ some a → ⊥
none-some h = cc

pub if_some {ℓ} :
    {A : Type ℓ} (b : Bool) (a x : A) → (if b then some a else none) ≡ some x → (b ≡ true) × (a ≡ x)
if_some true a x h = (refl, some-injective a x h)
if_some false a x h = cc
