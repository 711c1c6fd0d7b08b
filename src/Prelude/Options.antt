-- ===== src/Prelude/Options.antt =====
-- What the success of a step in `Option` says of its parts.
use mathlib.Core.Path.{◌≡◌, refl}
use mathlib.Core.Option
use mathlib.Core.Option.{Option, none, some}

module _ {ℓ κ} {A : Type ℓ} {B : Type κ} where
  pub map-eq-some :
      (f : A → B) (o : Option A) {b : B}
      → Option.map f o ≡ some b
      → (a : A) × (o ≡ some a) × (f a ≡ b)
  map-eq-some f none h = cc
  map-eq-some f (some a) h = (a, refl, cc)

  pub bind-eq-some :
      (o : Option A) (f : A → Option B) {b : B}
      → Option.bind o f ≡ some b
      → (a : A) × (o ≡ some a) × (f a ≡ some b)
  unfolding Option.bind
  bind-eq-some none f h = cc
  bind-eq-some (some a) f h = (a, refl, h)
