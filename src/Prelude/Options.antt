-- ===== src/Prelude/Options.antt =====
-- Lemmas on options.
use mathlib.Core.Path.{◌≡◌, refl}
use mathlib.Core.Option.{Option, none, some}

module _ {ℓ} {A : Type ℓ} where
  pub some-eq : {x y : A} → some x ≡ some y → x ≡ y
  some-eq e = cc

module _ {ℓ} {A B : Type ℓ} where
  -- A chain that gives a result gave one in each step.
  pub some-of :
      (o : Option A) (f : A → B) {y : B}
      → (elim o [ none ↦ none | some x ↦ some (f x) ]) ≡ some y
      → (x : A) × (o ≡ some x) × (f x ≡ y)
  some-of none f e = cc
  some-of (some x) f e = (x, refl, some-eq e)
