-- ===== src/Prelude/Finite.antt =====
-- Facts about all numbers below a literal, by evaluation.
use Prim.Native.Nat.{ℕ, zero, suc, ◌<◌}
use mathlib.Core.Path.{◌≡◌, sym, subst}
use mathlib.Core.Bool.{Bool, true, ◌&&◌}
use mathlib.Core.Logic.{◌⊎◌, inl, inr}
use native.Mathlib.Omega.{arith}

abbrev pub all_below : ℕ → (ℕ → Bool) → Bool
all_below zero p = true
all_below (suc n) p = p n && all_below n p

pub and-both : (a b : Bool) → (a && b) ≡ true → (a ≡ true) × (b ≡ true)
and-both a b e = ground arith

pub all_below-at : (n : ℕ) (p : ℕ → Bool) → all_below n p ≡ true → (i : ℕ) → i < n → p i ≡ true
all_below-at zero p e i h = absurd (omega arith)
all_below-at (suc n) p e i h = elim last [
  | inl now ↦ subst (λ j. p j ≡ true) (sym now) (and-both (p n) (all_below n p) e).0
  | inr before ↦ all_below-at n p (and-both (p n) (all_below n p) e).1 i before
]
  where
    last : (i ≡ n) ⊎ (i < n)
    last = omega arith
