-- ===== src/Prelude/Values.antt =====
-- A list as the values of a function at successive numbers.
use Prim.Native.Nat.{ℕ, zero, suc, ◌+◌, ◌-◌, ◌≤◌}
use mathlib.Core.Path.{◌≡◌, refl, ap, ap₂, ◌∙◌}
use mathlib.Core.Logic.{◌⊎◌, inl, inr}
use mathlib.Core.List.{List, [], ◌∷◌, ◌++◌}
use native.Mathlib.Omega.{arith}
use dspic33ak_can_cmsis_driv.Prelude.Lists.{get_or, length, replicate}

-- The `n` values of a function from `i` on.
abbrev pub values : (ℕ → ℕ) → ℕ → ℕ → List ℕ
values g i zero = []
values g i (suc n) = g i ∷ values g (i + 1) n

pub values-add : (g : ℕ → ℕ) (i m n : ℕ) → values g i m ++ values g (i + m) n ≡ values g i (m + n)
values-add g i zero n =
    let start : i + 0 ≡ i = omega arith in
    let count : n ≡ 0 + n = omega arith in ap₂ (values g) start count
values-add g i (suc m) n =
    let shift : values g (i + suc m) n ≡ values g (i + 1 + m) n =
      ap (λ j. values g j n) {x = i + suc m} {y = i + 1 + m} (omega arith) in
    let count : suc (m + n) ≡ suc m + n = omega arith in
    ap (λ l. g i ∷ (values g (i + 1) m ++ l)) shift
    ∙ ap (λ l. g i ∷ l) (values-add g (i + 1) m n)
    ∙ ap (values g i) {x = suc (m + n)} count

values-suc : (g : ℕ → ℕ) (i n : ℕ) → values g (i + 1) n ≡ values (λ j. g (suc j)) i n
values-suc g i zero = refl
values-suc g i (suc n) =
    ap₂ (λ a l. a ∷ l) (ap g {x = i + 1} {y = suc i} (omega arith)) (values-suc g (i + 1) n)

values-zero : (i n : ℕ) → values (λ j. get_or [] j 0) i n ≡ replicate n 0
values-zero i zero = refl
values-zero i (suc n) = ap (λ l. 0 ∷ l) (values-zero (i + 1) n)

-- A list, read with zeros after its end.
pub values-get_or :
    (xs : List ℕ) (n : ℕ)
    → length xs ≤ n
    → values (λ i. get_or xs i 0) 0 n ≡ xs ++ replicate (n - length xs) 0
values-get_or [] n h = values-zero 0 n ∙ ap (λ k. replicate k 0) {x = n} {y = n - 0} (omega arith)
values-get_or (x ∷ xs) zero h = absurd (omega arith)
values-get_or (x ∷ xs) (suc n) h =
    let count : n - length xs ≡ suc n - suc (length xs) = omega arith in
    ap (λ l. x ∷ l)
      (values-suc (λ i. get_or (x ∷ xs) i 0) 0 n
        ∙ values-get_or xs n (omega arith)
        ∙ ap (λ k. xs ++ replicate k 0) count)

pub get_or-past : (xs : List ℕ) (i : ℕ) → length xs ≤ i → get_or xs i 0 ≡ 0
get_or-past [] i h = refl
get_or-past (x ∷ xs) zero h = absurd (omega arith)
get_or-past (x ∷ xs) (suc i) h = get_or-past xs i (omega arith)

pub values-start : (g : ℕ → ℕ) (i j n : ℕ) → (n ≡ 0) ⊎ (i ≡ j) → values g i n ≡ values g j n
values-start g i j zero e = refl
values-start g i j (suc n) (inl e) = absurd (omega arith)
values-start g i j (suc n) (inr e) = ap (λ k. values g k (suc n)) e
