-- ===== src/Prelude/Bits.antt =====
-- `|` of disjoint fields is a sum, and `&` with a low mask is a remainder. The library gives the
-- native operations by a recursion on binary digits with fuel; first the fuel is dropped.
use Prim.Native.Nat.{ℕ, zero, suc, ◌+◌, ◌*◌, ◌-◌, ◌/◌, ◌%◌, ◌^◌, ◌≤◌, ◌<◌, min, max}
use Prim.Native.Nat.{bit_and, bit_or, digits, bit_and-bitwise, bit_or-bitwise}
use mathlib.Core.Path.{◌≡◌, refl, sym, ap, ap₂, ◌∙◌}
use native.Mathlib.Nat.{pow-suc, pow-succ', one-le-pow, div-div-eq-div-mul, div-add-mod}
use native.Mathlib.Omega.{arith}

-- `a << k` before the cut to 32 bits, and `a >> k`.
abbrev pub shl : ℕ → ℕ → ℕ
shl a k = a * 2 ^ k

abbrev pub shr : ℕ → ℕ → ℕ
shr a k = a / 2 ^ k

abbrev pub u8 : ℕ → ℕ
u8 n = n % 2 ^ 8

abbrev pub u16 : ℕ → ℕ
u16 n = n % 2 ^ 16

abbrev pub u32 : ℕ → ℕ
u32 n = n % 2 ^ 32

module _ (z : ℕ → ℕ) (f : ℕ → ℕ → ℕ) where
  digits_enough : (n m a b : ℕ) → a ≤ n → a ≤ m → digits z f n a b ≡ digits z f m a b
  digits_enough zero zero a b p q = refl
  digits_enough zero (suc m) zero b p q = refl
  digits_enough (suc n) zero zero b p q = refl
  digits_enough (suc n) (suc m) zero b p q = refl
  digits_enough zero (suc m) (suc a) b p q = absurd (omega arith)
  digits_enough (suc n) zero (suc a) b p q = absurd (omega arith)
  digits_enough (suc n) (suc m) (suc a) b p q =
      omega (arith, digits_enough n m (suc a / 2) (b / 2) (omega arith) (omega arith))

bit_or_low : (a b : ℕ) → bit_or a b ≡ bit_or (a / 2) (b / 2) * 2 + max (a % 2) (b % 2)
bit_or_low zero b = omega (arith, bit_or-bitwise 0 b, bit_or-bitwise 0 (b / 2))
bit_or_low (suc a) b = omega (
  arith,
  bit_or-bitwise (suc a) b,
  bit_or-bitwise (suc a / 2) (b / 2),
  digits_enough (λ y. y) max a (suc a / 2) (suc a / 2) (b / 2) (omega arith) (omega arith),
)

bit_and_low : (a b : ℕ) → bit_and a b ≡ bit_and (a / 2) (b / 2) * 2 + min (a % 2) (b % 2)
bit_and_low zero b = omega (arith, bit_and-bitwise 0 b, bit_and-bitwise 0 (b / 2))
bit_and_low (suc a) b = omega (
  arith,
  bit_and-bitwise (suc a) b,
  bit_and-bitwise (suc a / 2) (b / 2),
  digits_enough (λ y. 0) min a (suc a / 2) (suc a / 2) (b / 2) (omega arith) (omega arith),
)

-- Fuel bounds the number of digits.
bit_or-zero_below : (n a : ℕ) → a ≤ n → bit_or a 0 ≡ a
bit_or-zero_below n zero h = refl
bit_or-zero_below zero (suc a) h = absurd (omega arith)
bit_or-zero_below (suc n) (suc a) h =
    omega (arith, bit_or_low (suc a) 0, bit_or-zero_below n (suc a / 2) (omega arith))

pub bit_or-zero : (a : ℕ) → bit_or a 0 ≡ a
bit_or-zero a = bit_or-zero_below a a (omega arith)

bit_and-zero_below : (n a : ℕ) → a ≤ n → bit_and a 0 ≡ 0
bit_and-zero_below n zero h = refl
bit_and-zero_below zero (suc a) h = absurd (omega arith)
bit_and-zero_below (suc n) (suc a) h =
    omega (arith, bit_and_low (suc a) 0, bit_and-zero_below n (suc a / 2) (omega arith))

pub bit_and-zero : (a : ℕ) → bit_and a 0 ≡ 0
bit_and-zero a = bit_and-zero_below a a (omega arith)

double_shl : (q k : ℕ) → q * 2 ^ suc k ≡ 2 * (q * 2 ^ k)
double_shl q k = omega (arith, ap (λ (t : ℕ). q * t) (pow-suc 2 k))

-- A field above and a field below join without a carry.
pub bit_or-shl : (k q r : ℕ) → r < 2 ^ k → bit_or (shl q k) r ≡ q * 2 ^ k + r
bit_or-shl zero q r h = ground (arith, bit_or-zero q)
bit_or-shl (suc k) q r h = ground (
  arith,
  pow-suc 2 k,
  double_shl q k,
  bit_or_low (q * 2 ^ suc k) r,
  bit_or-shl k q (r / 2) (omega (arith, pow-suc 2 k)),
)

bit_or_comm_below : (n a b : ℕ) → a ≤ n → b ≤ n → bit_or a b ≡ bit_or b a
bit_or_comm_below zero a b ha hb = ap₂ bit_or {y = b} {v = a} (omega arith) (omega arith)
bit_or_comm_below (suc n) a b ha hb = omega (
  arith,
  bit_or_low a b,
  bit_or_low b a,
  bit_or_comm_below n (a / 2) (b / 2) (omega arith) (omega arith),
)

pub bit_or_comm : (a b : ℕ) → bit_or a b ≡ bit_or b a
bit_or_comm a b = bit_or_comm_below (a + b) a b (omega arith) (omega arith)

shr-suc : (k a : ℕ) → a / 2 ^ suc k ≡ a / 2 / 2 ^ k
shr-suc k a = omega (arith, ap (λ (t : ℕ). a / t) (pow-succ' 2 k), div-div-eq-div-mul a 2 (2 ^ k))

mod-two-pow-suc : (k a : ℕ) → a % 2 ^ suc k ≡ a / 2 % 2 ^ k * 2 + a % 2
mod-two-pow-suc k a = omega (
  arith,
  shr-suc k a,
  div-add-mod a (2 ^ suc k),
  div-add-mod (a / 2) (2 ^ k),
  ap (λ (t : ℕ). t * (a / 2 ^ suc k)) (pow-succ' 2 k),
  ap (λ (t : ℕ). 2 ^ k * t) (shr-suc k a),
)

-- A mask of the `k` low bits keeps the remainder by `2 ^ k`.
pub bit_and-mask : (k a : ℕ) → bit_and a (2 ^ k - 1) ≡ a % 2 ^ k
bit_and-mask zero a = omega (arith, bit_and-zero a)
bit_and-mask (suc k) a = ground (
  arith,
  one-le-pow k 2,
  pow-succ' 2 k,
  bit_and_low a (2 ^ suc k - 1),
  mod-two-pow-suc k a,
  bit_and-mask k (a / 2),
)

-- A mask of one bit tests that bit.
pub bit_and-bit : (k a : ℕ) → bit_and a (2 ^ k) ≡ a / 2 ^ k % 2 * 2 ^ k
bit_and-bit zero a = omega (arith, bit_and_low a 1, bit_and-zero (a / 2))
bit_and-bit (suc k) a = ground (
  arith,
  pow-succ' 2 k,
  bit_and_low a (2 ^ suc k),
  shr-suc k a,
  double_shl (a / 2 ^ suc k % 2) k,
  bit_and-bit k (a / 2),
)

bit_and-half : (a b : ℕ) → bit_and a b / 2 ≡ bit_and (a / 2) (b / 2)
bit_and-half a b = omega (arith, bit_and_low a b)

-- A shift moves both operands.
pub shr-bit_and : (k a b : ℕ) → bit_and a b / 2 ^ k ≡ bit_and (a / 2 ^ k) (b / 2 ^ k)
shr-bit_and zero a b =
    omega (
      arith,
      ap₂ bit_and {x = a / 2 ^ 0} {y = a} {u = b / 2 ^ 0} {v = b} (omega arith) (omega arith),
    )
shr-bit_and (suc k) a b =
    shr-suc k (bit_and a b)
    ∙ ap (λ t. t / 2 ^ k) (bit_and-half a b)
    ∙ shr-bit_and k (a / 2) (b / 2)
    ∙ sym (ap₂ bit_and (shr-suc k a) (shr-suc k b))

-- A mask that is shifted keeps what the mask keeps of the shifted word.
pub bit_and-shl : (k a m : ℕ) → bit_and a (shl m k) ≡ bit_and (a / 2 ^ k) m * 2 ^ k
bit_and-shl zero a m =
    omega
      (arith, ap₂ bit_and {x = a} {y = a / 2 ^ 0} {u = shl m 0} {v = m} (omega arith) (omega arith))
bit_and-shl (suc k) a m = ground (
  arith,
  pow-succ' 2 k,
  bit_and_low a (shl m (suc k)),
  shr-suc k a,
  double_shl m k,
  double_shl (bit_and (a / 2 ^ suc k) m) k,
  ap (λ t. bit_and (a / 2) t) {x = shl m (suc k) / 2} {y = shl m k} (omega (arith, double_shl m k)),
  ap (λ t. bit_and t m) (shr-suc k a),
  bit_and-shl k (a / 2) m,
)

bit_or-half : (a b : ℕ) → bit_or a b / 2 ≡ bit_or (a / 2) (b / 2)
bit_or-half a b = omega (arith, bit_or_low a b)

-- The bits of a disjunction and of a conjunction.
pub bit_or-digit : (k a b : ℕ) → bit_or a b / 2 ^ k % 2 ≡ max (a / 2 ^ k % 2) (b / 2 ^ k % 2)
bit_or-digit zero a b = omega (arith, bit_or_low a b)
bit_or-digit (suc k) a b = omega (
  arith,
  shr-suc k (bit_or a b),
  shr-suc k a,
  shr-suc k b,
  ap (λ (t : ℕ). t / 2 ^ k) (bit_or-half a b),
  bit_or-digit k (a / 2) (b / 2),
)

pub bit_and-digit : (k a b : ℕ) → bit_and a b / 2 ^ k % 2 ≡ min (a / 2 ^ k % 2) (b / 2 ^ k % 2)
bit_and-digit zero a b = omega (arith, bit_and_low a b)
bit_and-digit (suc k) a b = omega (
  arith,
  shr-suc k (bit_and a b),
  shr-suc k a,
  shr-suc k b,
  ap (λ (t : ℕ). t / 2 ^ k) (bit_and-half a b),
  bit_and-digit k (a / 2) (b / 2),
)
