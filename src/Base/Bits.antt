-- ===== src/Base/Bits.antt =====
-- Masks: `v & (2^k - 1)` and `v & (m << k)` as remainders and quotients.
use Prim.Native.Nat.{bit_and, digits, bit_and-bitwise, min}
use Prim.Native.Nat.{ℕ, zero, suc, ◌+◌, ◌*◌, ◌/◌, ◌%◌, ◌^◌, ◌≤◌}
use mathlib.Core.Path.{◌≡◌, refl, ap}
use native.Mathlib.Omega.{arith}
use native.Mathlib.Nat.{pow-suc, pow-succ', div-one, div-div-eq-div-mul}

-- The number that the native operation stands for, digit by digit on fuel.
abbrev conj_on : ℕ → ℕ → ℕ → ℕ
conj_on fuel a b = digits (λ x. zero) min fuel a b

conj_on_enough : (n m a b : ℕ) → a ≤ n → a ≤ m → conj_on n a b ≡ conj_on m a b
conj_on_enough zero zero a b p q = refl
conj_on_enough (suc n) (suc m) zero b p q = refl
conj_on_enough zero (suc m) zero b p q = refl
conj_on_enough (suc n) zero zero b p q = refl
conj_on_enough zero (suc m) (suc a) b p q = absurd (omega arith)
conj_on_enough (suc n) zero (suc a) b p q = absurd (omega arith)
conj_on_enough (suc n) (suc m) (suc a) b p q =
    omega (arith, conj_on_enough n m (suc a / 2) (b / 2) (omega arith) (omega arith))

bit_and-zero_left : (b : ℕ) → bit_and 0 b ≡ 0
bit_and-zero_left b = bit_and-bitwise 0 b

-- One binary digit of `a & b`.
pub bit_and-halve : (a b : ℕ) → bit_and a b ≡ 2 * bit_and (a / 2) (b / 2) + min (a % 2) (b % 2)
bit_and-halve zero b = omega (arith, bit_and-zero_left b, bit_and-zero_left (b / 2))
bit_and-halve (suc a) b = omega (
  arith,
  bit_and-bitwise (suc a) b,
  bit_and-bitwise (suc a / 2) (b / 2),
  conj_on_enough a (suc a / 2) (suc a / 2) (b / 2) (omega arith) (omega arith),
)

-- k ones.
abbrev pub ones : ℕ → ℕ
ones zero = 0
ones (suc k) = 2 * ones k + 1

-- m << k
abbrev pub shifted : ℕ → ℕ → ℕ
shifted m zero = m
shifted m (suc k) = 2 * shifted m k

bit_and-zero_below : (n a : ℕ) → a ≤ n → bit_and a 0 ≡ 0
bit_and-zero_below n zero h = bit_and-zero_left 0
bit_and-zero_below zero (suc a) h = absurd (omega arith)
bit_and-zero_below (suc n) (suc a) h =
    omega (arith, bit_and-halve (suc a) 0, bit_and-zero_below n (suc a / 2) (omega arith))

bit_and-zero_right : (a : ℕ) → bit_and a 0 ≡ 0
bit_and-zero_right a = bit_and-zero_below a a (omega arith)

-- a % 2^(k + 1) from the half of a.
mod-halve : (a p : ℕ) → 2 * (a / 2 % p) + a % 2 ≡ a % (p * 2)
mod-halve a p = grind arith

bit_and-odd : (a m : ℕ) → bit_and a (2 * m + 1) ≡ 2 * bit_and (a / 2) m + a % 2
bit_and-odd a m =
    let half : (2 * m + 1) / 2 ≡ m = omega arith in
    let digit = bit_and-halve a (2 * m + 1) in
    let digit' = rw half at digit in omega (arith, digit')

bit_and-even : (a m : ℕ) → bit_and a (2 * m) ≡ 2 * bit_and (a / 2) m
bit_and-even a m =
    let half : 2 * m / 2 ≡ m = omega arith in
    let digit = bit_and-halve a (2 * m) in let digit' = rw half at digit in omega (arith, digit')

-- A mask of k ones takes the low k bits.
pub bit_and-ones : (k a : ℕ) → bit_and a (ones k) ≡ a % 2 ^ k
bit_and-ones zero a = omega (arith, bit_and-zero_right a)
bit_and-ones (suc k) a =
    rw (pow-suc 2 k, ← mod-halve a (2 ^ k), ← bit_and-ones k (a / 2)) (bit_and-odd a (ones k))

-- A shifted mask is the mask of the shifted value.
pub bit_and-shifted : (k a m : ℕ) → bit_and a (shifted m k) / 2 ^ k ≡ bit_and (a / 2 ^ k) m
bit_and-shifted zero a m = cc (div-one a, div-one (bit_and a m))
bit_and-shifted (suc k) a m =
    rw
      (
        pow-succ' 2 k,
        ← div-div-eq-div-mul a 2 (2 ^ k),
        ← bit_and-shifted k (a / 2) m,
        bit_and-even a (shifted m k),
        ← div-div-eq-div-mul _ 2 (2 ^ k),
      )
      (ap (λ t. t / 2 ^ k) (omega arith))
