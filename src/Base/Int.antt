-- ===== src/Base/Int.antt =====
-- Signed integers, where the code computes with a value that may be negative.
use Prim.Native.Nat.{ℕ, zero, suc, ◌+◌, ◌/◌}
use mathlib.Core.Path.{◌≡◌, refl, ap, ◌∙◌}
use native.Mathlib.Omega.{arith}
use mathlib.Core.Bool.{Bool, true, false}
use cubefs_blobstore.Base.Tests.{leb}

-- `negsuc n` is -(n + 1).
pub data ℤ : Type 0 where
  pos : ℕ → ℤ
  negsuc : ℕ → ℤ

abbrev pub pos_part : ℤ → ℕ
pos_part (pos n) = n
pos_part (negsuc n) = 0

-- -n
abbrev pub neg_ℕ : ℕ → ℤ
neg_ℕ zero = pos 0
neg_ℕ (suc n) = negsuc n

-- Division by a positive number, truncated toward zero as in Go.
abbrev pub quot_ℕ : ℤ → ℕ → ℤ
quot_ℕ (pos a) b = pos (a / b)
quot_ℕ (negsuc a) b = neg_ℕ (suc a / b)

-- a - b of two numbers that are not negative.
abbrev pub diff : ℕ → ℕ → ℤ
diff a zero = pos a
diff zero (suc b) = negsuc b
diff (suc a) (suc b) = diff a b

abbrev pub leb_int : ℤ → ℤ → Bool
leb_int (pos a) (pos b) = leb a b
leb_int (pos a) (negsuc b) = false
leb_int (negsuc a) (pos b) = true
leb_int (negsuc a) (negsuc b) = leb b a

abbrev pub incr : ℤ → ℤ
incr (pos n) = pos (suc n)
incr (negsuc n) = neg_ℕ n

abbrev pub decr : ℤ → ℤ
decr (pos zero) = negsuc 0
decr (pos (suc n)) = pos n
decr (negsuc n) = negsuc (suc n)

pub decr-incr : (z : ℤ) → decr (incr z) ≡ z
decr-incr (pos n) = refl
decr-incr (negsuc zero) = refl
decr-incr (negsuc (suc n)) = refl

pub diff-add : (a b : ℕ) → diff (a + b) b ≡ pos a
diff-add a zero = ap pos (let e : a + 0 ≡ a = omega arith in e)
diff-add a (suc b) =
    ap (λ n. diff n (suc b)) (let e : a + suc b ≡ suc (a + b) = omega arith in e) ∙ diff-add a b
