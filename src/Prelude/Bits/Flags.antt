-- ===== src/Prelude/Bits/Flags.antt =====
-- Setting, clearing and reading one flag of a word.
use Prim.Native.Nat.{ℕ, zero, suc, ◌-◌, ◌<◌, ◌/◌, ◌^◌, bit_and, bit_or}
use mathlib.Core.Path.{◌≡◌, refl, ap, ◌∙◌}
use native.Mathlib.Nat.{pow-suc, one-le-pow}
use native.Mathlib.Omega.{arith}
use hil_lab.Prelude.Tests.{◌==◌, if◌then◌else◌}
use hil_lab.Prelude.Bits.{bit, and_not, bit-le, bit-zero, bit-bit_or, bit-bit_and, bit-bit_xor}

pub bit-pow : (n k : ℕ) → bit (2 ^ n) k ≡ (if k == n then 1 else 0)
bit-pow zero zero = refl
bit-pow zero (suc k) = ground (arith, bit-zero k)
bit-pow (suc n) zero = ground (arith, pow-suc 2 n)
bit-pow (suc n) (suc k) = ap (λ t. bit t k) (half n) ∙ (bit-pow n k ∙ ground arith)
  where
    half : (n : ℕ) → 2 ^ suc n / 2 ≡ 2 ^ n
    half n = omega (arith, pow-suc 2 n)

pub bit-set : (x n k : ℕ) → bit (bit_or x (2 ^ n)) k ≡ (if k == n then 1 else bit x k)
bit-set x n k = ground (arith, bit-bit_or x (2 ^ n) k, bit-pow n k, bit-le x k)

pub bit-clear : (x n k : ℕ) → bit (and_not x (2 ^ n)) k ≡ (if k == n then 0 else bit x k)
bit-clear x n k =
    ground
      (arith, bit-bit_xor x (bit_and x (2 ^ n)) k, bit-bit_and x (2 ^ n) k, bit-pow n k, bit-le x k)

pub bit-ones : (n k : ℕ) → k < n → bit (2 ^ n - 1) k ≡ 1
bit-ones zero k h = absurd (omega (arith, h))
bit-ones (suc n) zero h = omega (arith, pow-suc 2 n, one-le-pow n 2)
bit-ones (suc n) (suc k) h = ap (λ t. bit t k) (half n) ∙ bit-ones n k (omega (arith, h))
  where
    half : (n : ℕ) → (2 ^ suc n - 1) / 2 ≡ 2 ^ n - 1
    half n = omega (arith, pow-suc 2 n, one-le-pow n 2)

-- Reduction to `n` bits keeps them.
pub bit-mask : (x n k : ℕ) → k < n → bit (bit_and x (2 ^ n - 1)) k ≡ bit x k
bit-mask x n k h = omega (arith, bit-bit_and x (2 ^ n - 1) k, bit-ones n k h, bit-le x k)
