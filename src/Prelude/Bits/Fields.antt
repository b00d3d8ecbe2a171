-- ===== src/Prelude/Bits/Fields.antt =====
-- `|` of disjoint fields and `&` with a low mask, as arithmetic, at every width.
use Prim.Native.Nat.{ℕ, zero, suc, ◌+◌, ◌-◌, ◌*◌, ◌/◌, ◌%◌, ◌^◌, ◌<◌, bit_and, bit_or}
use mathlib.Core.Path.{◌≡◌, ap, ◌∙◌}
use native.Mathlib.Nat.{pow-suc, one-le-pow}
use native.Mathlib.Omega.{arith}
use hil_lab.Prelude.Bits.{bits_ext, bit-bit_or, bit-zero, bit_and_step, bit_or_step, bit_and-zero}

pub bit_or-zero : (a : ℕ) → bit_or a 0 ≡ a
bit_or-zero a = bits_ext _ _ (λ k. omega (arith, bit-bit_or a 0 k, bit-zero k))

pub zero-bit_or : (a : ℕ) → bit_or 0 a ≡ a
zero-bit_or a = bits_ext _ _ (λ k. omega (arith, bit-bit_or 0 a k, bit-zero k))

double : (q k : ℕ) → q * 2 ^ suc k ≡ 2 * (q * 2 ^ k)
double q k = omega (arith, ap (λ (t : ℕ). q * t) (pow-suc 2 k))

-- `(q << k) | r` is a sum when `r` fits `k` bits.
pub bit_or-fields : (k q r : ℕ) → r < 2 ^ k → bit_or (q * 2 ^ k) r ≡ q * 2 ^ k + r
bit_or-fields zero q r fits = ground (arith, bit_or-zero q)
bit_or-fields (suc k) q r fits =
    ground
      (arith, bit_or_step (q * 2 ^ suc k) r, double q k, pow-suc 2 k, bit_or-fields k q (r / 2))

bit_and-fields : (k q r : ℕ) → r < 2 ^ k → bit_and (q * 2 ^ k + r) (2 ^ k - 1) ≡ r
bit_and-fields zero q r fits = ground (arith, bit_and-zero q)
bit_and-fields (suc k) q r fits = ground (
  arith,
  bit_and_step (q * 2 ^ suc k + r) (2 ^ suc k - 1),
  double q k,
  pow-suc 2 k,
  one-le-pow k 2,
  bit_and-fields k q (r / 2),
)

-- A mask of `k` low bits is the remainder by `2 ^ k`.
pub bit_and-mask : (k a : ℕ) → bit_and a (2 ^ k - 1) ≡ a % 2 ^ k
bit_and-mask k a = ground (arith, one-le-pow k 2, bit_and-fields k (a / 2 ^ k) (a % 2 ^ k))

pub bit_or_comm : (a b : ℕ) → bit_or a b ≡ bit_or b a
bit_or_comm a b = bits_ext _ _ (λ k. omega (arith, bit-bit_or a b k, bit-bit_or b a k))

-- `r | (q << k)` is the same sum.
pub fields-bit_or : (k q r : ℕ) → r < 2 ^ k → bit_or r (q * 2 ^ k) ≡ q * 2 ^ k + r
fields-bit_or k q r fits = bit_or_comm r (q * 2 ^ k) ∙ bit_or-fields k q r fits
