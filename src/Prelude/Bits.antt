-- ===== src/Prelude/Bits.antt =====
-- The bit operations by their bits: `bit x k` is bit `k` of `x`, and each operation works bit by bit.
mod Step
pub mod Fields
pub mod Flags
use Prim.Native.Nat.{
  ℕ, zero, suc, ◌+◌, ◌*◌, ◌/◌, ◌%◌, ◌^◌, ◌≤◌, ◌<◌, min, max, bit_and, bit_or, bit_xor,
}
use mathlib.Core.Path.{◌≡◌, refl, sym, ap, ◌∙◌}
use mathlib.Core.Bool.{Bool, true, false, not}
use mathlib.Core.WellFounded
use native.Mathlib.Nat.{pow-suc, one-le-pow}
use native.Mathlib.Omega.{arith}
use hil_lab.Prelude.Tests.{◌==◌, if◌then◌else◌}
use Step.{lt_wf}
pub use Step.{bit_or_step, bit_and_step, bit_xor_step}

abbrev pub bit : ℕ → ℕ → ℕ
bit x zero = x % 2
bit x (suc k) = bit (x / 2) k

-- Python's `x & ~m` on a non-negative `x`: the bits that both have are flipped to 0.
abbrev pub and_not : ℕ → ℕ → ℕ
and_not x m = bit_xor x (bit_and x m)

-- Python's test `if x & m`.
abbrev pub any_bits : ℕ → ℕ → Bool
any_bits x m = not (bit_and x m == 0)

pub bit-le : (x k : ℕ) → bit x k ≤ 1
bit-le x zero = omega arith
bit-le x (suc k) = bit-le (x / 2) k

pub bit-zero : (k : ℕ) → bit 0 k ≡ 0
bit-zero zero = refl
bit-zero (suc k) = bit-zero k

zero_bits : (b : ℕ) → ((k : ℕ) → bit b k ≡ 0) → b ≡ 0
zero_bits b = WellFounded.induction lt_wf {C = λ n. ((k : ℕ) → bit n k ≡ 0) → n ≡ 0} b step
  where
    step :
        (n : ℕ)
        → ((m : ℕ) → m < n → ((k : ℕ) → bit m k ≡ 0) → m ≡ 0)
        → ((k : ℕ) → bit n k ≡ 0)
        → n ≡ 0
    step zero ih h = refl
    step (suc n) ih h = omega (arith, h 0, ih (suc n / 2) (omega arith) (λ k. h (suc k)))

pub bit-bit_and : (a b k : ℕ) → bit (bit_and a b) k ≡ min (bit a k) (bit b k)
bit-bit_and a b zero = omega (arith, bit_and_step a b)
bit-bit_and a b (suc k) =
    ap (λ t. bit t k) (omega (arith, bit_and_step a b)) ∙ bit-bit_and (a / 2) (b / 2) k

pub bit-bit_or : (a b k : ℕ) → bit (bit_or a b) k ≡ max (bit a k) (bit b k)
bit-bit_or a b zero = omega (arith, bit_or_step a b)
bit-bit_or a b (suc k) =
    ap (λ t. bit t k) (omega (arith, bit_or_step a b)) ∙ bit-bit_or (a / 2) (b / 2) k

pub bit-bit_xor : (a b k : ℕ) → bit (bit_xor a b) k ≡ (bit a k + bit b k) % 2
bit-bit_xor a b zero = omega (arith, bit_xor_step a b)
bit-bit_xor a b (suc k) =
    ap (λ t. bit t k) (omega (arith, bit_xor_step a b)) ∙ bit-bit_xor (a / 2) (b / 2) k

pub bit_and-zero : (a : ℕ) → bit_and a 0 ≡ 0
bit_and-zero a = zero_bits _ (λ k. omega (arith, bit-bit_and a 0 k, bit-zero k))

half-pow : (k : ℕ) → 2 ^ suc k / 2 ≡ 2 ^ k
half-pow k = omega (arith, pow-suc 2 k)

-- Numbers with the same bits are equal.
pub bits_ext : (a b : ℕ) → ((k : ℕ) → bit a k ≡ bit b k) → a ≡ b
bits_ext a =
    WellFounded.induction lt_wf {C = λ n. (b : ℕ) → ((k : ℕ) → bit n k ≡ bit b k) → n ≡ b} a step
  where
    step :
        (n : ℕ)
        → ((m : ℕ) → m < n → (b : ℕ) → ((k : ℕ) → bit m k ≡ bit b k) → m ≡ b)
        → (b : ℕ) → ((k : ℕ) → bit n k ≡ bit b k)
        → n ≡ b
    step zero ih b h = sym (zero_bits b (λ k. sym (h k) ∙ bit-zero k))
    step (suc n) ih b h = omega (arith, h 0, ih (suc n / 2) (omega arith) (b / 2) (λ k. h (suc k)))

-- `x & 2^k` tests bit `k`.
pub bit_and-pow : (x k : ℕ) → bit_and x (2 ^ k) ≡ bit x k * 2 ^ k
bit_and-pow x zero = omega (arith, bit_and_step x 1, bit_and-zero (x / 2))
bit_and-pow x (suc k) = omega (
  arith,
  bit_and_step x (2 ^ suc k),
  pow-suc 2 k,
  ap (λ t. bit_and (x / 2) t) (half-pow k),
  bit_and-pow (x / 2) k,
  ap (λ (t : ℕ). bit (x / 2) k * t) (pow-suc 2 k),
)

pub any_bits-pow : (x k : ℕ) → any_bits x (2 ^ k) ≡ (bit x k == 1)
any_bits-pow x k = grind (arith, bit_and-pow x k, bit-le x k, one-le-pow k 2)

-- A mask bit by bit: at a numeral mask these compute to facts that `omega` joins.
pub mask-even : (x m : ℕ) → bit_and x (2 * m) ≡ 2 * bit_and (x / 2) m
mask-even x m = omega (arith, bit_and_step x (2 * m), ap (λ t. bit_and (x / 2) t) (half-double m))
  where
    half-double : (m : ℕ) → 2 * m / 2 ≡ m
    half-double m = omega arith

pub mask-odd : (x m : ℕ) → bit_and x (1 + 2 * m) ≡ 2 * bit_and (x / 2) m + x % 2
mask-odd x m =
    omega (arith, bit_and_step x (1 + 2 * m), ap (λ t. bit_and (x / 2) t) (half-double m))
  where
    half-double : (m : ℕ) → (1 + 2 * m) / 2 ≡ m
    half-double m = omega arith

pub mask-one : (x : ℕ) → bit_and x 1 ≡ x % 2
mask-one x = omega (arith, bit_and_step x 1, bit_and-zero (x / 2))
