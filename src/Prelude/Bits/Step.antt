-- ===== src/Prelude/Bits/Step.antt =====
-- The lowest digit of `&`, `|` and `^`. The native operations are given by `digits`, a recursion that
-- carries fuel; as soon as the fuel covers the first operand it no longer matters.
use Prim.Native.Nat.{
  ℕ, zero, suc, ◌+◌, ◌*◌, ◌/◌, ◌%◌, ◌≤◌, ◌<◌, min, max, bit_and, bit_or, bit_xor, digits, bitwise,
  bit_and-bitwise, bit_or-bitwise, bit_xor-bitwise, differ,
}
use mathlib.Core.Path.{◌≡◌, refl}
use mathlib.Core.WellFounded.{Acc, WellFounded}
use native.Mathlib.Omega.{arith}

accessible : (bound n : ℕ) → n < bound → Acc ◌<◌ n
accessible zero n below = absurd (omega arith)
accessible (suc bound) n below = Acc.intro n (λ m lt. accessible bound m (omega arith))

pub lt_wf : WellFounded ◌<◌
lt_wf = record { apply = λ n. accessible (suc n) n (omega arith) }

module _ (rest : ℕ → ℕ) (digit : ℕ → ℕ → ℕ) where
  -- `bound` limits both the fuel at hand and the fuel that `bitwise` takes.
  settled :
      (bound fuel x y : ℕ)
      → fuel ≤ bound
      → x ≤ fuel
      → digits rest digit fuel x y ≡ bitwise rest digit x y
  settled bound zero zero y p q = refl
  settled bound zero (suc x) y p q = absurd (omega arith)
  settled bound (suc fuel) zero y p q = refl
  settled zero (suc fuel) (suc x) y p q = absurd (omega arith)
  settled (suc bound) (suc fuel) (suc x) y p q = omega (
    arith,
    settled bound fuel (suc x / 2) (y / 2) (omega arith) (omega arith),
    settled bound x (suc x / 2) (y / 2) (omega arith) (omega arith),
  )

  lowest_digit :
      (x y : ℕ)
      → bitwise rest digit (suc x) y
        ≡ 2 * bitwise rest digit (suc x / 2) (y / 2) + digit (suc x % 2) (y % 2)
  lowest_digit x y = omega (arith, settled x x (suc x / 2) (y / 2) (omega arith) (omega arith))

-- On single bits `differ` is addition without a carry.
differ_bits : (p q : ℕ) → p < 2 → q < 2 → differ p q ≡ (p + q) % 2
differ_bits zero q lp lq = omega arith
differ_bits (suc zero) zero lp lq = refl
differ_bits (suc zero) (suc zero) lp lq = refl
differ_bits (suc zero) (suc (suc q)) lp lq = absurd (omega arith)
differ_bits (suc (suc p)) zero lp lq = absurd (omega arith)
differ_bits (suc (suc p)) (suc q) lp lq = absurd (omega arith)

pub bit_xor_step : (x y : ℕ) → bit_xor x y ≡ bit_xor (x / 2) (y / 2) * 2 + (x % 2 + y % 2) % 2
bit_xor_step zero y = simp bit_xor-bitwise (omega arith)
bit_xor_step (suc x) y =
    simp bit_xor-bitwise
      (omega (arith, lowest_digit (λ t. t) differ x y, differ_bits (suc x % 2) (y % 2)))

pub bit_or_step : (x y : ℕ) → bit_or x y ≡ bit_or (x / 2) (y / 2) * 2 + max (x % 2) (y % 2)
bit_or_step zero y = simp bit_or-bitwise (omega arith)
bit_or_step (suc x) y = simp bit_or-bitwise (omega (arith, lowest_digit (λ t. t) max x y))

pub bit_and_step : (x y : ℕ) → bit_and x y ≡ bit_and (x / 2) (y / 2) * 2 + min (x % 2) (y % 2)
bit_and_step zero y = simp bit_and-bitwise (omega arith)
bit_and_step (suc x) y = simp bit_and-bitwise (omega (arith, lowest_digit (λ t. zero) min x y))
