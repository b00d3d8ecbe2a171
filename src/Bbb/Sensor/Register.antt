-- ===== src/Bbb/Sensor/Register.antt =====
-- boards/beaglebone_black/host/hil_sensor.py: the register of the CRC6, and the bits that it takes in.
use native.Mathlib.Nat.{div-div-eq-div-mul, pow-suc}
use hil_lab.Prelude.{
  ℕ, zero, suc, ◌+◌, ◌*◌, ◌/◌, ◌%◌, ◌^◌, ◌≤◌, ◌≡◌, refl, sym, ap, ap₂, ◌∙◌, ◌==◌, if◌then◌else◌,
  bit_and, bit_xor, arith,
}
use hil_lab.Prelude.Bits.{
  bit, bits_ext, bit-bit_and, bit-bit_xor, bit-le, bit-zero, mask-one, bit_xor_step,
}
use hil_lab.Bbb.Sensor.{crc_step, crc_bits}

-- Bit `n` as the loops take it.
pub digit : (x n : ℕ) → bit_and (x / 2 ^ n) 1 ≡ bit x n
digit x n = mask-one (x / 2 ^ n) ∙ low x n
  where
    low : (x n : ℕ) → x / 2 ^ n % 2 ≡ bit x n
    low x zero = omega arith
    low x (suc n) =
        ap (λ t. x / t % 2) (pow-suc 2 n ∙ omega arith)
        ∙ ap (λ t. t % 2) (sym (div-div-eq-div-mul x 2 (2 ^ n)))
        ∙ low (x / 2) n

pub xor-zero : (s : ℕ) → bit_xor s 0 ≡ s
xor-zero s = bits_ext _ _ (λ k. omega (arith, bit-bit_xor s 0 k, bit-zero k, bit-le s k))

xor-small : (x b : ℕ) → x ≤ 1 → b ≤ 1 → bit_xor x b ≡ (x + b) % 2
xor-small x b l m = omega (arith, bit_xor_step x b, ap₂ bit_xor (half x l) (half b m), l, m)
  where
    half : (x : ℕ) → x ≤ 1 → x / 2 ≡ 0
    half x l = omega (arith, l)

-- The register moves on, and takes in 3 where the highest bit and the new one differ.
crc_step-parts :
    (c b : ℕ) → b ≤ 1 → crc_step c b ≡ bit_xor (bit_and (c * 2) 0x3f) (((bit c 5 + b) % 2) * 3)
crc_step-parts c b l =
    ap (λ f. if f == 0 then bit_and (c * 2) 63 else bit_xor (bit_and (c * 2) 63) 3) fed
    ∙ chosen ((bit c 5 + b) % 2) (omega arith) (bit_and (c * 2) 63)
  where
    fed : bit_xor (bit_and (c / 2 ^ 5) 1) b ≡ (bit c 5 + b) % 2
    fed = ap (λ t. bit_xor t b) (digit c 5) ∙ xor-small (bit c 5) b (bit-le c 5) l

    chosen : (f : ℕ) → f ≤ 1 → (s : ℕ) → (if f == 0 then s else bit_xor s 3) ≡ bit_xor s (f * 3)
    chosen zero l s = sym (xor-zero s)
    chosen (suc zero) l s = refl
    chosen (suc (suc f)) l s = absurd (omega (arith, l))

shift-xor :
    (c d : ℕ)
    → bit_and (bit_xor c d * 2) 0x3f ≡ bit_xor (bit_and (c * 2) 0x3f) (bit_and (d * 2) 0x3f)
shift-xor c d = bits_ext _ _ (λ k. omega (
  arith,
  ap (λ t. bit t k) doubled,
  bit-bit_and (bit_xor c d * 2) 63 k,
  bit-bit_xor (c * 2) (d * 2) k,
  bit-bit_xor (bit_and (c * 2) 63) (bit_and (d * 2) 63) k,
  bit-bit_and (c * 2) 63 k,
  bit-bit_and (d * 2) 63 k,
  bit-le 63 k,
  bit-le (c * 2) k,
  bit-le (d * 2) k,
))
  where
    half : (x : ℕ) → x * 2 / 2 ≡ x
    half x = omega arith

    doubled : bit_xor c d * 2 ≡ bit_xor (c * 2) (d * 2)
    doubled = omega (arith, bit_xor_step (c * 2) (d * 2), ap₂ bit_xor (half c) (half d))

triple : (f g : ℕ) → f ≤ 1 → g ≤ 1 → ((f + g) % 2) * 3 ≡ bit_xor (f * 3) (g * 3)
triple zero zero l m = refl
triple zero (suc zero) l m = refl
triple (suc zero) zero l m = refl
triple (suc zero) (suc zero) l m = refl
triple (suc (suc f)) g l m = absurd (omega (arith, l))
triple f (suc (suc g)) l m = absurd (omega (arith, m))

xor-pairs :
    (s t f g : ℕ) → bit_xor (bit_xor s t) (bit_xor f g) ≡ bit_xor (bit_xor s f) (bit_xor t g)
xor-pairs s t f g = bits_ext _ _ (λ k. omega (
  arith,
  bit-bit_xor (bit_xor s t) (bit_xor f g) k,
  bit-bit_xor s t k,
  bit-bit_xor f g k,
  bit-bit_xor (bit_xor s f) (bit_xor t g) k,
  bit-bit_xor s f k,
  bit-bit_xor t g k,
))

-- Two turns from two registers, with their bits, are one turn from the sum of both.
pub crc_step-xor :
    (c d a b e : ℕ)
    → a ≤ 1
    → b ≤ 1
    → e ≡ (a + b) % 2
    → crc_step (bit_xor c d) e ≡ bit_xor (crc_step c a) (crc_step d b)
crc_step-xor c d a b e l m h =
    crc_step-parts (bit_xor c d) e (omega (arith, h))
    ∙ ap₂ bit_xor (shift-xor c d) (ap (λ t. t * 3) fed ∙ triple _ _ (omega arith) (omega arith))
    ∙ xor-pairs _ _ _ _
    ∙ sym (ap₂ bit_xor (crc_step-parts c a l) (crc_step-parts d b m))
  where
    fed : (bit (bit_xor c d) 5 + e) % 2 ≡ ((bit c 5 + a) % 2 + (bit d 5 + b) % 2) % 2
    fed = omega (arith, bit-bit_xor c d 5, h)

-- The register after the bits of a sum is the sum of the registers after the bits of each.
pub crc_bits-xor :
    (n v u c d : ℕ)
    → crc_bits n (bit_xor v u) (bit_xor c d) ≡ bit_xor (crc_bits n v c) (crc_bits n u d)
crc_bits-xor zero v u c d = refl
crc_bits-xor (suc n) v u c d =
    ap (crc_bits n (bit_xor v u)) (
      crc_step-xor c d _ _ _ (taken v) (taken u) (
        digit (bit_xor v u) n
        ∙ bit-bit_xor v u n
        ∙ sym (ap₂ (λ a b. (a + b) % 2) (digit v n) (digit u n))))
    ∙ crc_bits-xor n v u _ _
  where
    taken : (x : ℕ) → bit_and (x / 2 ^ n) 1 ≤ 1
    taken x = omega (arith, mask-one (x / 2 ^ n))
