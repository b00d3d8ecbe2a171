-- ===== src/Bbb/Sensor/Detects.antt =====
-- boards/beaglebone_black/host/hil_sensor.py: which errors in a position the CRC6 tells.
use hil_lab.Prelude.{
  ℕ, ◌-◌, ◌*◌, ◌^◌, ◌≤◌, ◌<◌, ◌≡◌, ◌≢◌, refl, sym, ap, ap₂, ◌∙◌, true, bit_and, bit_or, bit_xor,
  arith,
}
use hil_lab.Prelude.Bits.{bit, and_not, bits_ext, bit-bit_and, bit-bit_xor, bit-le, bit-zero}
use hil_lab.Prelude.Bits.Flags.{bit-pow, bit-ones}
use hil_lab.Prelude.Bits.Fields.{bit_and-mask}
use hil_lab.Errors.{Result, ok, err}
use hil_lab.Bbb.Sensor.{crc_bits, crc6_biss, position_mask, is_width, mask-mod}
use hil_lab.Bbb.Sensor.Register.{crc_bits-xor, xor-zero}
use hil_lab.Bbb.Sensor.Traces.{trace_of, trace_of-fits, trace_of-inj, leading}

masked_xor : (p u m : ℕ) → bit_and (bit_xor p u) m ≡ bit_xor (bit_and p m) (bit_and u m)
masked_xor p u m = bits_ext _ _ (λ k. omega (
  arith,
  bit-bit_and (bit_xor p u) m k,
  bit-bit_xor p u k,
  bit-bit_xor (bit_and p m) (bit_and u m) k,
  bit-bit_and p m k,
  bit-bit_and u m k,
  bit-le p k,
  bit-le u k,
  bit-le m k,
))

and_not-xor : (a b : ℕ) → bit_and b 63 ≡ b → and_not 63 a ≡ and_not 63 (bit_xor a b) → b ≡ 0
and_not-xor a b fits h = bits_ext _ _ (λ k. omega (
  arith,
  ap (λ t. bit t k) fits,
  ap (λ t. bit t k) h,
  bit-bit_and b 63 k,
  bit-bit_xor 63 (bit_and 63 a) k,
  bit-bit_and 63 a k,
  bit-bit_xor 63 (bit_and 63 (bit_xor a b)) k,
  bit-bit_and 63 (bit_xor a b) k,
  bit-bit_xor a b k,
  bit-le a k,
  bit-le b k,
  bit-le 63 k,
  bit-zero k,
))

abbrev code : Result ℕ → ℕ
code (ok c) = c
code (err e) = 0

module _ (n e w : ℕ) (low : 1 ≤ n) (high : n ≤ 32) where
  abbrev status : ℕ
  status = bit_or (bit_and e 1 * 2) (bit_and w 1)

  abbrev register : ℕ → ℕ
  register p = crc_bits 2 status (crc_bits n (bit_and p (position_mask n)) 0)

  abbrev trace : ℕ → ℕ
  trace u = crc_bits 2 0 (crc_bits n (bit_and u (position_mask n)) 0)

  crc6_biss-register : (p : ℕ) → crc6_biss p n e w ≡ ok (and_not 0x3f (register p))
  unfolding crc6_biss
  crc6_biss-register p = rw (wide) refl
    where
      wide : is_width n ≡ true
      wide = ground (arith, low, high)

  register-flip : (p u : ℕ) → register (bit_xor p u) ≡ bit_xor (register p) (trace u)
  register-flip p u =
      ap (λ m. crc_bits 2 status (crc_bits n m 0)) (masked_xor p u (position_mask n))
      ∙ ap (crc_bits 2 status)
          (crc_bits-xor n (bit_and p (position_mask n)) (bit_and u (position_mask n)) 0 0)
      ∙ ap
          (λ t. crc_bits 2 t (
            bit_xor (crc_bits n (bit_and p (position_mask n)) 0)
              (crc_bits n (bit_and u (position_mask n)) 0)))
          (sym (xor-zero status))
      ∙ crc_bits-xor 2 status 0 _ _

  -- A change that the CRC does not tell leaves no trace.
  untold :
      (p u : ℕ)
      → bit_and (trace u) 63 ≡ trace u
      → crc6_biss p n e w ≡ crc6_biss (bit_xor p u) n e w
      → trace u ≡ 0
  untold p u fits h = and_not-xor (register p) (trace u) fits (
      ap code (sym (crc6_biss-register p) ∙ h ∙ crc6_biss-register (bit_xor p u))
      ∙ ap (and_not 63) (register-flip p u))

  masked_pow : (k : ℕ) → k < n → bit_and (2 ^ k) (position_mask n) ≡ 2 ^ k
  masked_pow k l =
      mask-mod n (2 ^ k) high
      ∙ sym (bit_and-mask n (2 ^ k))
      ∙ bits_ext _ _ (λ i. ground (
        arith,
        bit-bit_and (2 ^ k) (2 ^ n - 1) i,
        bit-pow k i,
        bit-ones n k l,
        bit-le (2 ^ n - 1) i,
      ))

  trace-pow : (k : ℕ) → k < n → trace (2 ^ k) ≡ trace_of k
  trace-pow k l =
      ap (λ m. crc_bits 2 0 (crc_bits n m 0)) (masked_pow k l) ∙ ap (crc_bits 2 0) (leading n k l)

  trace-two :
      (j k : ℕ)
      → j < n
      → k < n
      → trace (bit_xor (2 ^ j) (2 ^ k)) ≡ bit_xor (trace_of j) (trace_of k)
  trace-two j k l m =
      ap (λ x. crc_bits 2 0 (crc_bits n x 0)) (masked_xor (2 ^ j) (2 ^ k) (position_mask n))
      ∙ ap (crc_bits 2 0) (
          crc_bits-xor n (bit_and (2 ^ j) (position_mask n)) (bit_and (2 ^ k) (position_mask n)) 0
            0)
      ∙ crc_bits-xor 2 0 0 _ _
      ∙ ap₂ bit_xor (trace-pow j l) (trace-pow k m)

xor-fits : (a b : ℕ) → bit_and a 63 ≡ a → bit_and b 63 ≡ b → bit_and (bit_xor a b) 63 ≡ bit_xor a b
xor-fits a b h g = masked_xor a b 63 ∙ ap₂ bit_xor h g

xor-equal : (a b : ℕ) → bit_xor a b ≡ 0 → a ≡ b
xor-equal a b h =
    bits_ext _ _ (λ k.
      omega (arith, ap (λ t. bit t k) h, bit-bit_xor a b k, bit-le a k, bit-le b k, bit-zero k))

-- The CRC of a position of 1 to 32 bits changes when one of these bits is flipped, and when two
-- different ones are.
pub crc6_biss-detects :
    (position n error_ok warning_ok j k : ℕ)
    → 1 ≤ n
    → n ≤ 32
    → j < n
    → k < n
    → (crc6_biss position n error_ok warning_ok
        ≢ crc6_biss (bit_xor position (2 ^ j)) n error_ok warning_ok)
      × (j ≢ k
          → crc6_biss position n error_ok warning_ok
            ≢ crc6_biss (bit_xor position (bit_xor (2 ^ j) (2 ^ k))) n error_ok warning_ok)
crc6_biss-detects position n e w j k low high l m = (one, two)
  where
    below : (i : ℕ) → i < n → i < 32
    below i l = omega (arith, l, high)

    one : crc6_biss position n e w ≢ crc6_biss (bit_xor position (2 ^ j)) n e w
    one h = (trace_of-fits j (below j l)).0 (
        sym (trace-pow n e w low high j l)
        ∙ untold n e w low high position (2 ^ j)
            (ap (λ t. bit_and t 63) (trace-pow n e w low high j l)
              ∙ (trace_of-fits j (below j l)).1
              ∙ sym (trace-pow n e w low high j l))
            h)

    two :
        j ≢ k
        → crc6_biss position n e w ≢ crc6_biss (bit_xor position (bit_xor (2 ^ j) (2 ^ k))) n e w
    two ne h = ne (
        trace_of-inj j k (below j l) (below k m) (
          xor-equal _ _ (
            sym (trace-two n e w low high j k l m)
            ∙ untold n e w low high position (bit_xor (2 ^ j) (2 ^ k))
                (ap (λ t. bit_and t 63) (trace-two n e w low high j k l m)
                  ∙ xor-fits _ _ (trace_of-fits j (below j l)).1 (trace_of-fits k (below k m)).1
                  ∙ sym (trace-two n e w low high j k l m))
                h)))
