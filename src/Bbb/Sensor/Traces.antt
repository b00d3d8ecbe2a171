-- ===== src/Bbb/Sensor/Traces.antt =====
-- boards/beaglebone_black/host/hil_sensor.py: what each bit of a position leaves in the register of the CRC6.
use hil_lab.Prelude.{
  ℕ, zero, suc, ◌/◌, ◌^◌, ◌<◌, ◌≡◌, ◌≢◌, refl, sym, ap, ◌∙◌, Bool, true, false, List, [], ◌∷◌, not,
  ◌&&◌, ◌||◌, ◌==◌, get_or, bit_and, arith, ◌⊎◌, inl, inr, ==_iff, eq_or_not,
}
use hil_lab.Prelude.Bits.Flags.{bit-pow}
use hil_lab.Bbb.Sensor.{crc_bits}
use hil_lab.Bbb.Sensor.Register.{digit}

-- A test of all the numbers below a bound.
abbrev all_below : (ℕ → Bool) → ℕ → Bool
all_below test zero = true
all_below test (suc n) = test n && all_below test n

all_below-lt : (test : ℕ → Bool) (n k : ℕ) → all_below test n ≡ true → k < n → test k ≡ true
all_below-lt test zero k h l = absurd (omega (arith, l))
all_below-lt test (suc n) k h l =
    side (eq_or_not k n) (λ m. all_below-lt test n k (both (test n) _ h).1 m)
  where
    both : (a b : Bool) → (a && b) ≡ true → (a ≡ true) × (b ≡ true)
    both true b h = (refl, h)
    both false b h = cc

    side : (k ≡ n) ⊎ (k ≢ n) → (k < n → test k ≡ true) → test k ≡ true
    side (inl e) earlier = ap test e ∙ (both (test n) _ h).0
    side (inr ne) earlier = earlier (omega (arith, l, ne))

-- The register when bit `k` alone has come in, and then two bits 0.
abbrev pub trace_of : ℕ → ℕ
trace_of k = crc_bits 2 0 (crc_bits (suc k) (2 ^ k) 0)

abbrev traces : List ℕ
traces =
    12 ∷ 24 ∷ 48 ∷ 35 ∷ 5 ∷ 10 ∷ 20 ∷ 40 ∷ 19 ∷ 38 ∷ 15 ∷ 30 ∷ 60 ∷ 59 ∷ 53 ∷ 41 ∷ 17 ∷ 34 ∷ 7 ∷ 14
    ∷ 28 ∷ 56 ∷ 51 ∷ 37 ∷ 9 ∷ 18 ∷ 36 ∷ 11 ∷ 22 ∷ 44 ∷ 27 ∷ 54 ∷ []

traces-are : all_below (λ k. trace_of k == get_or traces k 0) 32 ≡ true
traces-are = refl

abbrev is_trace : ℕ → Bool
is_trace k = not (get_or traces k 0 == 0) && bit_and (get_or traces k 0) 63 == get_or traces k 0

traces-fit : all_below is_trace 32 ≡ true
traces-fit = refl

abbrev apart : ℕ → ℕ → Bool
apart k j = j == k || not (get_or traces j 0 == get_or traces k 0)

traces-differ : all_below (λ k. all_below (apart k) 32) 32 ≡ true
traces-differ = refl

trace_of-table : (k : ℕ) → k < 32 → trace_of k ≡ get_or traces k 0
trace_of-table k l =
    (==_iff _ _).0 (all_below-lt (λ k. trace_of k == get_or traces k 0) 32 k traces-are l)

pub trace_of-fits : (k : ℕ) → k < 32 → (trace_of k ≢ 0) × (bit_and (trace_of k) 63 ≡ trace_of k)
trace_of-fits k l = rw (trace_of-table k l) (
    split (get_or traces k 0 == 0) (bit_and (get_or traces k 0) 63 == get_or traces k 0) refl refl
      (all_below-lt is_trace 32 k traces-fit l))
  where
    split :
        (a b : Bool)
        → (get_or traces k 0 == 0) ≡ a
        → (bit_and (get_or traces k 0) 63 == get_or traces k 0) ≡ b
        → (not a && b) ≡ true
        → (get_or traces k 0 ≢ 0) × (bit_and (get_or traces k 0) 63 ≡ get_or traces k 0)
    split true b p q h = cc
    split false false p q h = cc
    split false true p q h = (λ e. ground (arith, p, e), (==_iff _ _).0 q)

pub trace_of-inj : (j k : ℕ) → j < 32 → k < 32 → trace_of j ≡ trace_of k → j ≡ k
trace_of-inj j k l m e =
    split (j == k) (get_or traces j 0 == get_or traces k 0) refl
      ((==_iff _ _).1 (sym (trace_of-table j l) ∙ e ∙ trace_of-table k m))
      (all_below-lt (apart k) 32 j (all_below-lt (λ k. all_below (apart k) 32) 32 k traces-differ m)
        l)
  where
    split : (a b : Bool) → (j == k) ≡ a → b ≡ true → (a || not b) ≡ true → j ≡ k
    split true b p q h = (==_iff _ _).0 p
    split false true p q h = cc
    split false false p q h = cc

-- Bits 0 leave a register that is 0 as it is.
pub leading : (n k : ℕ) → k < n → crc_bits n (2 ^ k) 0 ≡ crc_bits (suc k) (2 ^ k) 0
leading zero k l = absurd (omega (arith, l))
leading (suc n) k l = side (eq_or_not k n) (leading n k)
  where
    side :
        (k ≡ n) ⊎ (k ≢ n)
        → (k < n → crc_bits n (2 ^ k) 0 ≡ crc_bits (suc k) (2 ^ k) 0)
        → crc_bits (suc n) (2 ^ k) 0 ≡ crc_bits (suc k) (2 ^ k) 0
    side (inl e) earlier = ap (λ t. crc_bits (suc t) (2 ^ k) 0) (sym e)
    side (inr ne) earlier = rw (none) (earlier (omega (arith, l, ne)))
      where
        none : bit_and (2 ^ k / 2 ^ n) 1 ≡ 0
        none = digit (2 ^ k) n ∙ ground (arith, bit-pow k n, ne)
