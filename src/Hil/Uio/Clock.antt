-- ===== src/Hil/Uio/Clock.antt =====
-- host/hil/transports/uio.py, `read_timestamp` against a 64-bit counter that runs on between the
-- register reads.
use hil_lab.Prelude.{
  ℕ, zero, suc, ◌+◌, ◌*◌, ◌/◌, ◌%◌, ◌^◌, ◌≤◌, ◌<◌, ◌≡◌, ◌≢◌, sym, ap, ◌∙◌, ◌==◌, if◌then◌else◌,
  bit_or, arith, inl, inr, eq_or_not,
}
use hil_lab.Prelude.Bits.Fields.{bit_or-fields}
use hil_lab.Errors.{ok, Exec, lift}
use hil_lab.Hil.Core.{Timestamp, BackendIdentity, make_timestamp}
use hil_lab.Hil.RegisterMap.{reg_timestamp_lo, reg_timestamp_hi}
use hil_lab.Hil.Uio.{Mmio32, timestamp_loop, read_timestamp}

-- The counter at each access to the window, in order.
module _ (times : ℕ → ℕ) where
  -- The window at access `n`: the two halves of the counter. Nothing else is read here.
  abbrev pub counter_read : ℕ → ℕ → ℕ
  counter_read offset n =
      if offset == reg_timestamp_lo
      then times n % 2 ^ 32
      else if offset == reg_timestamp_hi
      then times n / 2 ^ 32
      else 0

  abbrev pub counter_mmio : Mmio32
  counter_mmio = record {
    State = ℕ;
    read32 = λ offset n. (ok (counter_read offset n), suc n);
    write32 = λ offset v n. (ok tt, suc n);
  }

abbrev pub IsCounter : (ℕ → ℕ) → Type 0
IsCounter times = (n : ℕ) → (times n ≤ times (suc n)) × (times n < 2 ^ 64)

abbrev pub stamp : ℕ → ℕ → Timestamp
stamp t hz = record { ticks = t; tick_hz = hz; counter_bits = 64 }

make_timestamp-eq-ok :
    (ticks hz : ℕ) (t : Timestamp) → make_timestamp ticks hz 64 ≡ ok t → t ≡ stamp ticks hz
unfolding make_timestamp
make_timestamp-eq-ok ticks hz t h = ground arith

module _ (times : ℕ → ℕ) (counter : IsCounter times) (tick_hz : ℕ) where
  joined :
      (k : ℕ)
      → times k / 2 ^ 32 ≡ times (suc (suc k)) / 2 ^ 32
      → bit_or (times k / 2 ^ 32 * 2 ^ 32) (times (suc k) % 2 ^ 32) ≡ times (suc k)
  joined k h = omega (
    arith,
    h,
    bit_or-fields 32 (times k / 2 ^ 32) (times (suc k) % 2 ^ 32) (omega arith),
    (counter k).0,
    (counter (suc k)).0,
  )

  steady :
      (n k : ℕ)
      → times k / 2 ^ 32 ≡ times (suc (suc k)) / 2 ^ 32
      → timestamp_loop (counter_mmio times) tick_hz (suc n) k
        ≡ (make_timestamp (times (suc k)) tick_hz 64, suc (suc (suc k)))
  unfolding timestamp_loop
  steady n k h =
      read (timestamp_loop (counter_mmio times) tick_hz n)
      ∙ ap (λ t. (make_timestamp t tick_hz 64, suc (suc (suc k)))) (joined k h)
    where
      torn : Exec ℕ Timestamp → Exec ℕ Timestamp
      torn rest =
          if times k / 2 ^ 32 == times (suc (suc k)) / 2 ^ 32
          then lift (
              make_timestamp (bit_or (times k / 2 ^ 32 * 2 ^ 32) (times (suc k) % 2 ^ 32)) tick_hz
                64)
          else rest

      read :
          (rest : Exec ℕ Timestamp)
          → torn rest (suc (suc (suc k))) ≡ (
            make_timestamp (bit_or (times k / 2 ^ 32 * 2 ^ 32) (times (suc k) % 2 ^ 32)) tick_hz 64,
            suc (suc (suc k)),
          )
      read rest = ground arith

  rolled :
      (n k : ℕ)
      → times k / 2 ^ 32 ≢ times (suc (suc k)) / 2 ^ 32
      → timestamp_loop (counter_mmio times) tick_hz (suc n) k
        ≡ timestamp_loop (counter_mmio times) tick_hz n (suc (suc (suc k)))
  unfolding timestamp_loop
  rolled n k h = ground arith

  timestamp_loop-untorn :
      (n k m : ℕ) (t : Timestamp)
      → timestamp_loop (counter_mmio times) tick_hz n k ≡ (ok t, m)
      → (i : ℕ) × (k ≤ i) × (i < m) × (t ≡ stamp (times i) tick_hz)
  unfolding timestamp_loop
  timestamp_loop-untorn zero k m t h = cc
  timestamp_loop-untorn (suc n) k m t h =
      elim (eq_or_not (times k / 2 ^ 32) (times (suc (suc k)) / 2 ^ 32)) [
        | inl e ↦ (
          suc k,
          omega arith,
          omega (arith, ap (λ p. p.1) (sym (steady n k e) ∙ h)),
          make_timestamp-eq-ok (times (suc k)) tick_hz t (ap (λ p. p.0) (sym (steady n k e) ∙ h)),
        )
        | inr r ↦
            let (i, x, y, z) =
              timestamp_loop-untorn n (suc (suc (suc k))) m t (sym (rolled n k r) ∙ h) in
            (i, omega (arith, x), y, z)
      ]

  timestamp_loop-succeeds :
      (n k : ℕ)
      → tick_hz ≢ 0
      → times (k + 5) < times k + 2 ^ 32
      → (i : ℕ) × (m : ℕ) × (k ≤ i)
        × (i < m)
        × (m ≤ k + 6)
        × (timestamp_loop (counter_mmio times) tick_hz (suc (suc n)) k
            ≡ (ok (stamp (times i) tick_hz), m))
  unfolding make_timestamp
  timestamp_loop-succeeds n k h g =
      elim (eq_or_not (times k / 2 ^ 32) (times (suc (suc k)) / 2 ^ 32)) [
        | inl e ↦ (
          suc k,
          suc (suc (suc k)),
          omega arith,
          omega arith,
          omega arith,
          steady (suc n) k e ∙ ap (λ r. (r, suc (suc (suc k)))) (made (suc k)),
        )
        | inr r ↦ (
          suc (suc (suc (suc k))),
          suc (suc (suc (suc (suc (suc k))))),
          omega arith,
          omega arith,
          omega arith,
          rolled (suc n) k r
              ∙ (steady n (suc (suc (suc k))) (again r)
                  ∙ ap (λ r. (r, suc (suc (suc (suc (suc (suc k)))))))
                      (made (suc (suc (suc (suc k)))))),
        )
      ]
    where
      made : (i : ℕ) → make_timestamp (times i) tick_hz 64 ≡ ok (stamp (times i) tick_hz)
      made i = ground (arith, h)

      sixth : (k : ℕ) → k + 5 ≡ suc (suc (suc (suc (suc k))))
      sixth k = omega arith

      again :
          times k / 2 ^ 32 ≢ times (suc (suc k)) / 2 ^ 32
          → times (suc (suc (suc k))) / 2 ^ 32 ≡ times (suc (suc (suc (suc (suc k))))) / 2 ^ 32
      again r = omega (
        arith,
        r,
        ap times (sixth k),
        (counter k).0,
        (counter (suc k)).0,
        (counter (suc (suc k))).0,
        (counter (suc (suc (suc k)))).0,
        (counter (suc (suc (suc (suc k))))).0,
        g,
      )

-- A timestamp is the counter's value at one of the accesses that were made, never a mix of two
-- values, whatever the counter does meanwhile, and it carries the rate of the identity.
pub read_timestamp-untorn :
    (times : ℕ → ℕ) (identity : BackendIdentity) (k m : ℕ) (t : Timestamp)
    → IsCounter times
    → read_timestamp (counter_mmio times) identity k ≡ (ok t, m)
    → (i : ℕ) × (k ≤ i) × (i < m) × (t ≡ stamp (times i) identity.tick_hz)
unfolding read_timestamp
read_timestamp-untorn times identity k m t counter h =
    timestamp_loop-untorn times counter identity.tick_hz 8 k m t h

-- While the counter runs less than 2^32 ticks over six accesses, the call succeeds within these six
-- and gives the counter's value at one of them.
pub read_timestamp-succeeds :
    (times : ℕ → ℕ) (identity : BackendIdentity) (k : ℕ)
    → IsCounter times
    → identity.tick_hz ≢ 0
    → times (k + 5) < times k + 2 ^ 32
    → (i : ℕ) × (m : ℕ) × (k ≤ i)
      × (i < m)
      × (m ≤ k + 6)
      × (read_timestamp (counter_mmio times) identity k
          ≡ (ok (stamp (times i) identity.tick_hz), m))
unfolding read_timestamp
read_timestamp-succeeds times identity k counter h g =
    timestamp_loop-succeeds times counter identity.tick_hz 6 k h g
