-- ===== src/Hil/Uio/Requests.antt =====
-- host/hil/transports/uio.py, `configure_abz` and `schedule_dio` by the registers they write.
use hil_lab.Prelude.{
  ℕ, ◌+◌, ◌*◌, ◌/◌, ◌%◌, ◌^◌, ◌<◌, ◌≡◌, refl, sym, ap, ◌∙◌, Bool, true, false, List, [], ◌∷◌, ◌++◌,
  ◌==◌, if◌then◌else◌, ◌&&◌, bit_or, arith,
}
use mathlib.Core.List.{append_assoc}
use hil_lab.Prelude.Int.{pos, is_pos}
use hil_lab.Prelude.Bits.{bit, and_not, any_bits, any_bits-pow}
use hil_lab.Prelude.Bits.Flags.{bit-set, bit-clear, bit-mask}
use hil_lab.Prelude.Bits.Fields.{bit_and-mask}
use hil_lab.Errors.{ok, err, invalid_configuration, infrastructure}
use hil_lab.Hil.Core.{DioEvent}
use hil_lab.Hil.RegisterMap.{
  reg_control, reg_abz_step, reg_evt_status, reg_evt_ts_lo, reg_evt_ts_hi, reg_evt_mask,
  reg_evt_value, reg_evt_id, reg_evt_push,
}
use hil_lab.Hil.Uio.{
  low_word, AbzConfig, get, is_positive, magnitude, ticks_of, goes_forward, configure_abz,
  schedule_dio,
}
use hil_lab.Hil.Uio.Registers.{Registers, register_file}

-- What the register core accepts: a positive period, the phase 0 and no index interval.
abbrev pub is_accepted : AbzConfig → Bool
is_accepted config =
    is_positive (ticks_of config)
    && (is_pos (get config.initial_phase (pos 0)) 0
        && is_pos (get config.index_interval (get config.index_interval_edges (pos 0))) 0)

-- A configuration with another phase, an index interval or a period that is not positive is refused
-- before any register is written.
pub configure_abz-refused :
    (config : AbzConfig) (s : Registers)
    → is_accepted config ≡ false
    → configure_abz register_file config s ≡ (err invalid_configuration, s)
unfolding configure_abz
configure_abz-refused config s h = ground arith

directed : AbzConfig → ℕ → ℕ
directed config c = low_word (if goes_forward config then bit_or c 16 else and_not c 16)

configure_abz-run :
    (config : AbzConfig) (s : Registers)
    → is_accepted config ≡ true
    → ((configure_abz register_file config s).0 ≡ ok tt)
      × ((configure_abz register_file config s).1.writes
          ≡ (s.writes ++ (reg_abz_step, low_word (magnitude (ticks_of config))) ∷ [])
            ++ (reg_control, directed config (s.value reg_control)) ∷ [])
unfolding configure_abz directed
configure_abz-run config s h = ground arith

bit-directed :
    (config : AbzConfig) (c k : ℕ)
    → k < 32
    → bit (directed config c) k
      ≡ (if k == 4 then (if goes_forward config then 1 else 0) else bit c k)
unfolding directed
bit-directed config c k h = bit-mask _ 32 k h ∙ flag (goes_forward config)
  where
    flag :
        (b : Bool)
        → bit (if b then bit_or c 16 else and_not c 16) k
          ≡ (if k == 4 then (if b then 1 else 0) else bit c k)
    flag true = bit-set c 4 k
    flag false = bit-clear c 4 k

-- An accepted configuration writes the period, reduced to 32 bits, and then the CONTROL word, in
-- which bit 4 becomes the direction and the other 31 bits keep their values.
pub configure_abz-writes :
    (config : AbzConfig) (s : Registers) (k : ℕ)
    → is_accepted config ≡ true
    → k < 32
    → (w : ℕ) × ((configure_abz register_file config s).0 ≡ ok tt)
      × ((configure_abz register_file config s).1.writes
          ≡ s.writes
            ++ (reg_abz_step, magnitude (ticks_of config) % 2 ^ 32) ∷ (reg_control, w) ∷ [])
      × (bit w k ≡ (
          if k == 4 then (if goes_forward config then 1 else 0) else bit (s.value reg_control) k))
unfolding configure_abz
configure_abz-writes config s k h b = (
  directed config (s.value reg_control),
  (configure_abz-run config s h).0,
  (configure_abz-run config s h).1
      ∙ append_assoc s.writes _ _
      ∙ ap
          (λ p.
            s.writes
            ++ (reg_abz_step, p) ∷ (reg_control, directed config (s.value reg_control)) ∷ [])
          (bit_and-mask 32 (magnitude (ticks_of config))),
  bit-directed config (s.value reg_control) k b,
)

append-six :
    {A : Type 0} (ws : List A) (a b c d e f : A)
    → (((((ws ++ a ∷ []) ++ b ∷ []) ++ c ∷ []) ++ d ∷ []) ++ e ∷ []) ++ f ∷ []
      ≡ ws ++ a ∷ b ∷ c ∷ d ∷ e ∷ f ∷ []
append-six [] a b c d e f = refl
append-six (w ∷ ws) a b c d e f = ap (λ t. w ∷ t) (append-six ws a b c d e f)

-- A full event queue refuses the event and writes nothing.
pub schedule_dio-full :
    (event : DioEvent) (s : Registers)
    → bit (s.value reg_evt_status) 1 ≡ 1
    → schedule_dio register_file event s ≡ (err infrastructure, s)
unfolding schedule_dio
schedule_dio-full event s h = ground (arith, any_bits-pow (s.value reg_evt_status) 1)

-- With room in the queue the call succeeds and writes the six event registers in order, the push
-- last. They hold the 64 low bits of the target, in two words, and the 32 low bits of the mask, of
-- the value and of the number.
pub schedule_dio-writes :
    (event : DioEvent) (s : Registers)
    → bit (s.value reg_evt_status) 1 ≡ 0
    → (lo : ℕ) × (hi : ℕ) × ((schedule_dio register_file event s).0 ≡ ok tt)
      × ((schedule_dio register_file event s).1.writes
          ≡ s.writes
            ++ (reg_evt_ts_lo, lo)
              ∷ (reg_evt_ts_hi, hi)
              ∷ (reg_evt_mask, event.mask % 2 ^ 32)
              ∷ (reg_evt_value, event.value % 2 ^ 32)
              ∷ (reg_evt_id, event.event_id % 2 ^ 32)
              ∷ (reg_evt_push, 1)
              ∷ [])
      × (hi * 2 ^ 32 + lo ≡ event.target_ticks % 2 ^ 64)
unfolding schedule_dio
schedule_dio-writes event s h = (
  low_word (low_word event.target_ticks),
  low_word (low_word (event.target_ticks / 2 ^ 32)),
  rw (room) refl,
  rw
      (
        room,
        sym (bit_and-mask 32 event.mask),
        sym (bit_and-mask 32 event.value),
        sym (bit_and-mask 32 event.event_id),
      )
      (append-six s.writes _ _ _ _ _ _),
  omega (
    arith,
    bit_and-mask 32 (low_word event.target_ticks),
    bit_and-mask 32 (low_word (event.target_ticks / 2 ^ 32)),
    bit_and-mask 32 event.target_ticks,
    bit_and-mask 32 (event.target_ticks / 2 ^ 32),
  ),
)
  where
    room : any_bits (s.value reg_evt_status) 2 ≡ false
    room = ground (arith, any_bits-pow (s.value reg_evt_status) 1)
