-- ===== src/Hil/Tests/Window.antt =====
-- The mapped window and the register transport at concrete inputs.
use hil_lab.Prelude.{
  ℕ, ◌%◌, ◌^◌, ◌≡◌, ◌<◌, ◌≤◌, refl, true, none, some, List, [], ◌∷◌, ◌==◌, if◌then◌else◌, arith,
  take, drop, length,
}
use hil_lab.Prelude.Bits.{bit}
use hil_lab.Prelude.Bytes.{from_le}
use hil_lab.Prelude.Int.{pos}
use hil_lab.Errors.{ok}
use hil_lab.Hil.Core.{BackendIdentity, DioEvent, axi_build}
use hil_lab.Hil.RegisterMap.{decode_capabilities, reg_control, reg_abz_step}
use hil_lab.Hil.Uio.{AbzConfig, read_timestamp, configure_abz}
use hil_lab.Hil.Uio.Mapped.{check, read32, write32, write32-read32}
use hil_lab.Hil.Uio.Registers.{Registers, register_file}
use hil_lab.Hil.Uio.Control.{safe, stop, clear, run_calls, run_calls-IsSafe}
use hil_lab.Hil.Uio.Requests.{configure_abz-writes}
use hil_lab.Hil.Uio.Clock.{
  counter_mmio, stamp, IsCounter, read_timestamp-untorn, read_timestamp-succeeds,
}

abbrev window : List ℕ
window = 1 ∷ 2 ∷ 3 ∷ 4 ∷ 5 ∷ 6 ∷ 7 ∷ 8 ∷ []

write32-read32_example :
    (s : List ℕ) × (write32 4 0x1_0000_0009 window ≡ (ok tt, s))
    × (length s ≡ 8)
    × (read32 0 s
        ≡ (ok (if 4 == 0 then 0x1_0000_0009 % 2 ^ 32 else from_le (take 4 (drop 0 window))), s))
unfolding check
write32-read32_example = write32-read32 4 0 0x1_0000_0009 window refl refl

-- FORCE_SAFE and ABZ_ENABLE are set.
abbrev idle : Registers
idle = record {
  value = λ k. if k == reg_control then 0xa else if k == 0x118 then 0 else 7;
  writes = [];
}

run_calls-IsSafe_example :
    ((run_calls (stop ∷ clear ∷ safe true ∷ []) idle).0 ≡ ok tt)
    × (bit ((run_calls (stop ∷ clear ∷ safe true ∷ []) idle).1.value reg_control) 1 ≡ 1)
run_calls-IsSafe_example = run_calls-IsSafe (stop ∷ clear ∷ safe true ∷ []) idle refl refl

abbrev reverse_abz : AbzConfig
reverse_abz = record {
  transition_ticks = some (pos 250);
  step_period_ticks = none;
  initial_phase = none;
  index_interval = none;
  index_interval_edges = none;
  direction_forward = none;
  direction = some "reverse";
}

configure_abz-writes_example :
    (w : ℕ) × ((configure_abz register_file reverse_abz idle).0 ≡ ok tt)
    × ((configure_abz register_file reverse_abz idle).1.writes
        ≡ (reg_abz_step, 250) ∷ (reg_control, w) ∷ [])
    × (bit w 4 ≡ 0)
configure_abz-writes_example = configure_abz-writes reverse_abz idle 4 refl (omega arith)

abbrev pulse : DioEvent
pulse = record { event_id = 3; target_ticks = 0x2_0000_0005; mask = 6; value = 2 }

-- A counter that stands still just below a carry.
abbrev times : ℕ → ℕ
times n = 0xffff_ffff

times-IsCounter : IsCounter times
times-IsCounter n = (omega arith, omega arith)

abbrev bench : BackendIdentity
bench = record {
  backend_type = "zynq7010_ax7010";
  hardware_revision = "A";
  firmware_revision = axi_build 1;
  api_version = "0.1";
  capabilities = decode_capabilities 3;
  tick_hz = 100_000_000;
  counter_bits = 64;
}

read_now : read_timestamp (counter_mmio times) bench 0 ≡ (ok (stamp 0xffff_ffff 100_000_000), 3)
unfolding read_timestamp
read_now = refl

read_timestamp-untorn_example :
    (i : ℕ) × (0 ≤ i) × (i < 3) × (stamp 0xffff_ffff 100_000_000 ≡ stamp (times i) 100_000_000)
read_timestamp-untorn_example =
    read_timestamp-untorn times bench 0 3 (stamp 0xffff_ffff 100_000_000) times-IsCounter read_now

read_timestamp-succeeds_example :
    (i : ℕ) × (m : ℕ) × (0 ≤ i)
    × (i < m)
    × (m ≤ 6)
    × (read_timestamp (counter_mmio times) bench 0 ≡ (ok (stamp (times i) 100_000_000), m))
read_timestamp-succeeds_example =
    read_timestamp-succeeds times bench 0 times-IsCounter (λ h. absurd (omega (arith, h)))
      (omega arith)
