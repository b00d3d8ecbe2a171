-- ===== src/Hil/Tests/Board.antt =====
-- The Zynq backend on register windows and on failing transports at concrete inputs.
use hil_lab.Prelude.{ℕ, ◌≡◌, refl, String, true, none, some, [], ◌==◌, if◌then◌else◌, suc}
use hil_lab.Errors.{ok, err, pure, runtime_error}
use hil_lab.Hil.Capability.{force_safe, has_required}
use hil_lab.Hil.Core.{BackendIdentity, Timestamp}
use hil_lab.Hil.RegisterMap.{decode_capabilities}
use hil_lab.Hil.Uio.Handshake.{Negotiates, identity_of}
use hil_lab.Hil.Uio.Registers.{Registers}
use hil_lab.Hil.Zynq.{Transport, read_timestamp, ax7010_types}
use hil_lab.Hil.Zynq.Errors.{safe, perform, RaisesOnly, perform-RaisesOnly}
use hil_lab.Hil.Zynq.Opening.{open_uio-ok, open_uio-eq-ok}

-- The window of an AX7010 bitstream with the required capabilities only.
abbrev bitstream : Registers
bitstream = record {
  value = λ k.
      if k == 0
      then 0x4849_4c32
      else if k == 4
      then 0x0001_0003
      else if k == 8
      then 0x0000_7010
      else if k == 12
      then 3
      else if k == 16
      then 100_000_000
      else if k == 20
      then 64
      else 0;
  writes = [];
}

bitstream-Negotiates : Negotiates (some "zynq7010_ax7010") bitstream "zynq7010_ax7010"
bitstream-Negotiates = (refl, refl, refl, refl, (λ h. cc), refl)

open_uio-eq-ok_example :
    (found : String) × Negotiates (some "zynq7010_ax7010") bitstream found
    × (identity_of bitstream "zynq7010_ax7010" "AX7010" ≡ identity_of bitstream found "AX7010")
    × (has_required (decode_capabilities 3) ≡ true)
    × (bitstream ≡ bitstream)
unfolding decode_capabilities
open_uio-eq-ok_example =
    open_uio-eq-ok "zynq7010_ax7010" "AX7010" ax7010_types bitstream bitstream
      (identity_of bitstream "zynq7010_ax7010" "AX7010")
      (open_uio-ok "zynq7010_ax7010" "AX7010" ax7010_types bitstream bitstream-Negotiates refl refl)

abbrev board : BackendIdentity
board = identity_of bitstream "zynq7010_ax7010" "AX7010"

abbrev now : Timestamp
now = record { ticks = 7; tick_hz = 100_000_000; counter_bits = 64 }

-- A transport that counts its calls: it answers a timestamp, and every other call fails.
abbrev broken : Transport
broken = record {
  State = ℕ;
  Status = ℕ;
  read_identity = pure (some board);
  read_timestamp = some (λ n. (ok (some now), suc n));
  force_safe = some (λ asserted n. (err runtime_error, suc n));
  health = none;
  read_pwm = none;
  configure_abz = none;
  start_abz = some (λ n. (ok tt, suc n));
  stop_abz = none;
  schedule_dio = none;
}

perform-RaisesOnly_example : RaisesOnly force_safe (perform broken board (safe true) 0).0
perform-RaisesOnly_example = perform-RaisesOnly broken board (safe true) 0

read_now : read_timestamp broken board 0 ≡ (ok now, 1)
unfolding read_timestamp decode_capabilities
read_now = refl
