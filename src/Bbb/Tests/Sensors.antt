-- ===== src/Bbb/Tests/Sensors.antt =====
-- Concrete runs of the command line of the serial sensor.
use hil_lab.Prelude.{ℕ, ◌≡◌, refl, Bool, true, false, Option, some}
use hil_lab.Errors.{Result, ok, err, OnOk}
use hil_lab.Bbb.Rpc.Late.{queue}
use hil_lab.Bbb.SensorConsole.{DataOptions, write_data}
use hil_lab.Bbb.SensorConsole.Preview.{IsShown, write_data-IsShown}
use hil_lab.Bbb.Tests.Captures.{whole}
use hil_lab.Bbb.Tests.Consoles.{acknowledging, new_client}

abbrev position : Option ℕ → DataOptions
position bits = record {
  value = 0x123_4567;
  fault_mask = 0;
  fault_enable = false;
  error_active = true;
  warning_active = false;
  preview_biss_bits = bits;
}

write_data-IsShown_example :
    OnOk
      (IsShown whole
        (queue acknowledging)
        (position (some 26))
        new_client
        (write_data whole (queue acknowledging) (λ c. (ok 0, c)) (position (some 26)) new_client).1)
      (write_data whole (queue acknowledging) (λ c. (ok 0, c)) (position (some 26)) new_client).0
write_data-IsShown_example =
    write_data-IsShown whole (queue acknowledging) (λ c. (ok 0, c)) (position (some 26)) new_client

-- The number of the next request after a run, and whether the run failed.
abbrev failed : {A : Type 0} → Result A → Bool
failed (ok a) = false
failed (err e) = true

-- A width that cannot be previewed is refused after the data were sent.
too_wide :
    failed
      (write_data whole (queue acknowledging) (λ c. (ok 0, c)) (position (some 40)) new_client).0
    ≡ true
unfolding write_data
too_wide = refl

too_wide_sent :
    (write_data whole (queue acknowledging) (λ c. (ok 0, c)) (position (some 40)) new_client).1.seq
    ≡ 2
unfolding write_data
too_wide_sent = refl

shown :
    failed
      (write_data whole (queue acknowledging) (λ c. (ok 0, c)) (position (some 26)) new_client).0
    ≡ false
unfolding write_data
shown = refl
