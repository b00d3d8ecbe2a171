-- ===== src/Canopen/Tests/Nodes.antt =====
-- Drives at concrete inputs: one that follows CiA 402, and the statuswords of the tests.
use hil_lab.Prelude.{ℕ, ◌≡◌, ◌↔◌, if◌then◌else◌, ◌==◌}
use hil_lab.Prelude.Bytes.{to_le, from_le}
use hil_lab.Errors.{ok}
use hil_lab.Canopen.Sdo.Port.{SdoPort}
use hil_lab.Canopen.Cia402.{
  CiA402State, not_ready, switch_on_disabled, ready_to_switch_on, switched_on, operation_enabled,
  fault, decode_state,
}
use hil_lab.Canopen.Cia402.States.{InState, decode_state_iff}

decode_state_iff_example :
    (decode_state 0x0237 ≡ operation_enabled) ↔ InState operation_enabled 0x0237
decode_state_iff_example = decode_state_iff operation_enabled 0x0237 (λ e. cc)

-- A drive whose state is the statusword's.
abbrev code : CiA402State → ℕ
code switch_on_disabled = 0x0040
code ready_to_switch_on = 0x0021
code switched_on = 0x0023
code operation_enabled = 0x0027
code fault = 0x0008
code _ = 0x0000

abbrev target : ℕ → CiA402State
target w =
    if w == 0x0080
    then switch_on_disabled
    else if w == 0x0006
    then ready_to_switch_on
    else if w == 0x0007
    then switched_on
    else if w == 0x000f
    then operation_enabled
    else not_ready

abbrev drive_port : SdoPort
drive_port = record {
  State = CiA402State;
  download =
      λ index subindex content s. (ok tt, if index == 0x6040 then target (from_le content) else s);
  upload = λ index subindex s.
      (ok (record { index = index; subindex = subindex; content = to_le 2 (code s) }), s);
}

abbrev drive_step : ℕ → ℕ → ℕ
drive_step w sw = code (target w)
