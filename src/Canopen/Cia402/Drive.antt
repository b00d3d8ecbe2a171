-- ===== src/Canopen/Cia402/Drive.antt =====
-- fieldbus/canopen/cia402.py: the enabling loop on a drive that follows the state machine of CiA 402.
use hil_lab.Prelude.{ℕ, ◌<◌, ◌≡◌, true}
use hil_lab.Prelude.Int.{pos}
use hil_lab.Errors.{Result, ok, Exec}
use hil_lab.Canopen.Sdo.Port.{SdoPort, download_i8, download_u16, upload_u16}
use hil_lab.Canopen.Cia402.{
  CiA402State, not_ready, switch_on_disabled, ready_to_switch_on, switched_on, operation_enabled,
  quick_stop_active, fault_reaction_active, fault, unknown, is_mode,
}
use hil_lab.Canopen.Cia402.States.{InState}

-- The transitions of CiA 402 that the host commands, on statuswords.
pub record FollowsCia402 (step : ℕ → ℕ → ℕ) : Type 0 where
  pub resets : (sw : ℕ) → InState fault sw → InState switch_on_disabled (step 0x0080 sw)
  pub shuts_down :
      (sw : ℕ) → InState switch_on_disabled sw → InState ready_to_switch_on (step 0x0006 sw)
  pub switches_on : (sw : ℕ) → InState ready_to_switch_on sw → InState switched_on (step 0x0007 sw)
  pub enables : (sw : ℕ) → InState switched_on sw → InState operation_enabled (step 0x000f sw)
  pub resumes : (sw : ℕ) → InState quick_stop_active sw → InState operation_enabled (step 0x000f sw)

-- A server behind which such a drive sits: its statusword is read, a controlword moves it, and the
-- mode object and the NMT start command leave it where it is.
pub record IsDrive (sdo : SdoPort) (start_nmt : Exec sdo.State Unit) (status : sdo.State → ℕ)
    (step : ℕ → ℕ → ℕ) : Type 0 where
  pub reads : (s : sdo.State) → upload_u16 sdo 0x6041 0 s ≡ (ok (status s), s)
  pub moves :
      (w : ℕ) (s : sdo.State)
      → w < 65536
      → (t : sdo.State) × (download_u16 sdo 0x6040 0 (pos w) s ≡ (ok tt, t))
        × (status t ≡ step w (status s))
  pub takes_mode :
      (m : ℕ) (s : sdo.State)
      → is_mode (pos m) ≡ true
      → (t : sdo.State) × (download_i8 sdo 0x6060 0 (pos m) s ≡ (ok tt, t)) × (status t ≡ status s)
  pub starts :
      (s : sdo.State) → (t : sdo.State) × (start_nmt s ≡ (ok tt, t)) × (status t ≡ status s)

-- The states from which CiA 402 lets the host enable a drive, and how many commands that takes.
abbrev pub commands : CiA402State → ℕ
commands fault = 4
commands switch_on_disabled = 3
commands ready_to_switch_on = 2
commands switched_on = 1
commands quick_stop_active = 1
commands operation_enabled = 0
commands not_ready = 0
commands fault_reaction_active = 0
commands unknown = 0

abbrev pub CanEnable : CiA402State → Type 0
CanEnable not_ready = ⊥
CanEnable fault_reaction_active = ⊥
CanEnable unknown = ⊥
CanEnable _ = Unit

module _ (sdo : SdoPort) (start_nmt : Exec sdo.State Unit) (status : sdo.State → ℕ)
    (step : ℕ → ℕ → ℕ) (follows : FollowsCia402 step)
    (drive : IsDrive sdo start_nmt status step) where
  abbrev Enabled : Result CiA402State × sdo.State → Type 0
  Enabled (r, t) = (r ≡ ok operation_enabled) × InState operation_enabled (status t)
