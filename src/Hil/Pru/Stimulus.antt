-- ===== src/Hil/Pru/Stimulus.antt =====
-- host/hil/backends/beaglebone_pru.py: the ABZ request, read back as the firmware's encoder documents.
use hil_lab.Prelude.{
  ℕ, ◌*◌, ◌^◌, ◌≤◌, ◌<◌, ◌≡◌, ◌≢◌, refl, Bool, true, false, some, if◌then◌else◌, bit_or, arith, ◌⊎◌,
}
use hil_lab.Prelude.Int.{pos}
use hil_lab.Bbb.Abz.{decode_config_flags, decode_config_flags-word}
use hil_lab.Bbb.Protocol.{msg_abz_config}
use hil_lab.Bbb.Rpc.{Args}
use hil_lab.Hil.Capability.{abz_generator}
use hil_lab.Hil.Core.{BackendIdentity, supports}
use hil_lab.Hil.Uio.{get}
use hil_lab.Hil.Pru.{
  Board, AbzConfig, abz_numbers, interval_of, width_of, ask_stimulus, configure_abz,
}

-- A configuration of non-negative numbers that the guards let through.
abbrev pub IsAccepted : AbzConfig → ℕ → ℕ → ℕ → ℕ → Type 0
IsAccepted config ticks phase interval width =
    (get config.transition_ticks (pos 0) ≡ pos ticks)
    × (get config.initial_phase (pos 0) ≡ pos phase)
    × (interval_of config ≡ pos interval)
    × (width_of config ≡ pos width)
    × (ticks ≢ 0)
    × (phase < 4)
    × ((interval ≡ 0) ⊎ (width ≤ interval))

abz_numbers-some :
    (ticks phase interval width : ℕ) (forward : Bool)
    → ticks ≢ 0
    → phase < 4
    → (interval ≡ 0) ⊎ (width ≤ interval)
    → abz_numbers (pos ticks) (pos phase) (pos interval) (pos width) forward
      ≡ some (record {
        arg0 = ticks;
        arg1 = interval;
        arg2 = width;
        arg3 = bit_or (if forward then 0 else 1) (phase * 2 ^ 8);
      })
abz_numbers-some ticks phase interval width forward e f g = ground (arith, e, f, g)

-- A configuration of non-negative numbers that passes the guards is asked of the second client as a
-- request of its numbers, whose flag word decodes, by the decoder of the firmware's tools, to its
-- direction and phase.
pub configure_abz-decodes :
    (board : Board) (identity : BackendIdentity) (config : AbzConfig)
    (ticks phase interval width : ℕ) (s : board.State)
    → supports identity abz_generator ≡ true
    → IsAccepted config ticks phase interval width
    → (args : Args) × (configure_abz board identity config s
        ≡ ask_stimulus board identity msg_abz_config args s)
      × (args.arg0 ≡ ticks)
      × (args.arg1 ≡ interval)
      × (args.arg2 ≡ width)
      × (decode_config_flags args.arg3
          ≡ (if get config.direction_forward true then "forward" else "reverse", phase))
unfolding configure_abz
configure_abz-decodes board identity config ticks phase interval width s h (a, b, c, d, e, f, g) = (
  record {
    arg0 = ticks;
    arg1 = interval;
    arg2 = width;
    arg3 = bit_or (if get config.direction_forward true then 0 else 1) (phase * 2 ^ 8);
  },
  rw
      (
        h,
        a,
        b,
        d,
        c,
        abz_numbers-some ticks phase interval width (get config.direction_forward true) e f g,
      )
      refl,
  refl,
  refl,
  refl,
  word (get config.direction_forward true),
)
  where
    word :
        (forward : Bool)
        → decode_config_flags (bit_or (if forward then 0 else 1) (phase * 2 ^ 8))
          ≡ (if forward then "forward" else "reverse", phase)
    word true = decode_config_flags-word false phase f
    word false = decode_config_flags-word true phase f
