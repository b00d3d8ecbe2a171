-- ===== src/Canopen/Cia402/States.antt =====
-- The statusword decoding against the state table of CiA 402, bit by bit.
use hil_lab.Prelude.{ℕ, ◌+◌, ◌*◌, ◌/◌, ◌%◌, ◌≡◌, ◌≢◌, ◌↔◌, refl, arith, bit_and}
use hil_lab.Prelude.Bits.{bit, mask-even, mask-odd, mask-one}
use hil_lab.Canopen.Cia402.{
  CiA402State, not_ready, switch_on_disabled, ready_to_switch_on, switched_on, operation_enabled,
  quick_stop_active, fault_reaction_active, fault, unknown, decode_state,
}

-- The table of CiA 402: the four low bits, then bit 5 (quick stop) and bit 6 (switch on disabled)
-- where the table does not leave them open.
abbrev pub InState : CiA402State → ℕ → Type 0
InState not_ready sw = (sw % 16 ≡ 0) × (bit sw 6 ≡ 0)
InState switch_on_disabled sw = (sw % 16 ≡ 0) × (bit sw 6 ≡ 1)
InState ready_to_switch_on sw = (sw % 16 ≡ 1) × (bit sw 5 ≡ 1) × (bit sw 6 ≡ 0)
InState switched_on sw = (sw % 16 ≡ 3) × (bit sw 5 ≡ 1) × (bit sw 6 ≡ 0)
InState operation_enabled sw = (sw % 16 ≡ 7) × (bit sw 5 ≡ 1) × (bit sw 6 ≡ 0)
InState quick_stop_active sw = (sw % 16 ≡ 7) × (bit sw 5 ≡ 0) × (bit sw 6 ≡ 0)
InState fault_reaction_active sw = (sw % 16 ≡ 15) × (bit sw 6 ≡ 0)
InState fault sw = (sw % 16 ≡ 8) × (bit sw 6 ≡ 0)
InState unknown sw = ⊥

mask_4f : (x : ℕ) → bit_and x 0x4f ≡ x % 16 + 64 * bit x 6
mask_4f x = omega (
  arith,
  mask-odd x 39,
  mask-odd (x / 2) 19,
  mask-odd (x / 2 / 2) 9,
  mask-odd (x / 2 / 2 / 2) 4,
  mask-even (x / 2 / 2 / 2 / 2) 2,
  mask-even (x / 2 / 2 / 2 / 2 / 2) 1,
  mask-one (x / 2 / 2 / 2 / 2 / 2 / 2),
)

mask_6f : (x : ℕ) → bit_and x 0x6f ≡ x % 16 + 32 * bit x 5 + 64 * bit x 6
mask_6f x = omega (
  arith,
  mask-odd x 55,
  mask-odd (x / 2) 27,
  mask-odd (x / 2 / 2) 13,
  mask-odd (x / 2 / 2 / 2) 6,
  mask-even (x / 2 / 2 / 2 / 2) 3,
  mask-odd (x / 2 / 2 / 2 / 2 / 2) 1,
  mask-one (x / 2 / 2 / 2 / 2 / 2 / 2),
)

-- Every statusword decodes to a state exactly when its bits are those that the table of CiA 402
-- gives for the state.
pub decode_state_iff :
    (state : CiA402State) (sw : ℕ) → state ≢ unknown → (decode_state sw ≡ state) ↔ InState state sw
unfolding decode_state
decode_state_iff not_ready sw h = ground (arith, mask_4f sw, mask_6f sw)
decode_state_iff switch_on_disabled sw h = ground (arith, mask_4f sw, mask_6f sw)
decode_state_iff ready_to_switch_on sw h = ground (arith, mask_4f sw, mask_6f sw)
decode_state_iff switched_on sw h = ground (arith, mask_4f sw, mask_6f sw)
decode_state_iff operation_enabled sw h = ground (arith, mask_4f sw, mask_6f sw)
decode_state_iff quick_stop_active sw h = ground (arith, mask_4f sw, mask_6f sw)
decode_state_iff fault_reaction_active sw h = ground (arith, mask_4f sw, mask_6f sw)
decode_state_iff fault sw h = ground (arith, mask_4f sw, mask_6f sw)
decode_state_iff unknown sw h = absurd (h refl)
