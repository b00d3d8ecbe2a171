-- ===== src/Bbb/Raw.antt =====
-- boards/beaglebone_black/host/hil_raw_shared.py: the raw edge capture that the PRU leaves in shared
-- memory, its validation, and its records. The child modules have the analysis.
pub mod Analysis
pub mod Ticks
pub mod Histogram
pub mod Levels
pub mod Periods
pub mod Pairs
pub mod Overlaps
pub mod Stale
use hil_lab.Prelude.{
  ℕ, suc, ◌+◌, ◌^◌, min, Bool, true, false, List, [], ◌∷◌, not, ◌==◌, ltb, if◌then◌else◌, bit_or,
  bit_xor, take,
}
use hil_lab.Prelude.Bits.{any_bits}
use hil_lab.Errors.{Result, ok, err, bind, runtime_error}

abbrev pub raw_magic : ℕ
raw_magic = 0x3157_4152

abbrev pub raw_version : ℕ
raw_version = 1

abbrev pub raw_capacity : ℕ
raw_capacity = 1024

abbrev pub raw_shared_size : ℕ
raw_shared_size = 8256

abbrev pub raw_masks : List ℕ
raw_masks = 2 ^ 1 ∷ 2 ^ 2 ∷ 2 ^ 3 ∷ 2 ^ 5 ∷ 2 ^ 14 ∷ 2 ^ 15 ∷ []

pub record RawEdgeRecord : Type 0 where
  pub timestamp_ticks : ℕ
  pub raw_inputs : ℕ

-- `ring` has `raw_capacity` records, as the array of the source does.
pub record RawCaptureShared : Type 0 where
  pub magic : ℕ
  pub version : ℕ
  pub total_size : ℕ
  pub tick_hz : ℕ
  pub capacity : ℕ
  pub running : ℕ
  pub configured_event_limit : ℕ
  pub event_count : ℕ
  pub initial_raw_inputs : ℕ
  pub final_raw_inputs : ℕ
  pub start_ticks : ℕ
  pub stop_ticks : ℕ
  pub stop_reason : ℕ
  pub input_mask : ℕ
  pub generation : ℕ
  pub overflow_count : ℕ
  pub ring : List RawEdgeRecord

-- The loop of `raw_to_logical`, with the masks that are left.
unfoldable pub logical_loop : ℕ → ℕ → ℕ → List ℕ → ℕ
logical_loop raw_inputs index logical [] = logical
logical_loop raw_inputs index logical (mask ∷ masks) =
    logical_loop raw_inputs (suc index)
      (if any_bits raw_inputs mask then bit_or logical (2 ^ index) else logical) masks

unfoldable pub raw_to_logical : ℕ → ℕ
unfolding logical_loop
raw_to_logical raw_inputs = logical_loop raw_inputs 0 0 raw_masks

unfoldable pub validate : RawCaptureShared → Result (Unit {0})
validate shared =
    if not (shared.magic == raw_magic)
    then err runtime_error
    else if not (shared.version == raw_version)
    then err runtime_error
    else if not (shared.total_size == raw_shared_size)
    then err runtime_error
    else if not (shared.capacity == raw_capacity)
    then err runtime_error
    else if ltb raw_capacity shared.event_count
    then err runtime_error
    else ok tt

pub record RawRecord : Type 0 where
  pub index : ℕ
  pub timestamp_ticks : ℕ
  pub raw_inputs : ℕ
  pub logical_inputs : ℕ
  pub changed_inputs : ℕ

-- The loop of `raw_records`, from `index` on.
unfoldable pub records_loop : ℕ → ℕ → List RawEdgeRecord → List RawRecord
unfolding raw_to_logical
records_loop index previous_logical [] = []
records_loop index previous_logical (item ∷ items) =
    let logical = raw_to_logical item.raw_inputs in
    record {
      index = index;
      timestamp_ticks = item.timestamp_ticks;
      raw_inputs = item.raw_inputs;
      logical_inputs = logical;
      changed_inputs = bit_xor logical previous_logical;
    }
    ∷ records_loop (suc index) logical items

unfoldable pub raw_records : RawCaptureShared → Result (List RawRecord)
unfolding validate records_loop raw_to_logical
raw_records shared = bind (validate shared) λ d. ok (
    records_loop 0 (raw_to_logical shared.initial_raw_inputs)
      (take (min shared.event_count raw_capacity) shared.ring))
