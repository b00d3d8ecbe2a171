-- ===== src/Bbb/Devmem.antt =====
-- The readers of shared memory over /dev/mem: `read_frozen_raw_capture` of hil_raw_shared.py and
-- `read_consistent_snapshot` of hil_pwm_shared.py, in boards/beaglebone_black/host.
pub mod Handles
use hil_lab.Prelude.{
  ℕ, zero, suc, ◌+◌, ◌*◌, Bool, true, false, List, [], ◌∷◌, not, ◌==◌, ltb, if◌then◌else◌, length,
  drop,
}
use hil_lab.Errors.{
  Result, ok, err, Exec, pure, lift, raise_if, ◌>>=◌, ◌>>◌, finally, value_error, runtime_error,
}
use hil_lab.Bbb.Raw.{RawEdgeRecord, RawCaptureShared, raw_shared_size, raw_capacity, validate}
use hil_lab.Bbb.Snapshot.{word_at}

-- The operating system's calls: `os.open`, `mmap.mmap` on a descriptor, the two closes, and a copy of the
-- first bytes of a mapping.
pub record Devmem : Type 1 where
  pub State : Type 0
  pub open_file : Exec State ℕ
  pub map_file : ℕ → Exec State ℕ
  pub close_map : ℕ → Exec State Unit
  pub close_file : ℕ → Exec State Unit
  pub prefix : ℕ → ℕ → Exec State (List ℕ)

-- The records of the ring, from their first byte on.
unfoldable pub ring_at : ℕ → List ℕ → List RawEdgeRecord
ring_at zero bytes = []
ring_at (suc count) bytes =
    record { timestamp_ticks = word_at 0 bytes; raw_inputs = word_at 4 bytes }
    ∷ ring_at count (drop 8 bytes)

-- `RawCaptureShared.from_buffer_copy`
unfoldable pub from_buffer_copy : List ℕ → Result RawCaptureShared
unfolding ring_at
from_buffer_copy bytes =
    if ltb (length bytes) raw_shared_size
    then err value_error
    else ok (record {
      magic = word_at 0 bytes;
      version = word_at 4 bytes;
      total_size = word_at 8 bytes;
      tick_hz = word_at 12 bytes;
      capacity = word_at 16 bytes;
      running = word_at 20 bytes;
      configured_event_limit = word_at 24 bytes;
      event_count = word_at 28 bytes;
      initial_raw_inputs = word_at 32 bytes;
      final_raw_inputs = word_at 36 bytes;
      start_ticks = word_at 40 bytes;
      stop_ticks = word_at 44 bytes;
      stop_reason = word_at 48 bytes;
      input_mask = word_at 52 bytes;
      generation = word_at 56 bytes;
      overflow_count = word_at 60 bytes;
      ring = ring_at raw_capacity (drop 64 bytes);
    })

module _ (devmem : Devmem) where
  open devmem use {State, open_file, map_file, close_map, close_file, prefix}

  -- The file opened and mapped around a reader, and both closed on every path.
  unfoldable pub with_mapping : {A : Type 0} → (ℕ → Exec State A) → Exec State A
  with_mapping read = open_file >>= λ fd.
      finally (map_file fd >>= λ mapped. finally (read mapped) (close_map mapped)) (close_file fd)

  -- The reader's part of `read_frozen_raw_capture`.
  unfoldable pub read_header : ℕ → Exec State RawCaptureShared
  unfolding from_buffer_copy validate
  read_header mapped = do
    bytes ← prefix mapped raw_shared_size
    header ← lift (from_buffer_copy bytes)
    lift (validate header)
    raise_if (not (header.running == 0)) runtime_error
    pure header

  unfoldable pub read_frozen_raw_capture : Exec State RawCaptureShared
  unfolding with_mapping read_header
  read_frozen_raw_capture = with_mapping read_header

  -- `read_consistent_snapshot`, over the reader of a mapped snapshot.
  unfoldable pub read_devmem_snapshot : (ℕ → Exec State (List ℕ)) → Exec State (List ℕ)
  unfolding with_mapping
  read_devmem_snapshot read = with_mapping read
