-- ===== src/Bbb/Snapshot.antt =====
-- boards/beaglebone_black/host/hil_pwm_shared.py: the reader of the PWM snapshot that the PRU keeps in
-- shared memory under a sequence lock. A snapshot is its 2416 bytes; the fields are words of them.
pub mod Untorn
pub mod Quiet
pub mod Pieces
pub mod Window
pub mod Padded
pub mod Turns
pub mod Ring
use hil_lab.Prelude.{
  ℕ, zero, suc, ◌+◌, ◌-◌, ◌*◌, ◌%◌, ◌^◌, min, Bool, true, false, List, [], ◌∷◌, ◌++◌, not, ◌&&◌,
  ◌||◌, ◌==◌, ltb, leb, if◌then◌else◌, take, drop, get_or, replicate,
}
use hil_lab.Prelude.Bytes.{from_le}
use hil_lab.Errors.{
  Result, ok, err, Exec, pure, raise, lift, raise_if, ◌>>=◌, ◌>>◌, value_error, runtime_error,
}

abbrev pub pwm_magic : ℕ
pwm_magic = 0x314d_5750

abbrev pub pwm_version : ℕ
pwm_version = 1

abbrev pub ring_capacity : ℕ
ring_capacity = 128

abbrev pub pwm_shared_size : ℕ
pwm_shared_size = 2416

abbrev pub pwm_summary_size : ℕ
pwm_summary_size = 368

abbrev pub seq_lock_offset : ℕ
seq_lock_offset = 12

abbrev pub event_seq_offset : ℕ
event_seq_offset = 52

abbrev pub edge_record_size : ℕ
edge_record_size = 16

-- `_u32` of bytes that were copied.
abbrev pub word_at : ℕ → List ℕ → ℕ
word_at offset bytes = from_le (take 4 (drop offset bytes))

-- The fields of `PwmShared` that are read here, by their offsets.
abbrev pub running : List ℕ → ℕ
running = word_at 32

abbrev pub event_seq : List ℕ → ℕ
event_seq = word_at event_seq_offset

abbrev pub ring_head : List ℕ → ℕ
ring_head = word_at 56

abbrev pub ring_count : List ℕ → ℕ
ring_count = word_at 60

unfoldable pub validate_snapshot : List ℕ → Result (Unit {0})
validate_snapshot snapshot =
    if not (word_at 0 snapshot == pwm_magic)
    then err runtime_error
    else if not (word_at 4 snapshot == pwm_version)
    then err runtime_error
    else if not (word_at 8 snapshot == pwm_shared_size)
    then err runtime_error
    else if not (word_at 20 snapshot == 6)
    then err runtime_error
    else if not (word_at 24 snapshot == 3)
    then err runtime_error
    else if not (word_at 28 snapshot == ring_capacity)
    then err runtime_error
    else ok tt

-- The shared memory at each access to it, while the firmware writes. A word is read at one access;
-- a copy reads a byte at each access.
abbrev pub read_word : (ℕ → List ℕ) → ℕ → Exec ℕ ℕ
read_word memory offset n = (ok (word_at offset (memory n)), suc n)

unfoldable pub copied : (ℕ → List ℕ) → ℕ → ℕ → ℕ → List ℕ
copied memory offset zero n = []
copied memory offset (suc size) n =
    get_or (memory n) offset 0 ∷ copied memory (suc offset) size (suc n)

unfoldable pub copy : (ℕ → List ℕ) → ℕ → ℕ → Exec ℕ (List ℕ)
unfolding copied
copy memory offset size n = (ok (copied memory offset size n), n + size)

-- `full_blob = bytearray(PWM_SHARED_SIZE)` with the summary in front.
unfoldable pub padded : List ℕ → List ℕ
padded blob = blob ++ replicate (pwm_shared_size - pwm_summary_size) 0

-- `full_blob[src : src + len(data)] = data`.
abbrev pub splice : ℕ → ℕ → List ℕ → List ℕ → List ℕ
splice src size piece blob = take src blob ++ (piece ++ drop (src + size) blob)

module _ (memory : ℕ → List ℕ) where
  -- `_copy_ring_window`, from slot `start` on, in one or two pieces.
  unfoldable pub copy_ring_window : ℕ → ℕ → List ℕ → Exec ℕ (List ℕ)
  unfolding copy
  copy_ring_window start count blob =
      let first = min count (ring_capacity - start) in
      let src = pwm_summary_size + start * edge_record_size in
      let second = count - first in
      copy memory src (first * edge_record_size) >>= λ piece.
      if second == 0
      then pure (splice src (first * edge_record_size) piece blob)
      else (copy memory pwm_summary_size (second * edge_record_size) >>= λ wrapped. pure (
          splice pwm_summary_size (second * edge_record_size) wrapped
            (splice src (first * edge_record_size) piece blob)))

  -- The part of an attempt that follows a stable summary: the recent edges, and whether the
  -- firmware has meanwhile overtaken them, in which case the attempt is given up for `rest`.
  unfoldable pub read_window : ℕ → List ℕ → Exec ℕ (List ℕ) → Exec ℕ (List ℕ)
  unfolding copy_ring_window validate_snapshot
  read_window emit summary rest = do
    raise_if (not (running summary == 0) && leb ring_capacity emit) runtime_error
    snapshot ←
        copy_ring_window ((ring_head summary + ring_capacity - emit) % ring_capacity) emit summary
    after ← read_word memory event_seq_offset
    let advanced = (after + 2 ^ 32 - event_seq summary) % 2 ^ 32
    if ltb (ring_capacity - emit) advanced
        then rest
        else (lift (validate_snapshot snapshot) >> pure snapshot)

  -- The part that follows a copy of the summary between two equal even counters.
  unfoldable pub settle : ℕ → Exec ℕ (List ℕ) → List ℕ → Exec ℕ (List ℕ)
  unfolding read_window validate_snapshot
  settle ring_limit rest summary =
      let emit = min (min (ring_count summary) ring_capacity) ring_limit in
      lift (validate_snapshot summary)
      >> (if emit == 0 then pure summary else read_window emit summary rest)

  -- The part that follows an even counter.
  unfoldable pub read_summary : ℕ → Exec ℕ (List ℕ) → ℕ → Exec ℕ (List ℕ)
  unfolding settle copy padded
  read_summary ring_limit rest seq0 = do
    blob ← copy memory 0 pwm_summary_size
    seq1 ← read_word memory seq_lock_offset
    if not (seq0 == word_at seq_lock_offset blob) || (not (seq0 == seq1) || seq1 % 2 == 1)
        then rest
        else settle ring_limit rest (padded blob)

  -- The loop of `read_consistent_snapshot_from_buffer`, with that many attempts left.
  unfoldable pub read_loop : ℕ → ℕ → Exec ℕ (List ℕ)
  unfolding read_summary
  read_loop zero ring_limit = raise runtime_error
  read_loop (suc attempts) ring_limit =
      let rest = read_loop attempts ring_limit in
      read_word memory seq_lock_offset >>= λ seq0.
      if seq0 % 2 == 1 then rest else read_summary ring_limit rest seq0

  unfoldable pub read_consistent_snapshot : ℕ → ℕ → Exec ℕ (List ℕ)
  unfolding read_loop
  read_consistent_snapshot retries ring_limit =
      raise_if (retries == 0) value_error >> read_loop retries ring_limit
