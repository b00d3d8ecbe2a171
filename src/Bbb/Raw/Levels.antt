-- ===== src/Bbb/Raw/Levels.antt =====
-- boards/beaglebone_black/host/hil_raw_shared.py: the levels of the channels, in `raw_to_logical`, in the
-- records, and in the edges that the analysis counts.
use hil_lab.Prelude.{
  ℕ, zero, suc, ◌+◌, ◌^◌, ◌≤◌, ◌<◌, ◌≡◌, refl, subst, sym, ap, ◌∙◌, false, Option, none, some, List,
  [], ◌∷◌, map, ◌==◌, ◌&&◌, if◌then◌else◌, bit_and, bit_or, bit_xor, get_elem?, Indexed,
  Indexed-map_from, Indexed-replicate, arith,
}
use hil_lab.Prelude.Bits.{bit, any_bits, any_bits-pow, bit-le, bit-zero, bit-bit_and, bit-bit_xor}
use hil_lab.Prelude.Bits.Flags.{bit-set}
use hil_lab.Errors.{ok, bind-eq-ok, ok-injective, map_result_from}
use hil_lab.Bbb.Floats.{Floats}
use hil_lab.Bbb.Raw.{
  RawEdgeRecord, RawCaptureShared, RawRecord, logical_loop, raw_to_logical, records_loop,
  raw_records, validate,
}
use hil_lab.Bbb.Raw.Analysis.{
  Channel, Analysis, on_rise, on_fall, channel_step, analyze_record, analyze_loop, no_channel,
  no_events, analyze_events,
}

-- The bit of each channel in a raw word.
abbrev pub raw_positions : List ℕ
raw_positions = 1 ∷ 2 ∷ 3 ∷ 5 ∷ 14 ∷ 15 ∷ []

-- A channel's level in a raw word, and 0 for a channel that there is not.
abbrev pub level_at : ℕ → Option ℕ → ℕ
level_at raw none = 0
level_at raw (some position) = bit raw position

abbrev masks_of : List ℕ → List ℕ
masks_of = map (λ k. 2 ^ k)

abbrev entered : ℕ → ℕ → ℕ → ℕ → ℕ
entered raw i l p = if any_bits raw (2 ^ p) then bit_or l (2 ^ i) else l

entered-other : (raw i l p k : ℕ) → (k == i) ≡ false → bit (entered raw i l p) k ≡ bit l k
entered-other raw i l p k h = ground (arith, bit-set l i k)

entered-same : (raw i l p : ℕ) → bit l i ≡ 0 → bit (entered raw i l p) i ≡ bit raw p
entered-same raw i l p h = ground (arith, bit-set l i i, any_bits-pow raw p, bit-le raw p)

logical_loop-below :
    (raw i l : ℕ) (ps : List ℕ) (k : ℕ)
    → k < i
    → bit (logical_loop raw i l (masks_of ps)) k ≡ bit l k
unfolding logical_loop
logical_loop-below raw i l [] k h = refl
logical_loop-below raw i l (p ∷ ps) k h =
    logical_loop-below raw (suc i) (entered raw i l p) ps k (omega arith)
    ∙ entered-other raw i l p k (ground arith)

logical_loop-at :
    (raw i l : ℕ) (ps : List ℕ) (k : ℕ)
    → ((j : ℕ) → i ≤ j → bit l j ≡ 0)
    → bit (logical_loop raw i l (masks_of ps)) (i + k) ≡ level_at raw (get_elem? ps k)
unfolding logical_loop
logical_loop-at raw i l [] k h = h (i + k) (omega arith)
logical_loop-at raw i l (p ∷ ps) zero h =
    let at : i + 0 ≡ i = omega arith in
    rw at (
      logical_loop-below raw (suc i) (entered raw i l p) ps i (omega arith)
      ∙ entered-same raw i l p (h i (omega arith)))
logical_loop-at raw i l (p ∷ ps) (suc k) h =
    let at : i + suc k ≡ suc i + k = omega arith in
    rw at (
      logical_loop-at raw (suc i) (entered raw i l p) ps k
        (λ j le. entered-other raw i l p j (ground arith) ∙ h j (omega arith)))

-- Bit k of the logical word is the level of channel k in the raw word.
pub raw_to_logical-bit :
    (raw k : ℕ) → bit (raw_to_logical raw) k ≡ level_at raw (get_elem? raw_positions k)
unfolding raw_to_logical
raw_to_logical-bit raw k =
    ap (bit (raw_to_logical raw)) {x = k} {y = 0 + k} (omega arith)
    ∙ logical_loop-at raw 0 0 raw_positions k (λ j le. bit-zero j)

-- What a channel does at an event, by its levels before and after.
unfoldable pub edge_step : ℕ → ℕ → ℕ → Channel → Channel
unfolding on_rise on_fall
edge_step timestamp before after c =
    if before == after then c else if after == 1 then on_rise timestamp c else on_fall timestamp c

rise_test :
    (s p k : ℕ) → any_bits (bit_and (bit_xor s p) s) (2 ^ k) ≡ (bit s k == 1 && bit p k == 0)
rise_test s p k = ground (
  arith,
  any_bits-pow (bit_and (bit_xor s p) s) k,
  bit-bit_and (bit_xor s p) s k,
  bit-bit_xor s p k,
  bit-le s k,
  bit-le p k,
)

fall_test :
    (s p k : ℕ) → any_bits (bit_and (bit_xor s p) p) (2 ^ k) ≡ (bit s k == 0 && bit p k == 1)
fall_test s p k = ground (
  arith,
  any_bits-pow (bit_and (bit_xor s p) p) k,
  bit-bit_and (bit_xor s p) p k,
  bit-bit_xor s p k,
  bit-le s k,
  bit-le p k,
)

-- The step that the bits of two successive states cause is the step of the channel's two levels.
pub channel_step-edge_step :
    (timestamp s p k : ℕ) (c : Channel)
    → channel_step timestamp (bit_and (bit_xor s p) s) (bit_and (bit_xor s p) p) k c
      ≡ edge_step timestamp (bit p k) (bit s k) c
unfolding channel_step edge_step
channel_step-edge_step t s p k c =
    rw (rise_test s p k, fall_test s p k) (ground (arith, bit-le s k, bit-le p k))

-- Each record's changed bits are those in which its state differs from the one before.
abbrev pub IsLinked : ℕ → List RawRecord → Type 0
IsLinked previous [] = Unit
IsLinked previous (item ∷ items) =
    (item.changed_inputs ≡ bit_xor item.logical_inputs previous)
    × IsLinked item.logical_inputs items

records_loop-IsLinked :
    (index previous : ℕ) (items : List RawEdgeRecord)
    → IsLinked previous (records_loop index previous items)
unfolding records_loop
records_loop-IsLinked index previous [] = tt
records_loop-IsLinked index previous (item ∷ items) =
    (refl, records_loop-IsLinked (suc index) (raw_to_logical item.raw_inputs) items)

-- The state after the records.
abbrev pub last_state : ℕ → List RawRecord → ℕ
last_state previous [] = previous
last_state previous (item ∷ items) = last_state item.logical_inputs items

pub raw_records-IsLinked :
    (shared : RawCaptureShared) (records : List RawRecord)
    → raw_records shared ≡ ok records
    → IsLinked (raw_to_logical shared.initial_raw_inputs) records
unfolding raw_records
raw_records-IsLinked shared records h =
    let (d, e, k) = bind-eq-ok (validate shared) _ h in
    subst (IsLinked (raw_to_logical shared.initial_raw_inputs)) (sym (ok-injective _ records k))
      (records_loop-IsLinked 0 _ _)

-- What each channel's steps keep, from state to state, holds of every channel after the records.
module _ (floats : Floats) (P : ℕ → ℕ → Channel → Type 0) where
  channel_step-keeps :
      (t p s changed k : ℕ) (c : Channel)
      → (P p k c → P s k (edge_step t (bit p k) (bit s k) c))
      → changed ≡ bit_xor s p
      → P p k c
      → P s k (channel_step t (bit_and changed s) (bit_and changed p) k c)
  channel_step-keeps t p s changed k c step link h =
      rw link (rw (channel_step-edge_step t s p k c) (step h))

  analyze_record-channels :
      (min_deadtime_ns : floats.Float) (tick_hz previous : ℕ) (item : RawRecord) (a b : Analysis)
      → ((t p s k : ℕ) (c : Channel) → P p k c → P s k (edge_step t (bit p k) (bit s k) c))
      → item.changed_inputs ≡ bit_xor item.logical_inputs previous
      → analyze_record floats min_deadtime_ns tick_hz previous item a ≡ ok b
      → Indexed (P previous) 0 a.channels
      → Indexed (P item.logical_inputs) 0 b.channels
  unfolding analyze_record
  analyze_record-channels m hz p r a b step link h i =
      let t = r.timestamp_ticks in
      let s = r.logical_inputs in
      let (pairs, e, k) = bind-eq-ok (map_result_from _ 0 a.pairs) _ h in
      subst (λ x. Indexed (P s) 0 x.channels) (sym (ok-injective _ b k))
        (Indexed-map_from (P p) (P s) _ 0 a.channels
          (λ k c. channel_step-keeps t p s r.changed_inputs k c (step t p s k c) link) i)

  pub analyze_loop-channels :
      (min_deadtime_ns : floats.Float) (tick_hz previous : ℕ) (records : List RawRecord)
      (a b : Analysis)
      → ((t p s k : ℕ) (c : Channel) → P p k c → P s k (edge_step t (bit p k) (bit s k) c))
      → IsLinked previous records
      → analyze_loop floats min_deadtime_ns tick_hz previous records a ≡ ok b
      → Indexed (P previous) 0 a.channels
      → Indexed (P (last_state previous records)) 0 b.channels
  unfolding analyze_loop
  analyze_loop-channels m hz p [] a b step link h i =
      subst (λ x. Indexed (P p) 0 x.channels) (sym (ok-injective a b h)) i
  analyze_loop-channels m hz p (r ∷ rs) a b step link h i =
      let s = r.logical_inputs in
      let (u, e, k) = bind-eq-ok (analyze_record floats m hz p r a) _ h in
      analyze_loop-channels m hz s rs u b step link.1 k
        (analyze_record-channels m hz p r a u step link.0 e i)

edge_step-balanced :
    (t p s : ℕ) (c : Channel) (start : ℕ)
    → p ≤ 1
    → s ≤ 1
    → c.rise_count + start ≡ c.fall_count + p
    → (edge_step t p s c).rise_count + start ≡ (edge_step t p s c).fall_count + s
unfolding edge_step on_rise on_fall
edge_step-balanced t p s c start hp hs h = ground arith

-- The same from the start of a capture to its end.
pub analyze_events-channels :
    (floats : Floats) (P : ℕ → ℕ → ℕ → Channel → Type 0) (shared : RawCaptureShared)
    (min_deadtime_ns : floats.Float) (b : Analysis)
    → ((start k : ℕ) → P start start k no_channel)
    → ((start t p s k : ℕ) (c : Channel)
        → P start p k c
        → P start s k (edge_step t (bit p k) (bit s k) c))
    → analyze_events floats shared min_deadtime_ns ≡ ok b
    → (records : List RawRecord) × (raw_records shared ≡ ok records)
      × Indexed
          (P
            (raw_to_logical shared.initial_raw_inputs)
            (last_state (raw_to_logical shared.initial_raw_inputs) records))
          0
          b.channels
unfolding analyze_events
analyze_events-channels floats P shared m b base step h =
    let start = raw_to_logical shared.initial_raw_inputs in
    let (d, v, k) = bind-eq-ok (validate shared) _ h in
    let (records, e, l) = bind-eq-ok (raw_records shared) _ k in
    (
      records,
      e,
      analyze_loop-channels floats (P start) m shared.tick_hz start records no_events b (step start)
          (raw_records-IsLinked shared records e) l
          (Indexed-replicate (P start start) 0 6 no_channel (base start)),
    )

-- On every channel the rises and the level at the start are as many as the falls and the level at the
-- end: no edge is lost or counted twice.
abbrev pub IsBalanced : ℕ → ℕ → ℕ → Channel → Type 0
IsBalanced start state k c = c.rise_count + bit start k ≡ c.fall_count + bit state k

pub analyze_events-IsBalanced :
    (floats : Floats) (shared : RawCaptureShared) (min_deadtime_ns : floats.Float) (b : Analysis)
    → analyze_events floats shared min_deadtime_ns ≡ ok b
    → (records : List RawRecord) × (raw_records shared ≡ ok records)
      × Indexed
          (IsBalanced
            (raw_to_logical shared.initial_raw_inputs)
            (last_state (raw_to_logical shared.initial_raw_inputs) records))
          0
          b.channels
analyze_events-IsBalanced floats shared m b h =
    analyze_events-channels floats IsBalanced shared m b (λ start k. refl) step h
  where
    step :
        (start t p s k : ℕ) (c : Channel)
        → IsBalanced start p k c
        → IsBalanced start s k (edge_step t (bit p k) (bit s k) c)
    step start t p s k c h =
        edge_step-balanced t (bit p k) (bit s k) c _ (bit-le p k) (bit-le s k) h
