-- ===== src/Bbb/Snapshot/Turns.antt =====
-- boards/beaglebone_black/host/hil_pwm_shared.py: the ring that the firmware writes in turn, and the
-- counter of its events.
use hil_lab.Prelude.{
  ℕ, ◌+◌, ◌-◌, ◌*◌, ◌%◌, ◌^◌, ◌≤◌, ◌<◌, min, ◌≡◌, ◌≢◌, ◌∙◌, subst, false, List, ltb, get_or, arith,
}
use hil_lab.Bbb.Snapshot.{ring_count, ring_head, event_seq}
use hil_lab.Bbb.Snapshot.Untorn.{seq_at, IsLocked}
use hil_lab.Bbb.Snapshot.Window.{record_byte}

-- The firmware's side, between two clears: it counts an event before it writes the event's record,
-- into the slots in turn, and has written all that it counted when the lock is free. Within the
-- accesses of one attempt it counts less than 2^32 events.
pub record IsRing (memory : ℕ → List ℕ) (count : ℕ → ℕ) : Type 0 where
  pub locked : IsLocked memory
  pub counted : (n : ℕ) → event_seq (memory n) ≡ count n % 2 ^ 32
  pub in_turn : (n : ℕ) → seq_at memory n % 2 ≡ 0 → ring_head (memory n) ≡ count n % 128
  pub grows : (n k : ℕ) → count n ≤ count (n + k)
  pub slow : (n k : ℕ) → k ≤ 2500 → count (n + k) < count n + 2 ^ 32
  pub kept :
      (n k slot i : ℕ)
      → seq_at memory n % 2 ≡ 0
      → slot < 128
      → i < 16
      → ((e : ℕ) → count n ≤ e → e < count (n + k) → e % 128 ≢ slot)
      → get_or (memory (n + k)) (record_byte slot i) 0 ≡ get_or (memory n) (record_byte slot i) 0

-- The number of the edges that a limit asks for, and the slot of the first of them.
abbrev pub emitted : ℕ → List ℕ → ℕ
emitted ring_limit m = min (min (ring_count m) 128) ring_limit

abbrev pub first_slot : ℕ → List ℕ → ℕ
first_slot ring_limit m = (ring_head m + 128 - emitted ring_limit m) % 128

-- The events that the firmware counts while it advances by no more than the free slots go into none
-- of the slots in use.
pub misses :
    (c d e emit j head : ℕ)
    → emit ≤ 128
    → j < emit
    → c ≤ e
    → e < d
    → d ≤ c + (128 - emit)
    → head ≡ c % 128
    → e % 128 ≢ ((head + 128 - emit) % 128 + j) % 128
misses c d e emit j head few l from to free at h = omega (arith, few, l, from, to, free, at, h)

-- How far the counter has moved, by its words of 32 bits.
advance :
    (c d free before after : ℕ)
    → c ≤ d
    → d < c + 2 ^ 32
    → before ≡ c % 2 ^ 32
    → after ≡ d % 2 ^ 32
    → ltb free ((after + 2 ^ 32 - before) % 2 ^ 32) ≡ false
    → d ≤ c + free
advance c d free before after l m p q h = ground (arith, l, m, p, q, h)

reach : (a b : ℕ) → a ≤ b → a + (b - a) ≡ b
reach a b l = omega (arith, l)

module _ (memory : ℕ → List ℕ) (count : ℕ → ℕ) (ring : IsRing memory count) where
  grows-le : (a b : ℕ) → a ≤ b → count a ≤ count b
  grows-le a b l = subst (λ x. count a ≤ count x) (reach a b l) (ring.grows a (b - a))

  slow-le : (a b : ℕ) → a ≤ b → b ≤ a + 2500 → count b < count a + 2 ^ 32
  slow-le a b l m =
      subst (λ x. count x < count a + 2 ^ 32) (reach a b l) (ring.slow a (b - a) (omega (arith, m)))

  -- What was copied from slots that the firmware has not come back to.
  pub copied-kept :
      (n slot i : ℕ) (snapshot : List ℕ) (t : ℕ)
      → seq_at memory n % 2 ≡ 0
      → slot < 128
      → i < 16
      → ((e : ℕ) → count n ≤ e → e < count t → e % 128 ≢ slot)
      → n ≤ t
      → get_or snapshot (record_byte slot i) 0 ≡ get_or (memory t) (record_byte slot i) 0
      → get_or snapshot (record_byte slot i) 0 ≡ get_or (memory n) (record_byte slot i) 0
  copied-kept n slot i snapshot t even in_ring in_record missed l e =
      e
      ∙ subst
          (λ u.
            ((e : ℕ) → count n ≤ e → e < count u → e % 128 ≢ slot)
            → get_or (memory u) (record_byte slot i) 0 ≡ get_or (memory n) (record_byte slot i) 0)
          (reach n t l) (ring.kept n (t - n) slot i even in_ring in_record) missed

  -- While the counter has moved by no more than the free slots.
  pub counted-free :
      (ring_limit n k t : ℕ)
      → n ≤ k
      → k ≤ n + 370
      → t ≤ k + 16 * emitted ring_limit (memory n)
      → ltb (128 - emitted ring_limit (memory n)) (
          (event_seq (memory (k + 16 * emitted ring_limit (memory n)))
            + 2 ^ 32
            - event_seq (memory n))
          % 2 ^ 32)
        ≡ false
      → count t ≤ count n + (128 - emitted ring_limit (memory n))
  counted-free ring_limit n k t from to l h = omega (arith, earlier, moved)
    where
      emit : ℕ
      emit = emitted ring_limit (memory n)

      last : ℕ
      last = k + 16 * emit

      earlier : count t ≤ count last
      earlier = grows-le _ _ l

      moved : count last ≤ count n + (128 - emit)
      moved =
          advance (count n) (count last) (128 - emit) _ _ (grows-le n last (omega (arith, from)))
            (slow-le n last (omega (arith, from)) (omega (arith, to))) (ring.counted n)
            (ring.counted last) h
