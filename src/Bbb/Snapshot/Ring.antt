-- ===== src/Bbb/Snapshot/Ring.antt =====
-- boards/beaglebone_black/host/hil_pwm_shared.py: snapshots with recent edges, beside the memory.
use hil_lab.Prelude.{
  ℕ, suc, ◌+◌, ◌-◌, ◌*◌, ◌%◌, ◌^◌, ◌≤◌, ◌<◌, ◌≡◌, refl, sym, ◌∙◌, subst, Bool, true, false, List,
  not, ◌&&◌, ◌==◌, ltb, leb, if◌then◌else◌, take, get_or, length, arith, ==_iff,
}
use hil_lab.Errors.{
  ok, Exec, pure, lift, OnOk, continue, continue-OnOk_eq, continue-OnOk, ◌>>=◌, ◌>>◌, value_error,
  runtime_error, refuse_if,
}
use hil_lab.Bbb.Snapshot.{
  pwm_summary_size, validate_snapshot, settle, read_window, padded, read_consistent_snapshot,
  event_seq, copy_ring_window, ring_capacity, running,
}
use hil_lab.Bbb.Snapshot.Untorn.{seq_at, read_loop-OnOk}
use hil_lab.Bbb.Snapshot.Turns.{IsRing, emitted, first_slot, misses, copied-kept, counted-free}
use hil_lab.Bbb.Snapshot.Padded.{word_at-padded, length-padded, get_or-padded}
use hil_lab.Bbb.Snapshot.Window.{IsCopied, record_byte, copy_ring_window-IsCopied}

-- The summary and the last edges of the memory at one access.
abbrev pub IsWindow : (ℕ → List ℕ) → ℕ → List ℕ → Type 0
IsWindow memory ring_limit snapshot =
    (n : ℕ) × (seq_at memory n % 2 ≡ 0)
    × (length snapshot ≡ 2416)
    × ((b : ℕ) → b < 368 → get_or snapshot b 0 ≡ get_or (memory n) b 0)
    × ((j i : ℕ)
        → j < emitted ring_limit (memory n)
        → i < 16
        → get_or snapshot (record_byte ((first_slot ring_limit (memory n) + j) % 128) i) 0
          ≡ get_or (memory n) (record_byte ((first_slot ring_limit (memory n) + j) % 128) i) 0)
    × (validate_snapshot snapshot ≡ ok tt)

bind-OnOk :
    {S A B : Type 0} (P : B → Type 0) (m : Exec S A) (f : A → Exec S B) (s t : S) (a : A)
    → m s ≡ (ok a, t)
    → OnOk P (f a t).0
    → OnOk P ((m >>= f) s).0
bind-OnOk P m f s t a e h = subst (λ r. OnOk P (continue r.0 f r.1).0) (sym e) h

module _ (memory : ℕ → List ℕ) (count : ℕ → ℕ) (ring : IsRing memory count) (ring_limit : ℕ) where
  whole : (n : ℕ) → 368 ≤ length (memory n)
  whole n = (ring.locked n 0).0

  -- The end of an attempt, when the records have been copied.
  ended-OnOk :
      (rest : Exec ℕ (List ℕ)) (n k : ℕ) (snapshot : List ℕ)
      → ((m : ℕ) → OnOk (IsWindow memory ring_limit) (rest m).0)
      → seq_at memory n % 2 ≡ 0
      → n ≤ k
      → k ≤ n + 370
      → IsCopied memory
          (first_slot ring_limit (memory n))
          (emitted ring_limit (memory n))
          (padded (take 368 (memory n)))
          k
          snapshot
      → (overtaken : Bool)
      → ltb (128 - emitted ring_limit (memory n)) (
          (event_seq (memory (k + 16 * emitted ring_limit (memory n)))
            + 2 ^ 32
            - event_seq (memory n))
          % 2 ^ 32)
        ≡ overtaken
      → (m : ℕ)
      → OnOk
          (IsWindow memory ring_limit)
          ((if overtaken then rest else (lift (validate_snapshot snapshot) >> pure snapshot)) m).0
  ended-OnOk rest n k snapshot ih even from to c true h m = ih m
  ended-OnOk rest n k snapshot ih even from to c false h m =
      continue-OnOk_eq (IsWindow memory ring_limit) (validate_snapshot snapshot) _ m (λ d valid. (
        n,
        even,
        c.0,
        λ b l. c.1 b l ∙ get_or-padded (memory n) (whole n) b l,
        λ j i l r.
            copied-kept memory count ring n _ i snapshot _ even (omega arith) r
              (λ e a b.
                misses (count n) (count (c.2 j i l r).0) e _ j _ (omega arith) l a b
                  (counted-free memory count ring ring_limit n k _ from to (c.2 j i l r).2 h)
                  (ring.in_turn n even))
              (omega (arith, from, (c.2 j i l r).1)) (c.2 j i l r).3,
        valid,
      ))

  abbrev summary : ℕ → List ℕ
  summary n = padded (take 368 (memory n))

  read_window-OnOk :
      (rest : Exec ℕ (List ℕ)) (n k : ℕ)
      → ((m : ℕ) → OnOk (IsWindow memory ring_limit) (rest m).0)
      → seq_at memory n % 2 ≡ 0
      → n ≤ k
      → k ≤ n + 370
      → OnOk
          (IsWindow memory ring_limit)
          (read_window memory (emitted ring_limit (memory n)) (summary n) rest k).0
  unfolding read_window
  read_window-OnOk rest n k ih even from to =
      rw
        (
          word_at-padded (memory n) (whole n) 52 (omega arith),
          word_at-padded (memory n) (whole n) 56 (omega arith),
        )
        (continue-OnOk_eq (IsWindow memory ring_limit)
          (refuse_if
            (not (running (summary n) == 0) && leb ring_capacity (emitted ring_limit (memory n)))
            runtime_error)
          _ k
          (λ d q.
            bind-OnOk (IsWindow memory ring_limit)
              (copy_ring_window memory (first_slot ring_limit (memory n))
                (emitted ring_limit (memory n)) (summary n))
              _ k _ _ pieces.1 (ended-OnOk rest n k pieces.0 ih even from to pieces.2 _ refl _)))
    where
      pieces :
          (snapshot : List ℕ) × (copy_ring_window memory
              (first_slot ring_limit (memory n))
              (emitted ring_limit (memory n))
              (summary n)
              k
            ≡ (ok snapshot, k + 16 * emitted ring_limit (memory n)))
          × IsCopied memory
              (first_slot ring_limit (memory n))
              (emitted ring_limit (memory n))
              (summary n)
              k
              snapshot
      pieces =
          copy_ring_window-IsCopied memory _ _ (summary n) k (length-padded (memory n) (whole n))
            (omega arith) (omega arith)

  settle-OnOk :
      (rest : Exec ℕ (List ℕ)) (n : ℕ)
      → ((k : ℕ) → OnOk (IsWindow memory ring_limit) (rest k).0)
      → seq_at memory n % 2 ≡ 0
      → OnOk
          (IsWindow memory ring_limit)
          (settle memory ring_limit rest (summary n) (suc (suc n + pwm_summary_size))).0
  unfolding settle
  settle-OnOk rest n ih even = rw (word_at-padded (memory n) (whole n) 60 (omega arith)) (
      continue-OnOk_eq (IsWindow memory ring_limit) (validate_snapshot (summary n)) _ _
        (λ d valid. chosen valid (emitted ring_limit (memory n) == 0) refl))
    where
      chosen :
          validate_snapshot (summary n) ≡ ok tt
          → (none_emitted : Bool) → (emitted ring_limit (memory n) == 0) ≡ none_emitted
          → OnOk
              (IsWindow memory ring_limit)
              ((if none_emitted
                  then pure (summary n)
                  else read_window memory (emitted ring_limit (memory n)) (summary n) rest)
                (suc (suc n + 368))).0
      chosen valid true h = (
        n,
        even,
        length-padded (memory n) (whole n),
        get_or-padded (memory n) (whole n),
        λ j i l r. absurd (omega (arith, (==_iff _ 0).0 h, l)),
        valid,
      )
      chosen valid false h =
          read_window-OnOk rest n (suc (suc n + 368)) ih even (omega arith) (omega arith)

-- Whatever the firmware does under its lock, as long as it writes its ring in turn, is not cleared and counts
-- less than 2^32 events within an attempt, a snapshot that is read is the summary and as many of the last
-- edges as the limit asks for, all as they stood in memory at one instant between two writes, and passes the
-- checks of the header.
pub read_consistent_snapshot-IsWindow :
    (memory : ℕ → List ℕ) (count : ℕ → ℕ) (retries ring_limit n : ℕ)
    → IsRing memory count
    → OnOk (IsWindow memory ring_limit) (read_consistent_snapshot memory retries ring_limit n).0
unfolding read_consistent_snapshot
read_consistent_snapshot-IsWindow memory count retries ring_limit n ring =
    continue-OnOk (IsWindow memory ring_limit) (refuse_if (retries == 0) value_error) _ n (λ d k.
      read_loop-OnOk memory ring.locked ring_limit (IsWindow memory ring_limit)
        (settle-OnOk memory count ring ring_limit) retries k)
