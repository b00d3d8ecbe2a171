-- ===== src/Bbb/Snapshot/Untorn.antt =====
-- boards/beaglebone_black/host/hil_pwm_shared.py: snapshots without recent edges, beside the memory.
use hil_lab.Prelude.{
  ℕ, zero, suc, ◌+◌, ◌%◌, ◌≤◌, ◌<◌, min, ◌≡◌, refl, sym, ap, ap₂, ◌∙◌, subst, Bool, true, false,
  List, [], ◌∷◌, not, ◌||◌, ◌==◌, if◌then◌else◌, take, drop, get_or, length, arith, ==_iff,
}
use hil_lab.Errors.{ok, Exec, pure, OnOk, continue-OnOk_eq, continue-OnOk, value_error, refuse_if}
use hil_lab.Bbb.Snapshot.{
  pwm_summary_size, seq_lock_offset, word_at, copied, validate_snapshot, read_loop, settle,
  read_summary, padded, read_consistent_snapshot,
}

abbrev pub seq_at : (ℕ → List ℕ) → ℕ → ℕ
seq_at memory n = word_at seq_lock_offset (memory n)

-- The firmware's side of the lock: while the counter is even and stays the same, from one access to
-- another, the summary is not written between the two. It is there all the time.
abbrev pub IsLocked : (ℕ → List ℕ) → Type 0
IsLocked memory =
    (n k : ℕ)
    → (pwm_summary_size ≤ length (memory n))
      × (seq_at memory n % 2 ≡ 0
          → seq_at memory n ≡ seq_at memory (n + k)
          → (i : ℕ) → i ≤ k
          → take pwm_summary_size (memory (n + i)) ≡ take pwm_summary_size (memory n))

drop-cons : (m : List ℕ) (k : ℕ) → k < length m → drop k m ≡ get_or m k 0 ∷ drop (suc k) m
drop-cons [] k l = absurd (omega (arith, l))
drop-cons (x ∷ m) zero l = refl
drop-cons (x ∷ m) (suc k) l = drop-cons m k (omega (arith, l))

-- A copy of bytes that stay the same is the memory.
copied-take :
    (memory : ℕ → List ℕ) (m : List ℕ) (size offset n : ℕ)
    → ((a b i : ℕ) → a ≡ n + i → b ≡ offset + i → i < size → get_or (memory a) b 0 ≡ get_or m b 0)
    → offset + size ≤ length m
    → copied memory offset size n ≡ take size (drop offset m)
unfolding copied
copied-take memory m zero offset n h l = refl
copied-take memory m (suc size) offset n h l =
    ap₂ (λ x xs. x ∷ xs) (h n offset 0 (omega arith) (omega arith) (omega arith))
      (copied-take memory m size (suc offset) (suc n)
        (λ a b i p q lt. h a b (suc i) (omega (arith, p)) (omega (arith, q)) (omega (arith, lt)))
        (omega (arith, l)))
    ∙ ap (take (suc size)) (sym (drop-cons m offset (omega (arith, l))))

-- Lists that agree on their first bytes agree at each of these.
pub get_or-take : (m : List ℕ) (n k : ℕ) → k < n → get_or (take n m) k 0 ≡ get_or m k 0
get_or-take m zero k l = absurd (omega (arith, l))
get_or-take [] (suc n) k l = refl
get_or-take (x ∷ m) (suc n) zero l = refl
get_or-take (x ∷ m) (suc n) (suc k) l = get_or-take m n k (omega (arith, l))

-- The copy between two equal even readings of the counter.
pub copy-locked :
    (memory : ℕ → List ℕ) (n : ℕ)
    → IsLocked memory
    → seq_at memory n % 2 ≡ 0
    → seq_at memory n ≡ seq_at memory (n + 369)
    → copied memory 0 368 (suc n) ≡ take 368 (memory n)
copy-locked memory n locked even same =
    copied-take memory (memory n) 368 0 (suc n) still (omega (arith, (locked n 369).0))
  where
    still :
        (a b i : ℕ)
        → a ≡ suc n + i
        → b ≡ 0 + i
        → i < 368
        → get_or (memory a) b 0 ≡ get_or (memory n) b 0
    still a b i p q lt =
        subst (λ x. get_or (memory x) b 0 ≡ get_or (memory n) b 0) (sym (next p))
          (sym (get_or-take (memory (n + suc i)) 368 b (omega (arith, q, lt)))
            ∙ ap (λ x. get_or x b 0) ((locked n 369).1 even same (suc i) (omega (arith, lt)))
            ∙ get_or-take (memory n) 368 b (omega (arith, q, lt)))
      where
        next : a ≡ suc n + i → a ≡ n + suc i
        next p = omega (arith, p)

-- What holds of the snapshots that the attempts give, when it holds of those that follow a summary
-- of one instant.
module _ (memory : ℕ → List ℕ) (locked : IsLocked memory) (ring_limit : ℕ) (P : List ℕ → Type 0)
    (settled : (rest : Exec ℕ (List ℕ)) (n : ℕ)
      → ((k : ℕ) → OnOk P (rest k).0)
      → seq_at memory n % 2 ≡ 0
      → OnOk P
          (settle memory ring_limit rest
            (padded (take 368 (memory n)))
            (suc (suc n + pwm_summary_size))).0) where
  read_summary-OnOk :
      (rest : Exec ℕ (List ℕ)) (n : ℕ)
      → ((k : ℕ) → OnOk P (rest k).0)
      → seq_at memory n % 2 ≡ 0
      → OnOk P (read_summary memory ring_limit rest (seq_at memory n) (suc n)).0
  unfolding read_summary
  read_summary-OnOk rest n ih even =
      split (seq_at memory n == word_at seq_lock_offset (copied memory 0 pwm_summary_size (suc n)))
        (seq_at memory n == seq_at memory (suc n + pwm_summary_size))
        (seq_at memory (suc n + pwm_summary_size) % 2 == 1) refl
    where
      same :
          (seq_at memory n == seq_at memory (suc n + pwm_summary_size)) ≡ true
          → seq_at memory n ≡ seq_at memory (n + 369)
      same e = (==_iff _ _).0 e ∙ ap (seq_at memory) (omega arith)

      split :
          (a b c : Bool)
          → (seq_at memory n == seq_at memory (suc n + pwm_summary_size)) ≡ b
          → OnOk P
              ((if not a || (not b || c)
                  then rest
                  else settle memory ring_limit rest
                      (padded (copied memory 0 pwm_summary_size (suc n))))
                (suc (suc n + pwm_summary_size))).0
      split false b c e = ih _
      split true false c e = ih _
      split true true true e = ih _
      split true true false e =
          subst
            (λ blob.
              OnOk P
                (settle memory ring_limit rest (padded blob) (suc (suc n + pwm_summary_size))).0)
            (sym (copy-locked memory n locked even (same e))) (settled rest n ih even)

  pub read_loop-OnOk : (attempts n : ℕ) → OnOk P (read_loop memory attempts ring_limit n).0
  unfolding read_loop
  read_loop-OnOk zero n = tt
  read_loop-OnOk (suc attempts) n =
      split (λ k. read_loop-OnOk attempts k) (seq_at memory n % 2 == 1) refl
    where
      split :
          ((k : ℕ) → OnOk P (read_loop memory attempts ring_limit k).0)
          → (odd : Bool) → (seq_at memory n % 2 == 1) ≡ odd
          → OnOk P
              ((if odd
                  then read_loop memory attempts ring_limit
                  else read_summary memory ring_limit
                      (read_loop memory attempts ring_limit)
                      (seq_at memory n))
                (suc n)).0
      split ih true e = ih (suc n)
      split ih false e =
          read_summary-OnOk (read_loop memory attempts ring_limit) n ih (ground arith)

-- The memory at one access, as a snapshot without edges.
abbrev pub IsInstant : (ℕ → List ℕ) → List ℕ → Type 0
IsInstant memory snapshot =
    (n : ℕ) × (seq_at memory n % 2 ≡ 0)
    × (snapshot ≡ padded (take pwm_summary_size (memory n)))
    × (validate_snapshot snapshot ≡ ok tt)

module _ (memory : ℕ → List ℕ) where
  settle-OnOk :
      (rest : Exec ℕ (List ℕ)) (n k : ℕ) (summary : List ℕ)
      → seq_at memory n % 2 ≡ 0
      → summary ≡ padded (take pwm_summary_size (memory n))
      → OnOk (IsInstant memory) (settle memory 0 rest summary k).0
  unfolding settle
  settle-OnOk rest n k summary even e =
      continue-OnOk_eq (IsInstant memory) (validate_snapshot summary) _ k
        (λ d v. chosen _ _ (none_emitted (min (word_at 60 summary) 128)) (n, even, e, v))
    where
      none_emitted : (x : ℕ) → (min x 0 == 0) ≡ true
      none_emitted x = ground arith

      chosen :
          (b : Bool) (other : Exec ℕ (List ℕ))
          → b ≡ true
          → IsInstant memory summary
          → OnOk (IsInstant memory) ((if b then pure summary else other) k).0
      chosen true other h q = q
      chosen false other h q = cc

-- Whatever the firmware does under its lock, a snapshot that is read without recent edges is the
-- summary as it stood in memory at one instant between two writes, and passes the checks of the header.
pub read_consistent_snapshot-IsInstant :
    (memory : ℕ → List ℕ) (retries n : ℕ)
    → IsLocked memory
    → OnOk (IsInstant memory) (read_consistent_snapshot memory retries 0 n).0
unfolding read_consistent_snapshot
read_consistent_snapshot-IsInstant memory retries n locked =
    continue-OnOk (IsInstant memory) (refuse_if (retries == 0) value_error) _ n (λ d k.
      read_loop-OnOk memory locked 0 (IsInstant memory)
        (λ rest n ih even. settle-OnOk memory rest n _ _ even refl) retries k)
