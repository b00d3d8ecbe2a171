-- ===== src/Bbb/Tests/Rings.antt =====
-- Concrete runs of the reader of the PWM snapshot, with a firmware that records a fourth edge meanwhile.
use hil_lab.Prelude.{
  ℕ, zero, suc, ◌+◌, ◌*◌, ◌%◌, ◌^◌, ◌≤◌, ◌<◌, ◌≡◌, refl, ap, ◌∙◌, sym, Bool, true, false, List, [],
  ◌∷◌, ◌++◌, ltb, take, get_or, length, arith, replicate, ◌⊎◌, inl, inr, ◌≢◌,
}
use hil_lab.Prelude.Bytes.{to_le}
use hil_lab.Errors.{OnOk}
use hil_lab.Bbb.Snapshot.{pwm_magic, word_at, event_seq, ring_head, read_consistent_snapshot}
use hil_lab.Bbb.Snapshot.Untorn.{IsLocked}
use hil_lab.Bbb.Snapshot.Pieces.{get_or-append_left, get_or-append_right, lt_or_le}
use hil_lab.Bbb.Snapshot.Window.{record_byte}
use hil_lab.Bbb.Snapshot.Turns.{IsRing}
use hil_lab.Bbb.Snapshot.Ring.{IsWindow, read_consistent_snapshot-IsWindow}

-- The summary of a running capture after so many edges.
abbrev summary_of : ℕ → List ℕ
summary_of edges =
    to_le 4 pwm_magic
    ++ to_le 4 1
    ++ to_le 4 2416
    ++ to_le 4 (8 + 2 * edges)
    ++ to_le 4 0
    ++ to_le 4 6
    ++ to_le 4 3
    ++ to_le 4 128
    ++ to_le 4 1
    ++ replicate 16 0
    ++ to_le 4 edges
    ++ to_le 4 edges
    ++ to_le 4 edges
    ++ replicate 304 0

abbrev record_of : ℕ → List ℕ
record_of ticks = to_le 4 ticks ++ to_le 4 1 ++ to_le 4 1 ++ to_le 4 0

abbrev three : List ℕ
three = record_of 1000 ++ record_of 2000 ++ record_of 3000

-- The memory before and after the fourth edge, which comes while the third is copied.
abbrev state : Bool → List ℕ
state true = summary_of 3 ++ three
state false = summary_of 4 ++ (three ++ record_of 4000)

abbrev counts : Bool → ℕ
counts true = 3
counts false = 4

abbrev memory : ℕ → List ℕ
memory n = state (ltb n 375)

phases :
    (P : Bool → Bool → Type 0)
    → P true true
    → P true false
    → P false false
    → (n k : ℕ) → P (ltb n 375) (ltb (n + k) 375)
phases P a b c n k = split (ltb n 375) (ltb (n + k) 375) (ground arith)
  where
    split : (x y : Bool) → (x ≡ false → y ≡ false) → P x y
    split true true h = a
    split true false h = b
    split false false h = c
    split false true h = absurd (no (h refl))
      where
        no : true ≡ false → ⊥
        no e = cc

get_or-beyond : (k : ℕ) (xs : List ℕ) → length xs ≤ k → get_or xs k 0 ≡ 0
get_or-beyond k [] l = refl
get_or-beyond zero (x ∷ xs) l = absurd (omega (arith, l))
get_or-beyond (suc k) (x ∷ xs) l = get_or-beyond k xs (omega (arith, l))

-- A record in the ring of each state, and the slots that the fourth edge leaves alone.
in_ring :
    (edges slot i : ℕ) (ring : List ℕ)
    → length (summary_of edges) ≡ 368
    → get_or (summary_of edges ++ ring) (record_byte slot i) 0 ≡ get_or ring (slot * 16 + i) 0
in_ring edges slot i ring h =
    get_or-append_right 368 (slot * 16 + i) (record_byte slot i) (summary_of edges) ring h
      (omega arith)

other_slot :
    (slot i : ℕ)
    → i < 16
    → slot ≢ 3
    → get_or (three ++ record_of 4000) (slot * 16 + i) 0 ≡ get_or three (slot * 16 + i) 0
other_slot slot i l h = side (lt_or_le slot 3)
  where
    side :
        (slot < 3) ⊎ (3 ≤ slot)
        → get_or (three ++ record_of 4000) (slot * 16 + i) 0 ≡ get_or three (slot * 16 + i) 0
    side (inl m) = get_or-append_left three (record_of 4000) (slot * 16 + i) (omega (arith, l, m))
    side (inr m) =
        get_or-beyond (slot * 16 + i) (three ++ record_of 4000) (omega (arith, h, m))
        ∙ sym (get_or-beyond (slot * 16 + i) three (omega (arith, m)))

long_enough : (x : Bool) → 368 ≤ length (state x)
long_enough true = omega arith
long_enough false = omega arith

lock-inj : (x y : Bool) → word_at 12 (state x) ≡ word_at 12 (state y) → x ≡ y
lock-inj true true e = refl
lock-inj true false e = absurd (omega (arith, e))
lock-inj false true e = absurd (omega (arith, e))
lock-inj false false e = refl

between : (n i k : ℕ) → i ≤ k → ltb n 375 ≡ ltb (n + k) 375 → ltb (n + i) 375 ≡ ltb n 375
between n i k l e = ground (arith, l, e)

memory-IsLocked : IsLocked memory
memory-IsLocked n k = (
  long_enough (ltb n 375),
  λ even same i l. ap (λ x. take 368 (state x)) (between n i k l (lock-inj _ _ same)),
)

counted : (x : Bool) → event_seq (state x) ≡ counts x % 2 ^ 32
counted true = refl
counted false = refl

in_turn : (x : Bool) → ring_head (state x) ≡ counts x % 128
in_turn true = refl
in_turn false = refl

kept :
    (slot i : ℕ)
    → i < 16
    → slot ≢ 3
    → get_or (state false) (record_byte slot i) 0 ≡ get_or (state true) (record_byte slot i) 0
kept slot i l h =
    in_ring 4 slot i (three ++ record_of 4000) refl
    ∙ other_slot slot i l h
    ∙ sym (in_ring 3 slot i three refl)

memory-IsRing : IsRing memory (λ n. counts (ltb n 375))
memory-IsRing = record {
  locked = memory-IsLocked;
  counted = λ n. counted (ltb n 375);
  in_turn = λ n even. in_turn (ltb n 375);
  grows = phases (λ x y. counts x ≤ counts y) (omega arith) (omega arith) (omega arith);
  slow = λ n k l.
      phases (λ x y. counts y < counts x + 2 ^ 32) (omega arith) (omega arith) (omega arith) n k;
  kept = λ n k slot i even in_slot l missed.
      phases
        (λ x y.
          ((e : ℕ) → counts x ≤ e → e < counts y → e % 128 ≢ slot)
          → get_or (state y) (record_byte slot i) 0 ≡ get_or (state x) (record_byte slot i) 0)
        (λ _. refl) (λ m. kept slot i l (λ h. m 3 (omega arith) (omega arith) (sym h))) (λ _. refl)
        n k missed;
}

read_consistent_snapshot-IsWindow_example :
    OnOk (IsWindow memory 2) (read_consistent_snapshot memory 1000 2 0).0
read_consistent_snapshot-IsWindow_example =
    read_consistent_snapshot-IsWindow memory (λ n. counts (ltb n 375)) 1000 2 0 memory-IsRing
