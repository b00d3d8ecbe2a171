-- ===== src/Bbb/Raw/Overlaps.antt =====
-- boards/beaglebone_black/host/hil_raw_shared.py: the overlaps of the two sides of a half bridge.
use hil_lab.Prelude.{
  ℕ, ◌+◌, ◌≡◌, ◌≢◌, ◌↔◌, refl, sym, ap, ◌∙◌, Bool, true, false, not, ◌&&◌, List, [], ◌∷◌, map,
  if◌then◌else◌, Indexed, Indexed-weaken, Indexed-replicate, All, Bool-cases, inl, inr, arith,
}
use hil_lab.Errors.{ok, bind-eq-ok, ok-injective}
use hil_lab.Bbb.Floats.{Floats}
use hil_lab.Bbb.Raw.{RawCaptureShared, RawRecord, raw_records}
use hil_lab.Bbb.Raw.Analysis.{
  Pair, Analysis, dead_time, end_hl, end_lh, see_overlap, pair_step, analyze_events, no_pair,
  no_events,
}
use hil_lab.Bbb.Raw.Pairs.{both_on, pair_step-keeps, analyze_loop-pairs, analyze_events-run}

-- The number of times that both sides come on together in a sequence of states.
abbrev pub entries : ℕ → Bool → List ℕ → ℕ
entries k active [] = 0
entries k active (s ∷ ss) =
    (if both_on k s && not active then 1 else 0) + entries k (both_on k s) ss

entries-zero : (k : ℕ) (ss : List ℕ) → entries k false ss ≡ 0 → All (λ s. both_on k s ≡ false) ss
entries-zero k [] h = tt
entries-zero k (s ∷ ss) h = elim (Bool-cases (both_on k s)) [
  | inl e ↦ absurd (positive e h)
  | inr e ↦ (e, entries-zero k ss (rest e h))
]
  where
    positive : both_on k s ≡ true → entries k false (s ∷ ss) ≢ 0
    positive e g = ground (arith, e, g)

    rest : both_on k s ≡ false → entries k false (s ∷ ss) ≡ 0 → entries k false ss ≡ 0
    rest e g = ground (arith, e, g)

zero-entries : (k : ℕ) (ss : List ℕ) → All (λ s. both_on k s ≡ false) ss → entries k false ss ≡ 0
zero-entries k [] h = refl
zero-entries k (s ∷ ss) h = rw h.0 (omega (arith, zero-entries k ss h.1))

module _ (floats : Floats) (m : floats.Float) (hz t : ℕ) where
  -- The overlap count and the flag behind it, as they were.
  abbrev Kept : ℕ → Bool → Pair → Type 0
  Kept n active p = (p.overlap_count ≡ n) × (p.overlap_active ≡ active)

  end_hl-Kept :
      (n : ℕ) (active : Bool) (p q : Pair)
      → Kept n active p
      → end_hl floats m hz t p ≡ ok q
      → Kept n active q
  unfolding end_hl
  end_hl-Kept n active p q h e =
      let (dead, d, k) = bind-eq-ok (dead_time floats m hz t p.pending_hl) _ e in
      rw (ok-injective _ q k) h

  end_lh-Kept :
      (n : ℕ) (active : Bool) (p q : Pair)
      → Kept n active p
      → end_lh floats m hz t p ≡ ok q
      → Kept n active q
  unfolding end_lh
  end_lh-Kept n active p q h e =
      let (dead, d, k) = bind-eq-ok (dead_time floats m hz t p.pending_lh) _ e in
      rw (ok-injective _ q k) h

  pair_step-overlap :
      (s rise fall k : ℕ) (x y : Pair)
      → pair_step floats m hz t s rise fall k x ≡ ok y
      → (y.overlap_count ≡ x.overlap_count + (if both_on k s && not x.overlap_active then 1 else 0))
        × (y.overlap_active ≡ both_on k s)
  unfolding see_overlap
  pair_step-overlap s rise fall k x y e =
      let (q, i, g) =
        pair_step-keeps floats m hz t (Kept x.overlap_count x.overlap_active) (λ p j. j) (λ p j. j)
          (end_hl-Kept x.overlap_count x.overlap_active)
          (end_lh-Kept x.overlap_count x.overlap_active) s rise fall k x y (refl, refl) e in
      (rw (ap (λ z. z.overlap_count) g, i.0, i.1) (added _ x.overlap_count), rw g refl)
    where
      added : (b : Bool) (n : ℕ) → (if b then n + 1 else n) ≡ n + (if b then 1 else 0)
      added b n = ground arith

abbrev states_of : List RawRecord → List ℕ
states_of = map (λ r. r.logical_inputs)

-- A pair's overlap count is the number of times that its two sides come on together in the captured
-- states, and it is 0 exactly when no captured state has both on.
abbrev pub CountsOverlaps : List ℕ → ℕ → Pair → Type 0
CountsOverlaps states k p =
    (p.overlap_count ≡ entries k false states)
    × ((p.overlap_count ≡ 0) ↔ All (λ s. both_on k s ≡ false) states)

pub analyze_events-CountsOverlaps :
    (floats : Floats) (shared : RawCaptureShared) (min_deadtime_ns : floats.Float) (b : Analysis)
    → analyze_events floats shared min_deadtime_ns ≡ ok b
    → (records : List RawRecord) × (raw_records shared ≡ ok records)
      × Indexed (CountsOverlaps (map (λ r. r.logical_inputs) records)) 0 b.pairs
analyze_events-CountsOverlaps floats shared m b h =
    let (records, e, l) = analyze_events-run floats shared m b h in
    let total = λ (k : ℕ). entries k false (states_of records) in
    let P = λ (rs : List RawRecord) (k : ℕ) (p : Pair).
      p.overlap_count + entries k p.overlap_active (states_of rs) ≡ total k in
    let done =
      analyze_loop-pairs floats m shared.tick_hz P
        (λ p r rs k x y i g. left r rs k x y (total k) i (
          pair_step-overlap floats m shared.tick_hz r.timestamp_ticks r.logical_inputs _ _ k x y g))
        _ records no_events b l (Indexed-replicate (P records) 0 3 no_pair (λ k. omega arith)) in
    (
      records,
      e,
      Indexed-weaken (P []) _ 0 b.pairs (λ k p i. counted (states_of records) k p (omega arith))
          done,
    )
  where
    left :
        (r : RawRecord) (rs : List RawRecord) (k : ℕ) (x y : Pair) (total : ℕ)
        → x.overlap_count + entries k x.overlap_active (states_of (r ∷ rs)) ≡ total
        → (y.overlap_count
            ≡ x.overlap_count
              + (if both_on k r.logical_inputs && not x.overlap_active then 1 else 0))
          × (y.overlap_active ≡ both_on k r.logical_inputs)
        → y.overlap_count + entries k y.overlap_active (states_of rs) ≡ total
    left r rs k x y total i g = rw (g.0, g.1) (omega (arith, i))

    counted :
        (ss : List ℕ) (k : ℕ) (p : Pair)
        → p.overlap_count ≡ entries k false ss
        → CountsOverlaps ss k p
    counted ss k p e = (e, (λ z. entries-zero k ss (sym e ∙ z), λ a. e ∙ zero-entries k ss a))
