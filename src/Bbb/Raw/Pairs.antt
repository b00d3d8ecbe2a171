-- ===== src/Bbb/Raw/Pairs.antt =====
-- boards/beaglebone_black/host/hil_raw_shared.py: what the analysis counts for the two sides of a half
-- bridge: overlaps, dead times, and dead times that are too short.
use hil_lab.Prelude.{
  ℕ, ◌+◌, ◌*◌, ◌^◌, ◌≡◌, refl, subst, sym, Bool, true, false, ◌&&◌, Option, none, some, List, [],
  ◌∷◌, ◌++◌, if◌then◌else◌, bit_and, Indexed, Indexed-replicate, arith,
}
use hil_lab.Prelude.Bits.{any_bits}
use hil_lab.Errors.{
  Result, ok, err, bind-eq-ok, ok-injective, map_result_from, Indexed-map_result_from,
}
use hil_lab.Bbb.Floats.{Floats}
use hil_lab.Bbb.Raw.{RawCaptureShared, RawRecord, validate, raw_records, raw_to_logical}
use hil_lab.Bbb.Raw.Analysis.{
  Pair, Analysis, wrapped_sub, ticks_to_ns, is_short, dead_time, end_hl, end_lh, see_overlap,
  pair_edges, pair_step, analyze_record, analyze_loop, analyze_events, no_pair, no_events,
}

-- What each pair's steps keep, from the records that are left to fewer, holds after the last record.
module _ (floats : Floats) (min_deadtime_ns : floats.Float) (tick_hz : ℕ)
    (P : List RawRecord → ℕ → Pair → Type 0)
    (step : (previous : ℕ) (item : RawRecord) (items : List RawRecord) (k : ℕ) (x y : Pair)
      → P (item ∷ items) k x
      → pair_step floats min_deadtime_ns tick_hz item.timestamp_ticks item.logical_inputs
          (bit_and item.changed_inputs item.logical_inputs)
          (bit_and item.changed_inputs previous)
          k
          x
        ≡ ok y
      → P items k y) where
  analyze_record-pairs :
      (previous : ℕ) (item : RawRecord) (items : List RawRecord) (a b : Analysis)
      → analyze_record floats min_deadtime_ns tick_hz previous item a ≡ ok b
      → Indexed (P (item ∷ items)) 0 a.pairs
      → Indexed (P items) 0 b.pairs
  unfolding analyze_record
  analyze_record-pairs p r rs a b h i =
      let (pairs, e, k) = bind-eq-ok (map_result_from _ 0 a.pairs) _ h in
      subst (λ x. Indexed (P rs) 0 x.pairs) (sym (ok-injective _ b k))
        (Indexed-map_result_from (P (r ∷ rs)) (P rs) _ 0 a.pairs pairs (step p r rs) i e)

  pub analyze_loop-pairs :
      (previous : ℕ) (records : List RawRecord) (a b : Analysis)
      → analyze_loop floats min_deadtime_ns tick_hz previous records a ≡ ok b
      → Indexed (P records) 0 a.pairs
      → Indexed (P []) 0 b.pairs
  unfolding analyze_loop
  analyze_loop-pairs p [] a b h i =
      subst (λ x. Indexed (P []) 0 x.pairs) (sym (ok-injective a b h)) i
  analyze_loop-pairs p (r ∷ rs) a b h i =
      let (u, e, k) = bind-eq-ok (analyze_record floats min_deadtime_ns tick_hz p r a) _ h in
      analyze_loop-pairs r.logical_inputs rs u b k (analyze_record-pairs p r rs a u e i)

-- The loop that a successful analysis has run.
pub analyze_events-run :
    (floats : Floats) (shared : RawCaptureShared) (min_deadtime_ns : floats.Float) (b : Analysis)
    → analyze_events floats shared min_deadtime_ns ≡ ok b
    → (records : List RawRecord) × (raw_records shared ≡ ok records)
      × (analyze_loop floats min_deadtime_ns shared.tick_hz
            (raw_to_logical shared.initial_raw_inputs)
            records
            no_events
          ≡ ok b)
unfolding analyze_events
analyze_events-run floats shared m b h =
    let (d, v, k) = bind-eq-ok (validate shared) _ h in bind-eq-ok (raw_records shared) _ k

-- Both sides of a pair are on in a state.
abbrev pub both_on : ℕ → ℕ → Bool
both_on k state = any_bits state (2 ^ (k * 2)) && any_bits state (2 ^ (k * 2 + 1))

-- What the pending times do not bear on and the end of a dead time keeps, an event keeps up to its test
-- for an overlap.
module _ (floats : Floats) (m : floats.Float) (hz t : ℕ) (Q : Pair → Type 0)
    (set_hl : (p : Pair) → Q p → Q (record p { pending_hl = some t }))
    (set_lh : (p : Pair) → Q p → Q (record p { pending_lh = some t }))
    (ended_hl : (p q : Pair) → Q p → end_hl floats m hz t p ≡ ok q → Q q)
    (ended_lh : (p q : Pair) → Q p → end_lh floats m hz t p ≡ ok q → Q q) where
  pair_edges-keeps :
      (hi_fell lo_rose lo_fell hi_rose now : Bool) (p y : Pair)
      → Q p
      → pair_edges floats m hz t hi_fell lo_rose lo_fell hi_rose now p ≡ ok y
      → (q : Pair) × Q q × (y ≡ see_overlap now q)
  unfolding pair_edges
  pair_edges-keeps a b c d now p y h e =
      let p₁ : Pair = if a then record p { pending_hl = some t } else p in
      let (p₂, e₂, k₂) = bind-eq-ok (if b then end_hl floats m hz t p₁ else ok p₁) _ e in
      let p₃ : Pair = if c then record p₂ { pending_lh = some t } else p₂ in
      let (p₄, e₄, k₄) = bind-eq-ok (if d then end_lh floats m hz t p₃ else ok p₃) _ k₂ in
      (p₄, second d p₃ p₄ (fell_lh c p₂ (first b p₁ p₂ (fell_hl a p h) e₂)) e₄, ok-injective _ y k₄)
    where
      fell_hl : (b : Bool) (p : Pair) → Q p → Q (if b then record p { pending_hl = some t } else p)
      fell_hl true p h = set_hl p h
      fell_hl false p h = h

      fell_lh : (b : Bool) (p : Pair) → Q p → Q (if b then record p { pending_lh = some t } else p)
      fell_lh true p h = set_lh p h
      fell_lh false p h = h

      first :
          (b : Bool) (p q : Pair) → Q p → (if b then end_hl floats m hz t p else ok p) ≡ ok q → Q q
      first true p q h e = ended_hl p q h e
      first false p q h e = subst Q (sym (ok-injective p q e)) h

      second :
          (b : Bool) (p q : Pair) → Q p → (if b then end_lh floats m hz t p else ok p) ≡ ok q → Q q
      second true p q h e = ended_lh p q h e
      second false p q h e = subst Q (sym (ok-injective p q e)) h

  pub pair_step-keeps :
      (s rise fall k : ℕ) (p y : Pair)
      → Q p
      → pair_step floats m hz t s rise fall k p ≡ ok y
      → (q : Pair) × Q q × (y ≡ see_overlap (both_on k s) q)
  unfolding pair_step
  pair_step-keeps s rise fall k =
      pair_edges-keeps (any_bits fall (2 ^ (k * 2))) (any_bits rise (2 ^ (k * 2 + 1)))
        (any_bits fall (2 ^ (k * 2 + 1))) (any_bits rise (2 ^ (k * 2))) (both_on k s)

module _ (floats : Floats) (m : floats.Float) (hz : ℕ) where
  -- Whether a dead time is below the minimum, and how many of a list are.
  abbrev pub short_of : Result floats.Float → ℕ
  short_of (ok ns) = if is_short floats m ns then 1 else 0
  short_of (err e) = 0

  abbrev pub short : ℕ → ℕ
  short ticks = short_of (ticks_to_ns floats ticks hz)

  abbrev pub count_short : List ℕ → ℕ
  count_short [] = 0
  count_short (x ∷ xs) = short x + count_short xs

  count_short-append : (xs ys : List ℕ) → count_short (xs ++ ys) ≡ count_short xs + count_short ys
  count_short-append [] ys = omega arith
  count_short-append (x ∷ xs) ys = omega (arith, count_short-append xs ys)

  dead_time-short :
      (t : ℕ) (pending : Option ℕ) (dead : List ℕ × ℕ)
      → dead_time floats m hz t pending ≡ ok dead
      → count_short dead.0 ≡ dead.1
  unfolding dead_time
  dead_time-short t none dead h = rw (ok-injective _ dead h) refl
  dead_time-short t (some start) dead h =
      let (ns, e, k) = bind-eq-ok (ticks_to_ns floats (wrapped_sub t start) hz) _ h in
      converted (wrapped_sub t start) ns dead e k
    where
      converted :
          (x : ℕ) (ns : floats.Float) (dead : List ℕ × ℕ)
          → ticks_to_ns floats x hz ≡ ok ns
          → ◌≡◌ {A = Result (List ℕ × ℕ)}
              (ok (x ∷ [], if is_short floats m ns then 1 else 0))
              (ok dead)
          → count_short dead.0 ≡ dead.1
      converted x ns dead e k = rw (ok-injective _ dead k) (rw e (omega arith))

  -- The violations are the dead times of both kinds that are below the minimum.
  abbrev pub IsCounted : Pair → Type 0
  IsCounted p = p.violation_count ≡ count_short p.dead_hl_ticks + count_short p.dead_lh_ticks

  end_hl-IsCounted :
      (t : ℕ) (p q : Pair) → IsCounted p → end_hl floats m hz t p ≡ ok q → IsCounted q
  unfolding end_hl
  end_hl-IsCounted t p q h e =
      let (dead, d, k) = bind-eq-ok (dead_time floats m hz t p.pending_hl) _ e in
      rw (ok-injective _ q k) (
        omega (
          arith,
          h,
          dead_time-short t p.pending_hl dead d,
          count_short-append p.dead_hl_ticks dead.0,
        ))

  end_lh-IsCounted :
      (t : ℕ) (p q : Pair) → IsCounted p → end_lh floats m hz t p ≡ ok q → IsCounted q
  unfolding end_lh
  end_lh-IsCounted t p q h e =
      let (dead, d, k) = bind-eq-ok (dead_time floats m hz t p.pending_lh) _ e in
      rw (ok-injective _ q k) (
        omega (
          arith,
          h,
          dead_time-short t p.pending_lh dead d,
          count_short-append p.dead_lh_ticks dead.0,
        ))

  pair_step-IsCounted :
      (t s rise fall k : ℕ) (x y : Pair)
      → IsCounted x
      → pair_step floats m hz t s rise fall k x ≡ ok y
      → IsCounted y
  unfolding see_overlap
  pair_step-IsCounted t s rise fall k x y h e =
      let (q, i, g) =
        pair_step-keeps floats m hz t IsCounted (λ p j. j) (λ p j. j) (end_hl-IsCounted t)
          (end_lh-IsCounted t) s rise fall k x y h e in
      rw g i

-- A pair's violation count is the number of its recorded dead times that are shorter than the minimum.
pub analyze_events-IsCounted :
    (floats : Floats) (shared : RawCaptureShared) (min_deadtime_ns : floats.Float) (b : Analysis)
    → analyze_events floats shared min_deadtime_ns ≡ ok b
    → Indexed (λ k. IsCounted floats min_deadtime_ns shared.tick_hz) 0 b.pairs
analyze_events-IsCounted floats shared m b h =
    let (records, e, l) = analyze_events-run floats shared m b h in
    let Q = IsCounted floats m shared.tick_hz in
    analyze_loop-pairs floats m shared.tick_hz (λ rs k. Q)
      (λ p r rs k x y.
        pair_step-IsCounted floats m shared.tick_hz r.timestamp_ticks r.logical_inputs _ _ k x y)
      _ records no_events b l (Indexed-replicate (λ k. Q) 0 3 no_pair (λ k. refl))
