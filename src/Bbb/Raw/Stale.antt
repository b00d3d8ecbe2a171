-- ===== src/Bbb/Raw/Stale.antt =====
-- boards/beaglebone_black/host/hil_raw_shared.py: the dead time that is pending when the high side comes
-- on again before the low side.
use hil_lab.Prelude.{ℕ, ◌+◌, ◌≡◌, refl, true, false, none, [], ◌∷◌, ◌++◌, if◌then◌else◌}
use hil_lab.Errors.{Result, ok, bind}
use hil_lab.Bbb.Floats.{Floats}
use hil_lab.Bbb.Raw.Analysis.{
  Pair, wrapped_sub, ticks_to_ns, is_short, dead_time, end_hl, end_lh, see_overlap, pair_edges,
}

-- The high side goes off at t₀ and on again at t₁, then the low side comes on at t₂.
abbrev pub glitch : (floats : Floats) → floats.Float → ℕ → ℕ → ℕ → ℕ → Pair → Result Pair
glitch floats m hz t₀ t₁ t₂ p = bind (pair_edges floats m hz t₀ true false false false false p) λ q.
    bind (pair_edges floats m hz t₁ false false false true false q)
      λ r. pair_edges floats m hz t₂ false true false false true r

-- After a dip of the high side, the low side's rise into the overlap is recorded as the end of a dead
-- time that runs from the dip, beside the overlap that it is.
pub glitch-dead_time :
    (floats : Floats) (min_deadtime_ns ns : floats.Float) (tick_hz t₀ t₁ t₂ : ℕ) (p : Pair)
    → p.pending_lh ≡ none
    → ticks_to_ns floats (wrapped_sub t₂ t₀) tick_hz ≡ ok ns
    → (q : Pair) × (glitch floats min_deadtime_ns tick_hz t₀ t₁ t₂ p ≡ ok q)
      × (q.dead_hl_ticks ≡ p.dead_hl_ticks ++ (wrapped_sub t₂ t₀ ∷ []))
      × (q.overlap_count ≡ p.overlap_count + 1)
unfolding pair_edges end_hl end_lh dead_time see_overlap
glitch-dead_time floats m ns hz t₀ t₁ t₂ p idle e = (
  record p {
    pending_hl = none;
    pending_lh = none;
    dead_hl_ticks = p.dead_hl_ticks ++ (wrapped_sub t₂ t₀ ∷ []);
    dead_lh_ticks = p.dead_lh_ticks ++ [];
    overlap_count = p.overlap_count + 1;
    violation_count = p.violation_count + 0 + (if is_short floats m ns then 1 else 0);
    overlap_active = true;
  },
  rw (idle, e) refl,
  refl,
  refl,
)
