-- ===== src/Bbb/Raw/Periods.antt =====
-- boards/beaglebone_black/host/hil_raw_shared.py: the periods of a channel, beside its high times and
-- its low times.
use hil_lab.Prelude.{
  ℕ, zero, suc, ◌+◌, ◌%◌, ◌^◌, ◌≤◌, ◌≡◌, refl, sym, ap, none, some, List, [], ◌∷◌, ◌++◌, length,
  length-append, drop, Indexed, Indexed-weaken, arith,
}
use hil_lab.Prelude.Bits.{bit, bit-le}
use hil_lab.Errors.{ok}
use hil_lab.Bbb.Floats.{Floats}
use hil_lab.Bbb.Raw.{RawCaptureShared, raw_to_logical}
use hil_lab.Bbb.Raw.Analysis.{
  Channel, Analysis, wrapped_sub, append_delta, on_rise, on_fall, no_channel, analyze_events,
}
use hil_lab.Bbb.Raw.Levels.{edge_step, last_state, analyze_events-channels}

-- High times and low times added in pairs, modulo 2^32.
abbrev pub cycles : List ℕ → List ℕ → List ℕ
cycles [] lows = []
cycles (h ∷ highs) [] = []
cycles (h ∷ highs) (l ∷ lows) = (h + l) % 2 ^ 32 ∷ cycles highs lows

cycles-append :
    (hs ls : List ℕ) (h l : ℕ)
    → length hs ≡ length ls
    → cycles (hs ++ (h ∷ [])) (ls ++ (l ∷ [])) ≡ cycles hs ls ++ ((h + l) % 2 ^ 32 ∷ [])
cycles-append [] [] h l e = refl
cycles-append [] (y ∷ ls) h l e = absurd (omega arith)
cycles-append (x ∷ hs) [] h l e = absurd (omega arith)
cycles-append (x ∷ hs) (y ∷ ls) h l e =
    ap (λ t. (x + y) % 2 ^ 32 ∷ t) (cycles-append hs ls h l (omega arith))

cycles-open :
    (hs ls : List ℕ) (h : ℕ) → length hs ≡ length ls → cycles (hs ++ (h ∷ [])) ls ≡ cycles hs ls
cycles-open [] [] h e = refl
cycles-open [] (y ∷ ls) h e = absurd (omega arith)
cycles-open (x ∷ hs) [] h e = absurd (omega arith)
cycles-open (x ∷ hs) (y ∷ ls) h e =
    ap (λ t. (x + y) % 2 ^ 32 ∷ t) (cycles-open hs ls h (omega arith))

drop-append_le :
    {A : Type 0} (n : ℕ) (xs ys : List A) → n ≤ length xs → drop n (xs ++ ys) ≡ drop n xs ++ ys
drop-append_le zero xs ys h = refl
drop-append_le (suc n) [] ys h = absurd (omega arith)
drop-append_le (suc n) (x ∷ xs) ys h = drop-append_le n xs ys (omega arith)

wrapped_sub-split : (r f t : ℕ) → wrapped_sub t r ≡ (wrapped_sub f r + wrapped_sub t f) % 2 ^ 32
wrapped_sub-split r f t = omega arith

-- Where a channel stands that was at level `start` before the first event: untouched; fallen from a high
-- start; high since a rise; low since a fall that followed a rise.
data Phase (start level : ℕ) (c : Channel) : Type 0 where
  fresh :
      level ≡ start
      → c.rise_last ≡ none
      → c.fall_last ≡ none
      → c.period_ticks ≡ []
      → c.high_ticks ≡ []
      → c.low_ticks ≡ []
      → Phase start level c
  fallen :
      (f : ℕ)
      → start ≡ 1
      → level ≡ 0
      → c.rise_last ≡ none
      → c.fall_last ≡ some f
      → c.period_ticks ≡ []
      → c.high_ticks ≡ []
      → c.low_ticks ≡ []
      → Phase start level c
  high :
      (r : ℕ)
      → level ≡ 1
      → c.rise_last ≡ some r
      → start ≤ length c.low_ticks
      → length c.high_ticks ≡ length (drop start c.low_ticks)
      → c.period_ticks ≡ cycles c.high_ticks (drop start c.low_ticks)
      → Phase start level c
  low :
      (r f : ℕ) (hs : List ℕ)
      → level ≡ 0
      → c.rise_last ≡ some r
      → c.fall_last ≡ some f
      → c.high_ticks ≡ hs ++ (wrapped_sub f r ∷ [])
      → start ≤ length c.low_ticks
      → length hs ≡ length (drop start c.low_ticks)
      → c.period_ticks ≡ cycles hs (drop start c.low_ticks)
      → Phase start level c

module _ (t start : ℕ) (c : Channel) where
  fresh-rise :
      start ≡ 0
      → c.rise_last ≡ none
      → c.fall_last ≡ none
      → c.period_ticks ≡ []
      → c.high_ticks ≡ []
      → c.low_ticks ≡ []
      → Phase start 1 (on_rise t c)
  unfolding on_rise append_delta
  fresh-rise z r f p h l =
      Phase.high t refl refl (rw (f, l, z) (omega arith)) (rw (f, h, l, z) refl) (rw (r, p, h) refl)

  fresh-fall :
      start ≡ 1
      → c.rise_last ≡ none
      → c.period_ticks ≡ []
      → c.high_ticks ≡ []
      → c.low_ticks ≡ []
      → Phase start 0 (on_fall t c)
  unfolding on_fall append_delta
  fresh-fall z r p h l = Phase.fallen t z refl r refl p (rw (r, h) refl) l

  fallen-rise :
      (f : ℕ)
      → start ≡ 1
      → c.rise_last ≡ none
      → c.fall_last ≡ some f
      → c.period_ticks ≡ []
      → c.high_ticks ≡ []
      → c.low_ticks ≡ []
      → Phase start 1 (on_rise t c)
  unfolding on_rise append_delta
  fallen-rise f z r e p h l =
      Phase.high t refl refl (rw (e, l, z) (omega arith)) (rw (e, h, l, z) refl) (rw (r, p, h) refl)

  high-fall :
      (r : ℕ)
      → c.rise_last ≡ some r
      → start ≤ length c.low_ticks
      → length c.high_ticks ≡ length (drop start c.low_ticks)
      → c.period_ticks ≡ cycles c.high_ticks (drop start c.low_ticks)
      → Phase start 0 (on_fall t c)
  unfolding on_fall append_delta
  high-fall r e le len p = Phase.low r t c.high_ticks refl e refl (rw e refl) le len p

  low-rise :
      (r f : ℕ) (hs : List ℕ)
      → c.rise_last ≡ some r
      → c.fall_last ≡ some f
      → c.high_ticks ≡ hs ++ (wrapped_sub f r ∷ [])
      → start ≤ length c.low_ticks
      → length hs ≡ length (drop start c.low_ticks)
      → c.period_ticks ≡ cycles hs (drop start c.low_ticks)
      → Phase start 1 (on_rise t c)
  unfolding on_rise append_delta
  low-rise r f hs e g h le len p =
      let x : ℕ = wrapped_sub t f in
      let cut = drop-append_le start c.low_ticks (x ∷ []) le in
      Phase.high t refl refl (rw g (omega (arith, le, length-append c.low_ticks (x ∷ []))))
        (rw (g, cut, h)
          (omega (
            arith,
            len,
            length-append hs (wrapped_sub f r ∷ []),
            length-append (drop start c.low_ticks) (x ∷ []),
          )))
        (rw (e, g, cut, h, p, wrapped_sub-split r f t)
          (sym (cycles-append hs (drop start c.low_ticks) (wrapped_sub f r) x len)))

rise-Phase : (t start : ℕ) (c : Channel) → Phase start 0 c → Phase start 1 (on_rise t c)
rise-Phase t start c (fresh l r f p h w) = fresh-rise t start c (sym l) r f p h w
rise-Phase t start c (fallen f z l r e p h w) = fallen-rise t start c f z r e p h w
rise-Phase t start c (high r l e le len p) = absurd (omega arith)
rise-Phase t start c (low r f hs l e g h le len p) = low-rise t start c r f hs e g h le len p

fall-Phase : (t start : ℕ) (c : Channel) → Phase start 1 c → Phase start 0 (on_fall t c)
fall-Phase t start c (fresh l r f p h w) = fresh-fall t start c (sym l) r p h w
fall-Phase t start c (fallen f z l r e p h w) = absurd (omega arith)
fall-Phase t start c (high r l e le len p) = high-fall t start c r e le len p
fall-Phase t start c (low r f hs l e g h le len p) = absurd (omega arith)

edge_step-Phase :
    (t start p s : ℕ) (c : Channel)
    → p ≤ 1
    → s ≤ 1
    → Phase start p c
    → Phase start s (edge_step t p s c)
unfolding edge_step
edge_step-Phase t start zero zero c hp hs h = h
edge_step-Phase t start zero (suc zero) c hp hs h = rise-Phase t start c h
edge_step-Phase t start zero (suc (suc s)) c hp hs h = absurd (omega arith)
edge_step-Phase t start (suc zero) zero c hp hs h = fall-Phase t start c h
edge_step-Phase t start (suc zero) (suc zero) c hp hs h = h
edge_step-Phase t start (suc zero) (suc (suc s)) c hp hs h = absurd (omega arith)
edge_step-Phase t start (suc (suc p)) s c hp hs h = absurd (omega arith)

-- Each period is a high time and the low time that follows it, in their order; the low time before the
-- first rise of a channel that was high at the start belongs to none.
abbrev pub HasCycles : ℕ → Channel → Type 0
HasCycles start c = c.period_ticks ≡ cycles c.high_ticks (drop start c.low_ticks)

Phase-HasCycles : (start level : ℕ) (c : Channel) → Phase start level c → HasCycles start c
Phase-HasCycles start level c (fresh l r f p h w) = rw (p, h) refl
Phase-HasCycles start level c (fallen f z l r e p h w) = rw (p, h) refl
Phase-HasCycles start level c (high r l e le len p) = p
Phase-HasCycles start level c (low r f hs l e g h le len p) =
    rw (p, h) (sym (cycles-open hs (drop start c.low_ticks) (wrapped_sub f r) len))

-- After the analysis of a capture every channel's periods are its high times followed by its low times.
pub analyze_events-HasCycles :
    (floats : Floats) (shared : RawCaptureShared) (min_deadtime_ns : floats.Float) (b : Analysis)
    → analyze_events floats shared min_deadtime_ns ≡ ok b
    → Indexed (λ k. HasCycles (bit (raw_to_logical shared.initial_raw_inputs) k)) 0 b.channels
analyze_events-HasCycles floats shared m b h =
    let P = λ (start state k : ℕ) (c : Channel). Phase (bit start k) (bit state k) c in
    let (records, e, i) = analyze_events-channels floats P shared m b base step h in
    let start = raw_to_logical shared.initial_raw_inputs in
    let final = last_state start records in
    Indexed-weaken (P start final) _ 0 b.channels
      (λ k c. Phase-HasCycles (bit start k) (bit final k) c) i
  where
    base : (start k : ℕ) → Phase (bit start k) (bit start k) no_channel
    base start k = Phase.fresh refl refl refl refl refl refl

    step :
        (start t p s k : ℕ) (c : Channel)
        → Phase (bit start k) (bit p k) c
        → Phase (bit start k) (bit s k) (edge_step t (bit p k) (bit s k) c)
    step start t p s k c =
        edge_step-Phase t (bit start k) (bit p k) (bit s k) c (bit-le p k) (bit-le s k)
