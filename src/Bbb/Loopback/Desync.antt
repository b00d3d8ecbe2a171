-- ===== src/Bbb/Loopback/Desync.antt =====
-- boards/beaglebone_black/host/hil_pru_cli.py: a loopback benchmark after one response has come too late.
use hil_lab.Prelude.{ℕ, zero, suc, ◌≡◌, refl, subst, sym, ap, List, [], ◌∷◌, replicate}
use hil_lab.Errors.{ok, err, Exec, continue, lift, ◌>>=◌, runtime_error}
use hil_lab.Bbb.Floats.{Floats}
use hil_lab.Bbb.Protocol.{Message}
use hil_lab.Bbb.Protocol.Codes.{msg_gpio_loopback}
use hil_lab.Bbb.Rpc.{Client, Args}
use hil_lab.Bbb.Rpc.Late.{queue, Responds, Packs, IsLate, request-IsLate}
use hil_lab.Bbb.Loopback.{
  Timing, Tally, raised, fail, enter_sample, loopback_args, sample_of, loopback_once, bench_loop,
}

-- The tally in which each of `n` samples from `index` on has raised the error for a wrong number.
abbrev pub all_raised : (floats : Floats) → ℕ → ℕ → Tally floats → Tally floats
all_raised floats zero index tally = tally
all_raised floats (suc n) index tally =
    all_raised floats n (suc index) (fail floats index (raised runtime_error) tally)

module _ (floats : Floats) (respond : Message → Message) (responds : Responds respond)
    (time : Client (List (List ℕ)) → ℕ) where
  -- A clock that only reads.
  abbrev pub clock : Exec (Client (List (List ℕ))) ℕ
  clock c = (ok (time c), c)

  loopback_once-IsLate :
      (hz : ℕ) (timing : Timing floats) (args : Args) (c : Client (List (List ℕ)))
      → loopback_args floats hz timing ≡ ok args
      → Packs c.seq ((msg_gpio_loopback, args) ∷ [])
      → IsLate c
      → (d : Client (List (List ℕ))) × (loopback_once floats (queue respond) clock hz timing c
          ≡ (err runtime_error, d))
        × IsLate d
        × (d.seq ≡ suc c.seq)
  unfolding loopback_once
  loopback_once-IsLate hz timing args c a p l =
      let (d, e, late, q) =
        request-IsLate respond responds msg_gpio_loopback args c p.0.0 p.0.2 p.0.1 l in
      (
        d,
        rw a (
            ap
              (λ p.
                continue {S = Client (List (List ℕ))} p.0
                  (λ response.
                    clock >>= λ end. lift (sample_of floats hz timing response (time c) end))
                  p.1)
              e),
        late,
        q,
      )

-- When one late response waits at the start of the benchmark's loop, every sample fails, although the
-- firmware answers each request.
pub bench_loop-IsLate :
    (floats : Floats) (respond : Message → Message) (time : Client (List (List ℕ)) → ℕ)
    (n index hz : ℕ) (timing : Timing floats) (args : Args) (tally : Tally floats)
    (c : Client (List (List ℕ)))
    → Responds respond
    → loopback_args floats hz timing ≡ ok args
    → Packs c.seq (replicate n (msg_gpio_loopback, args))
    → IsLate c
    → (d : Client (List (List ℕ))) × (bench_loop floats
          (queue respond)
          (λ s. (ok (time s), s))
          n
          index
          hz
          timing
          tally
          c
        ≡ (all_raised floats n index tally, d))
      × IsLate d
unfolding bench_loop enter_sample
bench_loop-IsLate floats respond time zero index hz timing args tally c responds a p l =
    (c, refl, l)
bench_loop-IsLate floats respond time (suc n) index hz timing args tally c responds a p l =
    let (d, e, late, q) =
      loopback_once-IsLate floats respond responds time hz timing args c a (p.0, tt) l in
    let (f, g, later) =
      bench_loop-IsLate floats respond time n (suc index) hz timing args
        (fail floats index (raised runtime_error) tally) d responds a
        (subst (λ k. Packs k (replicate n (msg_gpio_loopback, args))) (sym q) p.1) late in
    (f, rw e g, later)
