-- ===== src/Lab/Safety.antt =====
-- lab/session.py: the safe state of the backend at both ends of a session.
use hil_lab.Prelude.{◌≡◌, ap, ◌∙◌, sym, false}
use hil_lab.Errors.{Result, ok, err, Exec, lift, continue, >>=-eq-ok, raise}
use hil_lab.Lab.{
  Bench, Session, finally, rescue, on_hardware, lock_acquire, lock_release, acquire_place,
  release_place, enter, exit,
}

rescue-eq-ok :
    {S A : Type 0} {a : A} {t : S} (r : Result A) (k : Exec S (Unit {0})) (s : S)
    → rescue r k s ≡ (ok a, t)
    → ◌≡◌ {A = Result A × S} (r, s) (ok a, t)
rescue-eq-ok (ok a) k s h = h
rescue-eq-ok {S = S} {A = A} {a = a} {t = t} (err e) k s h = raised (k s).0 (k s).1 h
  where
    raised :
        (r : Result (Unit {0})) (u : S)
        → continue r (λ d. raise e) u ≡ (ok a, t)
        → ◌≡◌ {A = Result A × S} (err e, s) (ok a, t)
    raised (ok d) u h = cc
    raised (err x) u h = cc

-- Entering a session succeeds only after the backend was brought to its safe state, as the last thing
-- that was done to the hardware.
pub enter-safe :
    (bench : Bench) (s t : Session bench.Hardware)
    → enter bench s ≡ (ok tt, t)
    → (h : bench.Hardware) × (bench.force_safe h ≡ (ok tt, t.hardware))
unfolding enter
enter-safe bench s t h =
    let (d, u, a, b) = >>=-eq-ok (lock_acquire bench) _ s h in
    let (e, v, f, g) =
      >>=-eq-ok (acquire_place bench bench.place) (λ d. on_hardware bench bench.force_safe) u
        (rescue-eq-ok _ _ _ b) in
    (v.hardware, ap (λ p. (p.0, p.1.hardware)) g)

-- A session whose body ended without an exception is left without one only if the backend reached
-- its safe state, and the hardware has then seen that and the release of the place, in this order.
pub exit-safe :
    (bench : Bench) (s t : Session bench.Hardware)
    → exit bench false s ≡ (ok tt, t)
    → (h : bench.Hardware) × (bench.force_safe s.hardware ≡ (ok tt, h))
      × ((release_place bench bench.place (record s { hardware = h })).0 ≡ ok tt)
      × (t.hardware ≡ (release_place bench bench.place (record s { hardware = h })).1.hardware)
unfolding exit lock_release
exit-safe bench s t h =
    let s₁ = record s { hardware = (bench.force_safe s.hardware).1 } in
    let (d, u, a, b) =
      >>=-eq-ok (finally (release_place bench bench.place) (lock_release bench))
        (λ d. lift (bench.force_safe s.hardware).0) s₁ h in
    (
      (bench.force_safe s.hardware).1,
      ap (λ p. (p.0, (bench.force_safe s.hardware).1)) b,
      ap (λ p. p.0) a,
      sym (ap (λ p. p.1.hardware) a ∙ ap (λ p. p.1.hardware) b),
    )
