-- ===== src/Lab/Tests.antt =====
-- A session on a bench whose place is taken and whose backend then fails, and on a good bench.
use hil_lab.Prelude.{ℕ, suc, ◌+◌, ◌≡◌, refl, Bool, true, false, some, if◌then◌else◌}
use hil_lab.Errors.{ok, err, infrastructure, resource_busy}
use hil_lab.Lab.{Bench, Session, release_place, enter, exit}
use hil_lab.Lab.Safety.{enter-safe, exit-safe}

-- The hardware counts what was done to it. The backend fails when `broken`.
abbrev bench : Bool → Bench
bench broken = record {
  Hardware = ℕ;
  force_safe = λ n. (if broken then err infrastructure else ok tt, suc n);
  runner = λ argv n. (ok (record { argv = argv; returncode = 0 }), n + 10);
  which = λ n. some "/usr/bin/labgrid-client";
  place = some "bench-1";
}

abbrev fresh : Session ℕ
fresh = record { hardware = 0; locked_elsewhere = false; holds = false; acquired = false }

abbrev ready : Session ℕ
ready = record { hardware = 11; locked_elsewhere = false; holds = true; acquired = true }

entered_broken : enter (bench true) fresh ≡ (
  err infrastructure,
  record { hardware = 21; locked_elsewhere = false; holds = false; acquired = false },
)
unfolding enter
entered_broken = refl

entered_ready : enter (bench false) fresh ≡ (ok tt, ready)
unfolding enter
entered_ready = refl

entered_busy : enter (bench false) ready ≡ (err resource_busy, ready)
unfolding enter
entered_busy = refl

left_ready :
    exit (bench false) false ready
    ≡ (ok tt, record { hardware = 22; locked_elsewhere = false; holds = false; acquired = false })
unfolding exit
left_ready = refl

enter-safe_example : (h : ℕ) × ((bench false).force_safe h ≡ (ok tt, 11))
enter-safe_example = enter-safe (bench false) fresh ready entered_ready

exit-safe_example :
    (h : ℕ) × ((bench false).force_safe 11 ≡ (ok tt, h))
    × ((release_place (bench false) (some "bench-1") (record ready { hardware = h })).0 ≡ ok tt)
    × (22
        ≡ (release_place (bench false) (some "bench-1") (record ready { hardware = h })).1.hardware)
exit-safe_example =
    exit-safe (bench false) ready
      (record { hardware = 22; locked_elsewhere = false; holds = false; acquired = false })
      left_ready
