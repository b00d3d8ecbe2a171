-- ===== src/Bbb/Tests/Cores.antt =====
-- A concrete remoteproc beside another one, and the scripts of boards/beaglebone_black/scripts on them.
use text.Mathlib.Text.{◌==◌ as str_eq}
use hil_lab.Prelude.{
  ℕ, suc, ◌-◌, ◌<◌, leb, arith, ◌≡◌, refl, ap, ◌∙◌, Bool, true, false, if◌then◌else◌, String,
  Option, none, some, [], ◌∷◌, ◌⊎◌,
}
use hil_lab.Errors.{Result, ok, err, pure, OnOk, ok-run, os_error, timeout_error}
use hil_lab.Bbb.Remoteproc.Rpmsg.{Waiting, patterns1, wait_for_rpmsg}
use hil_lab.Bbb.Remoteproc.Rpmsg.Ends.{IsSome, Passes, wait_for_rpmsg-ends}
use hil_lab.Bbb.Tests.Captures.{whole}
use hil_lab.Bbb.Remoteproc.{Sysfs, pru1, find_remoteproc, install_and_start}
use hil_lab.Bbb.Remoteproc.Deploy.{IsRemoteproc, IsDeployed, install_and_start-IsDeployed}
use hil_lab.Bbb.Remoteproc.Unique.{IsUnique, find_remoteproc-IsFound}

-- Whether the second core runs, and the name of its firmware.
abbrev Cores : Type 0
Cores = Bool × String

abbrev state_text : Bool → String
state_text true = "running"
state_text false = "offline"

abbrev text_of : String → String → Cores → Result String
text_of path file cores =
    if str_eq file "name"
    then ok (if str_eq path "remoteproc1" then "4a334000.pru" else "4A338000.PRU")
    else if str_eq file "state"
    then ok (state_text cores.0)
    else err os_error

abbrev written : String → String → Cores → Cores
written file value cores =
    if str_eq file "state" then (str_eq value "start", cores.1) else (cores.0, value)

abbrev board : Sysfs
board = record {
  State = Cores;
  remoteprocs = pure ("remoteproc1" ∷ "remoteproc2" ∷ []);
  exists = λ path. pure true;
  is_file = λ path. pure true;
  effective_user = pure 0;
  read_text = λ path file cores. (text_of path file cores, cores);
  write_control = λ path file value cores. (ok tt, written file value cores);
  copy_firmware = λ source name. pure tt;
}

told :
    (s t : Cores) (value : String)
    → ◌≡◌ {A = Result String × Cores} (ok (state_text s.0), s) (ok value, t)
    → (str_eq value "running" ≡ s.0) × (t.0 ≡ s.0)
told s t value h =
    let (p, q) = ok-run h in (ap (λ v. str_eq v "running") p ∙ same s.0, ap (λ c. c.0) q)
  where
    same : (b : Bool) → str_eq (state_text b) "running" ≡ b
    same true = refl
    same false = refl

board-IsRemoteproc : IsRemoteproc board "remoteproc2" (λ cores. cores.0)
board-IsRemoteproc = record {
  told = λ s t value h. told s t value h;
  stopped = λ s t h. ap (λ c. c.0) (ok-run h).1;
  started = λ s t h. ap (λ c. c.0) (ok-run h).1;
  named = λ name s t h. ap (λ c. c.0) (ok-run h).1;
  copied = λ source name s t h. ap (λ c. c.0) (ok-run h).1;
}

install_and_start-IsDeployed_example :
    OnOk
      (λ done.
        IsDeployed board "remoteproc2"
          (λ cores. cores.0)
          "pru1.out"
          "am335x-pru1-fw"
          (install_and_start board "remoteproc2" "pru1.out" "am335x-pru1-fw" (true, "old")).1)
      (install_and_start board "remoteproc2" "pru1.out" "am335x-pru1-fw" (true, "old")).0
install_and_start-IsDeployed_example =
    install_and_start-IsDeployed board "remoteproc2" "pru1.out" "am335x-pru1-fw" (λ cores. cores.0)
      (true, "old") board-IsRemoteproc

find_remoteproc-IsFound_example :
    OnOk
      (λ path.
        (◌≡◌ {A = Option String} none (some path))
          × (board.exists path (true, "old")
              ≡ (ok true, (find_remoteproc board pru1 none (true, "old")).1))
        ⊎ IsUnique board pru1 (true, "old") path)
      (find_remoteproc board pru1 none (true, "old")).0
find_remoteproc-IsFound_example =
    find_remoteproc-IsFound board pru1 none (true, "old") (λ path file t. refl)

-- The search takes the second remoteproc, whose name is in capitals.
found : find_remoteproc board pru1 none (true, "old") ≡ (ok "remoteproc2", (true, "old"))
unfolding find_remoteproc
found = refl

deployed :
    install_and_start board "remoteproc2" "pru1.out" "am335x-pru1-fw" (true, "old")
    ≡ (ok tt, (true, "am335x-pru1-fw"))
unfolding install_and_start
deployed = refl

-- A clock that each sleep advances, and a device that appears at time 3.
abbrev clock : Waiting whole
clock = record {
  State = ℕ;
  glob = λ pattern time. (ok (pattern ∷ []), time);
  exists = λ path time. (ok (leb 3 time), time);
  monotonic = λ time. (ok time, time);
  sleep = λ time. (ok tt, suc time);
}

clock-Passes : (deadline : ℕ) → Passes whole clock deadline (λ time. deadline - time)
clock-Passes deadline = record {
  before = λ s t now e l. before s t now (ok-run e) l;
  reads = λ s. omega arith;
  lists = λ pattern s. omega arith;
  looks = λ path s. omega arith;
  sleeps = λ s. omega arith;
}
  where
    before : (s t now : ℕ) → (now ≡ s) × (t ≡ s) → whole.lt now deadline ≡ true → 0 < deadline - t
    before s t now (p, q) l = ground (arith, p, q, l)

wait_for_rpmsg-ends_example : OnOk IsSome (wait_for_rpmsg whole clock 9 patterns1 8 0).0
wait_for_rpmsg-ends_example =
    wait_for_rpmsg-ends whole clock (λ deadline time. deadline - time) patterns1 8 9 0 clock-Passes
      (λ start e. omega (arith, ap started e))
  where
    started : Result ℕ → ℕ
    started (ok time) = time
    started (err e) = 0

appears : wait_for_rpmsg whole clock 9 patterns1 8 0 ≡ (ok (some "/dev/rpmsg_pru31"), 3)
unfolding wait_for_rpmsg
appears = refl

timed_out : wait_for_rpmsg whole clock 9 patterns1 2 0 ≡ (err timeout_error, 2)
unfolding wait_for_rpmsg
timed_out = refl
