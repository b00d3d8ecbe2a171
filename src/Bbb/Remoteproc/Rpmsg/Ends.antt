-- ===== src/Bbb/Remoteproc/Rpmsg/Ends.antt =====
-- boards/beaglebone_black/scripts/pru0_ctl.py and pru1_ctl.py: the turns that the wait for the device takes.
use hil_lab.Prelude.{
  ℕ, zero, suc, ◌-◌, ◌≤◌, ◌<◌, ◌≡◌, refl, ap, Bool, true, false, if◌then◌else◌, Option, none, some,
  List, [], ◌∷◌, String, arith,
}
use hil_lab.Errors.{
  ok, Exec, pure, raise, ◌>>=◌, ◌>>◌, OnOk, continue-state, continue-OnOk_eq, timeout_error,
}
use hil_lab.Bbb.Floats.{Floats}
use hil_lab.Bbb.Remoteproc.Rpmsg.{
  Waiting, on_found, first_candidate, first_device, turn, wait_loop, wait_for_rpmsg,
}

abbrev pub IsSome : Option String → Type 0
IsSome none = ⊥
IsSome (some x) = Unit

-- Time passes: some are left of the sleeps until a deadline while it is not reached, no call brings one
-- back, and each sleep takes one while there is one.
pub record Passes (floats : Floats) (waiting : Waiting floats) (deadline : floats.Float)
    (left : waiting.State → ℕ) : Type 0 where
  pub before :
      (s t : waiting.State) (now : floats.Float)
      → waiting.monotonic s ≡ (ok now, t)
      → floats.lt now deadline ≡ true
      → 0 < left t
  pub reads : (s : waiting.State) → left (waiting.monotonic s).1 ≤ left s
  pub lists : (pattern : String) (s : waiting.State) → left (waiting.glob pattern s).1 ≤ left s
  pub looks : (path : String) (s : waiting.State) → left (waiting.exists path s).1 ≤ left s
  pub sleeps : (s : waiting.State) → left (waiting.sleep s).1 ≤ left s - 1

module _ (floats : Floats) (waiting : Waiting floats) (deadline : floats.Float)
    (left : waiting.State → ℕ) (passes : Passes floats waiting deadline left) where
  -- What is left after a step and what follows it.
  bind-le :
      {A B : Type 0} (m : Exec waiting.State A) (f : A → Exec waiting.State B) (s : waiting.State)
      (k : ℕ)
      → left (m s).1 ≤ k
      → ((a : A) (t : waiting.State) → left t ≤ k → left (f a t).1 ≤ k)
      → left ((m >>= f) s).1 ≤ k
  bind-le m f s k l h = continue-state (λ t. left t ≤ k) (m s).0 f (m s).1 l (λ a. h a (m s).1 l)

  first_candidate-le :
      (candidates : List String) (s : waiting.State) (k : ℕ)
      → left s ≤ k
      → left (first_candidate floats waiting candidates s).1 ≤ k
  unfolding first_candidate
  first_candidate-le [] s k l = l
  first_candidate-le (candidate ∷ others) s k l =
      bind-le (waiting.exists candidate)
        (λ found. if found then pure (some candidate) else first_candidate floats waiting others) s
        k (omega (arith, passes.looks candidate s, l))
        (λ found t m. chosen found t m (first_candidate-le others t k m))
    where
      chosen :
          (found : Bool) (t : waiting.State)
          → left t ≤ k
          → left (first_candidate floats waiting others t).1 ≤ k
          → left
              ((if found then pure (some candidate) else first_candidate floats waiting others) t).1
            ≤ k
      chosen true t m h = m
      chosen false t m h = h

  first_device-le :
      (patterns : List String) (s : waiting.State) (k : ℕ)
      → left s ≤ k
      → left (first_device floats waiting patterns s).1 ≤ k
  unfolding first_device
  first_device-le [] s k l = l
  first_device-le (pattern ∷ others) s k l =
      bind-le (waiting.glob pattern)
        (λ candidates. first_candidate floats waiting candidates >>= λ found.
          on_found floats waiting found (first_device floats waiting others))
        s k (omega (arith, passes.lists pattern s, l))
        (λ candidates t m.
          bind-le (first_candidate floats waiting candidates)
            (λ found. on_found floats waiting found (first_device floats waiting others)) t k
            (first_candidate-le candidates t k m)
            (λ found u n. chosen found u n (first_device-le others u k n)))
    where
      chosen :
          (found : Option String) (u : waiting.State)
          → left u ≤ k
          → left (first_device floats waiting others u).1 ≤ k
          → left (on_found floats waiting found (first_device floats waiting others) u).1 ≤ k
      chosen none u n h = h
      chosen (some candidate) u n h = n

  -- A step that succeeds, and what follows it.
  bind-IsSome :
      {A : Type 0} (m : Exec waiting.State A) (f : A → Exec waiting.State (Option String))
      (s : waiting.State)
      → ((a : A) → (m s).0 ≡ ok a → OnOk IsSome (f a (m s).1).0)
      → OnOk IsSome ((m >>= f) s).0
  bind-IsSome m f s h = continue-OnOk_eq IsSome (m s).0 f (m s).1 h

  wait_loop-IsSome :
      (turns : ℕ) (patterns : List String) (s : waiting.State)
      → left s < turns
      → OnOk IsSome (wait_loop floats waiting turns patterns deadline s).0
  unfolding wait_loop
  wait_loop-IsSome zero patterns s l = absurd (omega (arith, l))
  wait_loop-IsSome (suc turns) patterns s l =
      bind-IsSome waiting.monotonic
        (λ now.
          if floats.lt now deadline
          then turn floats waiting patterns (wait_loop floats waiting turns patterns deadline)
          else raise timeout_error)
        s
        (λ now e.
          on_time now (floats.lt now deadline) refl (waiting.monotonic s).1
            (ap (λ r. (r, (waiting.monotonic s).1)) e) (passes.reads s)
            (λ t m. wait_loop-IsSome turns patterns t m))
    where
      on_time :
          (now : floats.Float) (b : Bool)
          → floats.lt now deadline ≡ b
          → (t : waiting.State) → waiting.monotonic s ≡ (ok now, t)
          → left t ≤ left s
          → ((u : waiting.State)
              → left u < turns
              → OnOk IsSome (wait_loop floats waiting turns patterns deadline u).0)
          → OnOk IsSome
              ((if b
                  then turn floats waiting patterns
                      (wait_loop floats waiting turns patterns deadline)
                  else raise timeout_error)
                t).0
      on_time now false p t e m ih = tt
      on_time now true p t e m ih =
          bind-IsSome (first_device floats waiting patterns)
            (λ found.
              on_found floats waiting found
                (waiting.sleep >> wait_loop floats waiting turns patterns deadline))
            t
            (λ found f.
              slept found (first_device floats waiting patterns t).1
                (first_device-le patterns t (left t) (omega arith)))
        where
          slept :
              (found : Option String) (u : waiting.State)
              → left u ≤ left t
              → OnOk IsSome
                  (on_found floats waiting found
                    (waiting.sleep >> wait_loop floats waiting turns patterns deadline)
                    u).0
          slept (some candidate) u n = tt
          slept none u n =
              bind-IsSome waiting.sleep (λ d. wait_loop floats waiting turns patterns deadline) u
                (λ d f.
                  ih (waiting.sleep u).1
                    (omega (arith, passes.sleeps u, passes.before s t now e p, n, m, l)))

-- Where time passes, the wait ends within one turn more than there are sleeps left until its deadline: with a
-- candidate, with the timeout, or with an error of the operating system.
pub wait_for_rpmsg-ends :
    (floats : Floats) (waiting : Waiting floats) (left : floats.Float → waiting.State → ℕ)
    (patterns : List String) (timeout_s : floats.Float) (turns : ℕ) (s : waiting.State)
    → ((deadline : floats.Float) → Passes floats waiting deadline (left deadline))
    → ((start : floats.Float)
        → (waiting.monotonic s).0 ≡ ok start
        → left (floats.add start timeout_s) (waiting.monotonic s).1 < turns)
    → OnOk IsSome (wait_for_rpmsg floats waiting turns patterns timeout_s s).0
unfolding wait_for_rpmsg
wait_for_rpmsg-ends floats waiting left patterns timeout_s turns s passes l =
    continue-OnOk_eq IsSome (waiting.monotonic s).0
      (λ start. wait_loop floats waiting turns patterns (floats.add start timeout_s))
      (waiting.monotonic s).1
      (λ start e.
        wait_loop-IsSome floats waiting (floats.add start timeout_s) (left _) (passes _) turns
          patterns (waiting.monotonic s).1 (l start e))
