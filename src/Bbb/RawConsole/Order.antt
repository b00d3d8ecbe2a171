-- ===== src/Bbb/RawConsole/Order.antt =====
-- boards/beaglebone_black/host/hil_raw_cli.py: what has gone before when a capture succeeds.
use hil_lab.Prelude.{ℕ, ◌≡◌, ◌≤◌, refl, subst, sym, ap, ◌∙◌, not, ◌==◌, false, arith}
use hil_lab.Errors.{
  Result, ok, err, Exec, pure, lift, OnOk, >>=-eq-ok, raise_if-eq-ok, ok-run, value_error,
  runtime_error,
}
use hil_lab.Bbb.Floats.{Floats}
use hil_lab.Bbb.Protocol.{Message}
use hil_lab.Bbb.Protocol.Codes.{msg_raw_config, msg_raw_start, msg_raw_clear, msg_raw_status}
use hil_lab.Bbb.Raw.{RawCaptureShared}
use hil_lab.Bbb.Raw.Ticks.{analyze_raw_capture}
use hil_lab.Bbb.Rpc.{Rpmsg, Client, Args, no_args, request}
use hil_lab.Bbb.RawConsole.{
  is_event_limit, event_limit_args, checked_request, CaptureResult, capture,
}

-- A request that was answered with status 0.
abbrev pub Acknowledges :
    (rpmsg : Rpmsg) → ℕ → Args → Client rpmsg.State → Message → Client rpmsg.State → Type 0
Acknowledges rpmsg msg_type args before response after =
    (request rpmsg msg_type args before ≡ (ok response, after)) × (response.flags ≡ 0)

is_zero : (n : ℕ) → not (n == 0) ≡ false → n ≡ 0
is_zero n h = ground (arith, h)

in_range : (n : ℕ) → not (is_event_limit n) ≡ false → (1 ≤ n) × (n ≤ 1024)
in_range n h = ground (arith, h)

checked_request-eq-ok :
    (rpmsg : Rpmsg) (msg_type : ℕ) (args : Args) (c d : Client rpmsg.State) (m : Message)
    → checked_request rpmsg msg_type args c ≡ (ok m, d)
    → Acknowledges rpmsg msg_type args c m d
unfolding checked_request
checked_request-eq-ok rpmsg ty args c d m h =
    let (r, u, e, k) = >>=-eq-ok (request rpmsg ty args) _ c h in
    let (zero_flags, l) = raise_if-eq-ok (not (r.flags == 0)) runtime_error (pure r) u k in
    same r u e (is_zero r.flags zero_flags) (ok-run l)
  where
    same :
        (r : Message) (u : Client rpmsg.State)
        → request rpmsg ty args c ≡ (ok r, u)
        → r.flags ≡ 0
        → (m ≡ r) × (d ≡ u)
        → Acknowledges rpmsg ty args c m d
    same r u e z (p, q) = rw (p, q) (e, z)

-- The way to a capture that is read: an admissible limit; configuring, clearing and starting, each answered
-- with status 0; the sleep, with no request in it; one status, which says that the capture has stopped; and
-- only then the shared memory.
pub record IsCaptured (floats : Floats) (rpmsg : Rpmsg)
    (read : Exec (Client rpmsg.State) RawCaptureShared)
    (sleep : floats.Float → Exec (Client rpmsg.State) Unit) (limit : ℕ) (settle : floats.Float)
    (c d : Client rpmsg.State) : Type 0 where
  pub configured : Message
  pub cleared : Message
  pub started : Message
  pub status : Message
  pub shared : RawCaptureShared
  pub c₁ : Client rpmsg.State
  pub c₂ : Client rpmsg.State
  pub c₃ : Client rpmsg.State
  pub c₄ : Client rpmsg.State
  pub c₅ : Client rpmsg.State
  pub limit_range : (1 ≤ limit) × (limit ≤ 1024)
  pub configures : Acknowledges rpmsg msg_raw_config (event_limit_args limit) c configured c₁
  pub clears : Acknowledges rpmsg msg_raw_clear no_args c₁ cleared c₂
  pub starts : Acknowledges rpmsg msg_raw_start no_args c₂ started c₃
  pub sleeps : sleep settle c₃ ≡ (ok tt, c₄)
  pub stopped : Acknowledges rpmsg msg_raw_status no_args c₄ status c₅ × (status.arg0 ≡ 0)
  pub reads : read c₅ ≡ (ok shared, d)

capture-eq-ok :
    (floats : Floats) (rpmsg : Rpmsg) (read : Exec (Client rpmsg.State) RawCaptureShared)
    (sleep : floats.Float → Exec (Client rpmsg.State) Unit) (limit : ℕ)
    (settle min_deadtime : floats.Float) (c d : Client rpmsg.State) (result : CaptureResult floats)
    → capture floats rpmsg read sleep limit settle min_deadtime c ≡ (ok result, d)
    → IsCaptured floats rpmsg read sleep limit settle c d
unfolding capture
capture-eq-ok floats rpmsg read sleep limit settle min_deadtime c d result h =
    let checked = checked_request rpmsg in
    let valid = checked_request-eq-ok rpmsg in
    let (r, k₀) = raise_if-eq-ok (not (is_event_limit limit)) value_error _ c h in
    let (p, k₁) = raise_if-eq-ok (floats.lt settle (floats.of_nat 0)) value_error _ c k₀ in
    let (m₁, c₁, e₁, k₂) = >>=-eq-ok (checked msg_raw_config (event_limit_args limit)) _ c k₁ in
    let (m₂, c₂, e₂, k₃) = >>=-eq-ok (checked msg_raw_clear no_args) _ c₁ k₂ in
    let (m₃, c₃, e₃, k₄) = >>=-eq-ok (checked msg_raw_start no_args) _ c₂ k₃ in
    let (s, c₄, e₄, k₅) = >>=-eq-ok (sleep settle) _ c₃ k₄ in
    let (m₄, c₅, e₅, k₆) = >>=-eq-ok (checked msg_raw_status no_args) _ c₄ k₅ in
    let (idle, k₇) = raise_if-eq-ok (not (m₄.arg0 == 0)) runtime_error _ c₅ k₆ in
    let (shared, c₆, e₆, k₈) = >>=-eq-ok read _ c₅ k₇ in
    let (a, c₇, e₇, k₉) =
      >>=-eq-ok (lift (analyze_raw_capture floats shared min_deadtime)) _ c₆ k₈ in
    let same : d ≡ c₆ = sym (ap (λ t. t.1) e₇ ∙ ap (λ t. t.1) k₉) in
    record {
      configured = m₁;
      cleared = m₂;
      started = m₃;
      status = m₄;
      shared = shared;
      c₁ = c₁;
      c₂ = c₂;
      c₃ = c₃;
      c₄ = c₄;
      c₅ = c₅;
      limit_range = in_range limit r;
      configures = valid msg_raw_config (event_limit_args limit) c c₁ m₁ e₁;
      clears = valid msg_raw_clear no_args c₁ c₂ m₂ e₂;
      starts = valid msg_raw_start no_args c₂ c₃ m₃ e₃;
      sleeps = e₄;
      stopped = (valid msg_raw_status no_args c₄ c₅ m₄ e₅, is_zero m₄.arg0 idle);
      reads = subst (λ t. read c₅ ≡ (ok shared, t)) (sym same) e₆;
    }

-- Whatever the device, the reader and the sleep do, a capture that succeeds has gone this way.
pub capture-IsCaptured :
    (floats : Floats) (rpmsg : Rpmsg) (read : Exec (Client rpmsg.State) RawCaptureShared)
    (sleep : floats.Float → Exec (Client rpmsg.State) Unit) (limit : ℕ)
    (settle min_deadtime : floats.Float) (c : Client rpmsg.State)
    → OnOk
        (λ result.
          IsCaptured floats rpmsg read sleep limit settle c
            (capture floats rpmsg read sleep limit settle min_deadtime c).1)
        (capture floats rpmsg read sleep limit settle min_deadtime c).0
capture-IsCaptured floats rpmsg read sleep limit settle min_deadtime c =
    by_result (capture floats rpmsg read sleep limit settle min_deadtime c).0 refl
  where
    by_result :
        (r : Result (CaptureResult floats))
        → (capture floats rpmsg read sleep limit settle min_deadtime c).0 ≡ r
        → OnOk
            (λ result.
              IsCaptured floats rpmsg read sleep limit settle c
                (capture floats rpmsg read sleep limit settle min_deadtime c).1)
            r
    by_result (ok result) e =
        capture-eq-ok floats rpmsg read sleep limit settle min_deadtime c
          (capture floats rpmsg read sleep limit settle min_deadtime c).1 result
          (ap (λ r. (r, (capture floats rpmsg read sleep limit settle min_deadtime c).1)) e)
    by_result (err x) e = tt
