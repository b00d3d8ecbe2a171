-- ===== src/Bbb/Stim/Schedules.antt =====
-- boards/beaglebone_black/host/hil_stim_cli.py: the changes that are scheduled.
use hil_lab.Prelude.{
  ℕ, ◌≤◌, ◌%◌, ◌/◌, ◌≡◌, ◌≢◌, ◌⊎◌, inl, inr, refl, subst, sym, ap, Bool, true, false, not, ◌==◌,
  if◌then◌else◌, Option, none, some, String, bit_or, arith,
}
use hil_lab.Errors.{
  ok, err, bind, bind-eq-ok, refuse_if, refuse_if-eq-ok, ok-injective, value_error,
}
use hil_lab.Bbb.Floats.{Floats}
use hil_lab.Bbb.Rpc.{Args}
use hil_lab.Bbb.Stim.{
  Rate, selected, resolve_transition_ticks, scheduled_rate, scheduled_direction, schedule_args,
  direction_value,
}
use hil_lab.Bbb.Stim.Requests.{resolve_transition_ticks-le}

-- A change that is queued: a rate at or above the floor with bit 0 of the flags, or none without it; a
-- direction with bit 1, or none without it; and one of the two.
pub record IsSchedule (turn : Option String) (apply_ticks : ℕ) (args : Args) : Type 0 where
  pub applied : args.arg0 ≡ apply_ticks
  pub rate_flag :
      ((100 ≤ args.arg1) × (args.arg3 % 2 ≡ 1)) ⊎ ((args.arg1 ≡ 0) × (args.arg3 % 2 ≡ 0))
  pub turn_flag :
      ((turn ≢ none) × (args.arg3 / 2 ≡ 1))
      ⊎ ((turn ≡ none) × (args.arg2 ≡ 0) × (args.arg3 / 2 ≡ 0))
  pub change : args.arg3 ≢ 0
  pub turn_range : args.arg2 ≤ 1

scheduled_rate-flag :
    (floats : Floats) (rate : Rate floats) (tick_hz : ℕ) (scheduled : ℕ × ℕ)
    → scheduled_rate floats rate tick_hz ≡ ok scheduled
    → ((100 ≤ scheduled.0) × (scheduled.1 ≡ 1)) ⊎ ((scheduled.0 ≡ 0) × (scheduled.1 ≡ 0))
unfolding scheduled_rate
scheduled_rate-flag floats rate hz scheduled =
    by_tests (selected floats rate == 0) (selected floats rate == 1)
  where
    by_tests :
        (n o : Bool)
        → (if n
            then ok (0, 0)
            else if not o
            then err value_error
            else (bind (resolve_transition_ticks floats rate hz) λ resolved. ok (resolved.0, 1)))
          ≡ ok scheduled
        → ((100 ≤ scheduled.0) × (scheduled.1 ≡ 1)) ⊎ ((scheduled.0 ≡ 0) × (scheduled.1 ≡ 0))
    by_tests true o h =
        inr (ap (λ p. p.0) (ok-injective _ scheduled h), ap (λ p. p.1) (ok-injective _ scheduled h))
    by_tests false false h = cc
    by_tests false true h =
        let (r, e, k) = bind-eq-ok (resolve_transition_ticks floats rate hz) _ h in
        let same = ok-injective _ scheduled k in
        inl (
          subst (λ p. 100 ≤ p.0) (sym same) (resolve_transition_ticks-le floats rate hz r e),
          ap (λ p. p.1) same,
        )

direction_value-le : (direction : String) → direction_value direction ≤ 1
direction_value-le direction = ground arith

-- Scheduled changes that are accepted are sent as such.
pub schedule_args-IsSchedule :
    (floats : Floats) (rate : Rate floats) (turn : Option String) (tick_hz apply_ticks : ℕ)
    (args : Args)
    → schedule_args floats rate turn tick_hz apply_ticks ≡ ok args
    → IsSchedule turn apply_ticks args
unfolding schedule_args
schedule_args-IsSchedule floats rate turn hz apply_ticks args h =
    let (sch, e₁, k₁) = bind-eq-ok (scheduled_rate floats rate hz) _ h in
    let flags : ℕ = bit_or sch.1 (scheduled_direction turn).1 in
    let (d, e₂, k₂) = bind-eq-ok (refuse_if (flags == 0) value_error) _ k₁ in
    subst (IsSchedule turn apply_ticks) (sym (ok-injective _ args k₂)) (
      checked turn sch.0 sch.1 (scheduled_rate-flag floats rate hz sch e₁)
        (refuse_if-eq-ok (flags == 0) value_error e₂))
  where
    checked :
        (turn : Option String) (ticks f : ℕ)
        → ((100 ≤ ticks) × (f ≡ 1)) ⊎ ((ticks ≡ 0) × (f ≡ 0))
        → (bit_or f (scheduled_direction turn).1 == 0) ≡ false
        → IsSchedule turn apply_ticks (record {
          arg0 = apply_ticks;
          arg1 = ticks;
          arg2 = (scheduled_direction turn).0;
          arg3 = bit_or f (scheduled_direction turn).1;
        })
    checked none ticks f (inl (t, e)) h = rw e (record {
      applied = refl;
      rate_flag = inl (t, refl);
      turn_flag = inr (refl, refl, refl);
      change = omega arith;
      turn_range = omega arith;
    })
    checked none ticks f (inr (t, e)) h = absurd (ground (arith, e, h))
    checked (some x) ticks f (inl (t, e)) h = rw e (record {
      applied = refl;
      rate_flag = inl (t, refl);
      turn_flag = inl ((λ z. cc), refl);
      change = omega arith;
      turn_range = direction_value-le x;
    })
    checked (some x) ticks f (inr (t, e)) h = rw e (record {
      applied = refl;
      rate_flag = inr (t, refl);
      turn_flag = inl ((λ z. cc), refl);
      change = omega arith;
      turn_range = direction_value-le x;
    })
