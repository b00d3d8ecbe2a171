-- ===== src/Bbb/Stim/Closing.antt =====
-- boards/beaglebone_black/host/hil_stim_cli.py: the device around a whole run.
use hil_lab.Prelude.{ℕ, ◌≡◌, not, leb, Option, none, some, String}
use hil_lab.Errors.{Exec, pure, ◌>>=◌, continue, continue-state, refuse_if, value_error}
use hil_lab.Bbb.Floats.{Floats}
use hil_lab.Bbb.Conversions.{is_nonpositive, us_to_ticks}
use hil_lab.Bbb.Protocol.{
  Message, msg_hello, msg_time, msg_abz_config, msg_abz_start, msg_abz_stop, msg_force_safe,
}
use hil_lab.Bbb.Protocol.Codes.{
  msg_abz_status, msg_abz_direction, msg_abz_arm, msg_abz_schedule, msg_hall_config, msg_hall_start,
  msg_hall_stop, msg_hall_status, msg_stim_status,
}
use hil_lab.Bbb.Rpc.{Rpmsg, Client, Args, no_args, request}
use hil_lab.Bbb.Loopback.{HelloInfo, hello}
use hil_lab.Bbb.Console.{Port, exit_code}
use hil_lab.Bbb.Console.Closing.{DeviceKeeps, request-Keeps, CountsDevice, with_client-held}
use hil_lab.Bbb.Stim.{direction_value, resolve_future_ticks, abz_config, schedule_args, hall_config}
use hil_lab.Bbb.Stim.Commands.{
  StimCommand, say_hello, start, stop, status, scheduler_status, hall_start, hall_stop, hall_status,
  safe, config, direction, arm, schedule, hall, optional_rate, run_command, main,
}

module _ (floats : Floats) (rpmsg : Rpmsg) (clock : Exec (Client rpmsg.State) ℕ)
    (P : rpmsg.State → Type 0) (keeps : DeviceKeeps rpmsg P) where
  -- What holds of a client when it holds of its device.
  abbrev On : Client rpmsg.State → Type 0
  On c = P c.device

  -- A request keeps it, and so does what follows, if that does.
  asked :
      {B : Type 0} (msg_type : ℕ) (args : Args) (f : Message → Exec (Client rpmsg.State) B)
      (c : Client rpmsg.State)
      → On c
      → ((m : Message) (d : Client rpmsg.State) → On d → On (f m d).1)
      → On (continue (request rpmsg msg_type args c).0 f (request rpmsg msg_type args c).1).1
  asked ty args f c p k =
      let q = (request-Keeps rpmsg P ty args keeps).kept c p in
      let d = (request rpmsg ty args c).1 in
      continue-state On (request rpmsg ty args c).0 f d q (λ m. k m d q)

  greeted :
      {B : Type 0} (f : HelloInfo → Exec (Client rpmsg.State) B) (c : Client rpmsg.State)
      → On c
      → ((i : HelloInfo) (d : Client rpmsg.State) → On d → On (f i d).1)
      → On (continue (hello floats rpmsg clock c).0 f (hello floats rpmsg clock c).1).1
  unfolding hello
  greeted f c p k =
      let q = asked msg_hello no_args _ c p (λ m d r. r) in
      continue-state On (hello floats rpmsg clock c).0 f (hello floats rpmsg clock c).1 q
        (λ i. k i (hello floats rpmsg clock c).1 q)

  future-On :
      (tick_hz : ℕ) (apply_ticks : Option ℕ) (after_us : Option floats.Float)
      (c : Client rpmsg.State)
      → On c
      → On (resolve_future_ticks floats rpmsg tick_hz apply_ticks after_us c).1
  unfolding resolve_future_ticks
  future-On hz none none c p = p
  future-On hz (some t) (some us) c p = p
  future-On hz (some t) none c p =
      continue-state On (refuse_if (not (leb t 0xffff_ffff)) value_error) _ c p (λ d. p)
  future-On hz none (some us) c p =
      continue-state On (refuse_if (is_nonpositive floats us) value_error) _ c p λ d.
        asked msg_time no_args _ c p
          λ m e q. continue-state On (us_to_ticks floats us hz) _ e q (λ delay. q)

  -- After the greeting and the time at which a change is to apply.
  timed :
      {B : Type 0} (tick_hz : ℕ) (apply_ticks : Option ℕ) (after_us : Option floats.Float)
      (f : ℕ → Exec (Client rpmsg.State) B) (c : Client rpmsg.State)
      → On c
      → ((t : ℕ) (d : Client rpmsg.State) → On d → On (f t d).1)
      → On
          (continue
            (resolve_future_ticks floats rpmsg tick_hz apply_ticks after_us c).0
            f
            (resolve_future_ticks floats rpmsg tick_hz apply_ticks after_us c).1).1
  timed hz at after f c p k =
      let q = future-On hz at after c p in
      continue-state On (resolve_future_ticks floats rpmsg hz at after c).0 f
        (resolve_future_ticks floats rpmsg hz at after c).1 q
        (λ t. k t (resolve_future_ticks floats rpmsg hz at after c).1 q)

  run_command-On :
      (command : StimCommand floats) (c : Client rpmsg.State)
      → On c
      → On (run_command floats rpmsg clock command c).1
  unfolding run_command
  run_command-On say_hello c p = greeted _ c p (λ i d q. q)
  run_command-On start c p = asked msg_abz_start no_args _ c p (λ m d q. q)
  run_command-On stop c p = asked msg_abz_stop no_args _ c p (λ m d q. q)
  run_command-On status c p = asked msg_abz_status no_args _ c p (λ m d q. q)
  run_command-On scheduler_status c p = asked msg_stim_status no_args _ c p (λ m d q. q)
  run_command-On hall_start c p = asked msg_hall_start no_args _ c p (λ m d q. q)
  run_command-On hall_stop c p = asked msg_hall_stop no_args _ c p (λ m d q. q)
  run_command-On hall_status c p = asked msg_hall_status no_args _ c p (λ m d q. q)
  run_command-On safe c p = asked msg_force_safe no_args _ c p (λ m d q. q)
  run_command-On (direction turn) c p =
      asked msg_abz_direction (record { arg0 = direction_value turn; arg1 = 0; arg2 = 0; arg3 = 0 })
        _ c p (λ m d q. q)
  run_command-On (config o) c p = greeted _ c p λ i d q.
      continue-state On (abz_config floats o i.tick_hz) _ d q λ plan.
        asked msg_abz_config plan.0 _ d q λ m e r.
          continue-state On (floats.div (floats.of_nat i.tick_hz) (floats.of_nat plan.0.arg0)) _ e r
            (λ hz. r)
  run_command-On (arm at after) c p = greeted _ c p λ i d q. timed i.tick_hz at after _ d q λ t e r.
      asked msg_abz_arm (record { arg0 = t; arg1 = 0; arg2 = 0; arg3 = 0 }) _ e r (λ m f u. u)
  run_command-On (schedule at after rate turn) c p = greeted _ c p λ i d q.
      timed i.tick_hz at after _ d q λ t e r.
        continue-state On (schedule_args floats rate turn i.tick_hz t) _ e r
          λ args. asked msg_abz_schedule args _ e r (λ m f u. u)
  run_command-On (hall rate turn step) c p = greeted _ c p λ i d q.
      continue-state On (hall_config floats rate turn step i.tick_hz) _ d q λ plan.
        asked msg_hall_config plan.0 _ d q
          λ m e r. continue-state On (optional_rate floats i.tick_hz m.arg0) _ e r (λ hz. r)

-- Every command leaves as many handles open as it found, whether it succeeds or raises anywhere.
pub main-held :
    (floats : Floats) (port : Port) (held : port.rpmsg.State → ℕ)
    (perf_counter_ns : Exec (Client port.rpmsg.State) ℕ) (device : String)
    (command : StimCommand floats) (s : port.rpmsg.State)
    → CountsDevice port held
    → ((n : ℕ) → DeviceKeeps port.rpmsg (λ d. held d ≡ n))
    → held (main floats port perf_counter_ns device command s).1 ≡ held s
unfolding main
main-held floats port held clock device command s counts keeps =
    with_client-held port held device
      (run_command floats port.rpmsg clock command >>= λ result. pure (exit_code result)) s counts
      λ n. record { kept = λ c p. finished n c p }
  where
    finished :
        (n : ℕ) (c : Client port.rpmsg.State)
        → held c.device ≡ n
        → held
            ((run_command floats port.rpmsg clock command >>= λ result. pure (exit_code result))
              c).1.device
          ≡ n
    finished n c p =
        let q = run_command-On floats port.rpmsg clock (λ d. held d ≡ n) (keeps n) command c p in
        continue-state (λ d. held d.device ≡ n) (run_command floats port.rpmsg clock command c).0
          (λ result. pure (exit_code result)) (run_command floats port.rpmsg clock command c).1 q
          (λ r. q)
