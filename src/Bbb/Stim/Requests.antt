-- ===== src/Bbb/Stim/Requests.antt =====
-- boards/beaglebone_black/host/hil_stim_cli.py: what is sent to the stimulus firmware.
use text.Mathlib.Text.{◌==◌ as str_eq}
use text.Mathlib.TextEquality.{eq_iff}
use hil_lab.Prelude.{
  ℕ, ◌*◌, ◌^◌, ◌≤◌, ◌<◌, ◌≡◌, refl, subst, sym, ap, ◌∙◌, Bool, true, false, not, ◌&&◌, ◌||◌, ◌==◌,
  ltb, if◌then◌else◌, Option, String, bit_or, arith, ltb→lt,
}
use hil_lab.Errors.{
  ok, err, Exec, OnOk, continue-OnOk, continue-OnOk_eq, bind-eq-ok, refuse_if, refuse_if-eq-ok,
  ok-injective, value_error,
}
use hil_lab.Bbb.Floats.{Floats}
use hil_lab.Bbb.Abz.{encode_config_flags, decode_config_flags, decode_config_flags-word}
use hil_lab.Bbb.Protocol.{Message, msg_abz_config}
use hil_lab.Bbb.Rpc.{Rpmsg, Client, Args, request}
use hil_lab.Bbb.Console.{Printed, exit_code}
use hil_lab.Bbb.Stim.{
  Rate, AbzOptions, abz_min_transition_ticks, selected, convert_rate, resolve_transition_ticks,
  index_period, abz_config,
}
use hil_lab.Bbb.Loopback.{hello}
use hil_lab.Bbb.Stim.Commands.{run_command, config}

module _ (floats : Floats) where
  -- A rate that is accepted is at or above the floor.
  pub resolve_transition_ticks-le :
      (rate : Rate floats) (tick_hz : ℕ) (resolved : ℕ × Option floats.Float)
      → resolve_transition_ticks floats rate tick_hz ≡ ok resolved
      → 100 ≤ resolved.0
  unfolding resolve_transition_ticks
  resolve_transition_ticks-le rate hz resolved h =
      let (d, e₁, k₁) = bind-eq-ok (refuse_if (not (selected floats rate == 1)) value_error) _ h in
      let (r, e₂, k₂) =
        bind-eq-ok
          (convert_rate floats rate.transition_ticks rate.transition_hz rate.rpm rate.ppr hz) _
          k₁ in
      let (d', e₃, k₃) =
        bind-eq-ok (refuse_if (ltb r.0 abz_min_transition_ticks) value_error) _ k₂ in
      subst (λ x. 100 ≤ x.0) (sym (ok-injective r resolved k₃))
        (at_floor r.0 (refuse_if-eq-ok (ltb r.0 100) value_error e₃))
    where
      at_floor : (n : ℕ) → ltb n 100 ≡ false → 100 ≤ n
      at_floor n h = ground (arith, h)

-- A flag word that is accepted decodes to its direction and phase.
encode_config_flags-decodes :
    (direction : String) (phase flags : ℕ)
    → encode_config_flags direction phase ≡ ok flags
    → (phase < 4) × (decode_config_flags flags ≡ (direction, phase))
unfolding encode_config_flags
encode_config_flags-decodes direction phase flags =
    by_tests (str_eq direction "forward") (str_eq direction "reverse") (ltb phase 4) refl refl refl
  where
    word :
        (reverse : Bool)
        → ltb phase 4 ≡ true
        → (if reverse then "reverse" else "forward") ≡ direction
        → bit_or (if reverse then 1 else 0) (phase * 2 ^ 8) ≡ flags
        → (phase < 4) × (decode_config_flags flags ≡ (direction, phase))
    word reverse l d e =
        let less = ltb→lt phase 4 l in
        (less, rw (← e) (decode_config_flags-word reverse phase less ∙ ap (λ t. (t, phase)) d))

    by_tests :
        (f r l : Bool)
        → str_eq direction "forward" ≡ f
        → str_eq direction "reverse" ≡ r
        → ltb phase 4 ≡ l
        → (if not (f || r)
            then err value_error
            else if not l
            then err value_error
            else ok (bit_or (if f then 0 else 1) (phase * 2 ^ 8)))
          ≡ ok flags
        → (phase < 4) × (decode_config_flags flags ≡ (direction, phase))
    by_tests true r true ef er el h =
        word false el (sym ((eq_iff direction "forward").0 ef)) (sym (ok-injective _ flags h))
    by_tests true r false ef er el h = cc
    by_tests false true true ef er el h =
        word true el (sym ((eq_iff direction "reverse").0 er)) (sym (ok-injective _ flags h))
    by_tests false true false ef er el h = cc
    by_tests false false l ef er el h = cc

-- Arguments of MSG_ABZ_CONFIG that the firmware's floor and layout allow, for the direction and phase of
-- the options.
pub record IsAbzConfig {floats : Floats} (o : AbzOptions floats) (args : Args) : Type 0 where
  pub at_floor : 100 ≤ args.arg0
  pub period : args.arg1 ≡ index_period floats o.index_period_transitions o.rate.ppr
  pub width_fits : args.arg2 ≤ args.arg1
  pub phase_range : o.initial_phase < 4
  pub flags_decode : decode_config_flags args.arg3 ≡ (o.direction, o.initial_phase)

abz_config-IsAbzConfig :
    (floats : Floats) (o : AbzOptions floats) (tick_hz : ℕ) (plan : Args × Option floats.Float)
    → abz_config floats o tick_hz ≡ ok plan
    → IsAbzConfig o plan.0
unfolding abz_config
abz_config-IsAbzConfig floats o hz plan h =
    let period : ℕ = index_period floats o.index_period_transitions o.rate.ppr in
    let width : ℕ = if period == 0 then 0 else o.index_width_transitions in
    let (r, e₁, k₁) = bind-eq-ok (resolve_transition_ticks floats o.rate hz) _ h in
    let (d, e₂, k₂) =
      bind-eq-ok (refuse_if (not (period == 0) && ltb period width) value_error) _ k₁ in
    let (flags, e₃, k₃) = bind-eq-ok (encode_config_flags o.direction o.initial_phase) _ k₂ in
    let (less, decoded) = encode_config_flags-decodes o.direction o.initial_phase flags e₃ in
    let fits =
      width_in period o.index_width_transitions
        (refuse_if-eq-ok (not (period == 0) && ltb period width) value_error e₂) in
    subst (λ p. IsAbzConfig o p.0) (sym (ok-injective _ plan k₃))
      (record {
        at_floor = resolve_transition_ticks-le floats o.rate hz r e₁;
        period = refl;
        width_fits = fits;
        phase_range = less;
        flags_decode = decoded;
      })
  where
    width_in :
        (period w : ℕ)
        → (not (period == 0) && ltb period (if period == 0 then 0 else w)) ≡ false
        → (if period == 0 then 0 else w) ≤ period
    width_in period w h = ground (arith, h)

-- What a configuration's result shows of the device.
abbrev pub Acknowledged :
    (floats : Floats) (rpmsg : Rpmsg) → AbzOptions floats → Printed floats.Float → Type 0
Acknowledged floats rpmsg o result =
    (args : Args) × (response : Message) × (before : Client rpmsg.State) × (after : Client
      rpmsg.State)
    × IsAbzConfig o args
    × (request rpmsg msg_abz_config args before ≡ (ok response, after))
    × (exit_code result ≡ (if response.flags == 0 then 0 else 2))

-- On every device, a configuration that gives a result was acknowledged for arguments that the firmware's
-- floor and layout allow and that decode to the options, and its exit code is 0 exactly when the
-- acknowledgement has status 0.
pub run_command-Acknowledged :
    (floats : Floats) (rpmsg : Rpmsg) (perf_counter_ns : Exec (Client rpmsg.State) ℕ)
    (o : AbzOptions floats) (c : Client rpmsg.State)
    → OnOk (Acknowledged floats rpmsg o) (run_command floats rpmsg perf_counter_ns (config o) c).0
unfolding run_command exit_code
run_command-Acknowledged floats rpmsg clock o c =
    let Q = Acknowledged floats rpmsg o in
    continue-OnOk Q (hello floats rpmsg clock c).0 _ _ λ info u.
      continue-OnOk_eq Q (abz_config floats o info.tick_hz) _ u λ plan e.
        let v = (request rpmsg msg_abz_config plan.0 u).1 in
        continue-OnOk_eq Q (request rpmsg msg_abz_config plan.0 u).0 _ v λ response r.
          continue-OnOk Q (floats.div (floats.of_nat info.tick_hz) (floats.of_nat plan.0.arg0)) _ v
            λ hz w. (
              plan.0,
              response,
              u,
              v,
              abz_config-IsAbzConfig floats o info.tick_hz plan e,
              ap (λ t. (t, v)) r,
              refl,
            )
