-- ===== src/Bbb/SensorConsole/Preview.antt =====
-- boards/beaglebone_black/host/hil_sensor_cli.py: the frame that is printed beside the data that are sent.
use native.Mathlib.Nat.{pow-suc, dvd-mul_right, mod-mod, mod-mod_of_dvd}
use hil_lab.Prelude.{
  ℕ, zero, suc, ◌+◌, ◌-◌, ◌*◌, ◌/◌, ◌%◌, ◌^◌, ◌≤◌, ◌≡◌, refl, sym, ap, ◌∙◌, subst, Bool, true,
  false, not, if◌then◌else◌, Option, none, some, bit_and, bit_or, arith,
}
use hil_lab.Prelude.Bits.{bit}
use hil_lab.Prelude.Bits.Fields.{bit_and-mask}
use hil_lab.Errors.{
  Result, ok, err, Exec, lift, OnOk, >>=-eq-ok, ok-run, bind, bind-eq-ok, ok-injective, value_error,
}
use hil_lab.Bbb.Floats.{Floats}
use hil_lab.Bbb.Protocol.{Message}
use hil_lab.Bbb.Protocol.Codes.{msg_serial_data}
use hil_lab.Bbb.Rpc.{Rpmsg, Client, request}
use hil_lab.Bbb.Sensor.{
  is_width, position_mask, join_frame, crc6_biss, build_biss_frame, build_biss_frame-fields,
}
use hil_lab.Bbb.SensorConsole.{DataOptions, data_flags, data_args, preview, Outcome, write_data}

-- A frame of the position, and of the two flags, that were sent.
abbrev pub Shows : DataOptions → ℕ × ℕ → Type 0
Shows o (frame, total_bits) =
    (bits : ℕ) × (o.preview_biss_bits ≡ some bits)
    × (total_bits ≡ bits + 11)
    × (frame / 256 ≡ 2 * 2 ^ bits + (data_args o).arg0 % 2 ^ bits)
    × (frame / 128 % 2 ≡ bit (data_args o).arg2 1)
    × (frame / 64 % 2 ≡ bit (data_args o).arg2 2)

flags-bits :
    (o : DataOptions)
    → (bit (data_flags o) 1 ≡ (if o.error_active then 0 else 1))
      × (bit (data_flags o) 2 ≡ (if o.warning_active then 0 else 1))
unfolding data_flags
flags-bits o = by_options o.fault_enable o.error_active o.warning_active
  where
    by_options :
        (f e w : Bool)
        → (bit
              (let faults = if f then bit_or 0 1 else 0 in
                let errors = if not e then bit_or faults 2 else faults in
                if not w then bit_or errors 4 else errors)
              1
            ≡ (if e then 0 else 1))
          × (bit
                (let faults = if f then bit_or 0 1 else 0 in
                  let errors = if not e then bit_or faults 2 else faults in
                  if not w then bit_or errors 4 else errors)
                2
              ≡ (if w then 0 else 1))
    by_options true true true = (refl, refl)
    by_options true true false = (refl, refl)
    by_options true false true = (refl, refl)
    by_options true false false = (refl, refl)
    by_options false true true = (refl, refl)
    by_options false true false = (refl, refl)
    by_options false false true = (refl, refl)
    by_options false false false = (refl, refl)

-- A narrower residue of a residue.
mod-mod_pow : (n k x : ℕ) → x % 2 ^ (k + n) % 2 ^ n ≡ x % 2 ^ n
mod-mod_pow n zero x = ap (λ t. x % 2 ^ t % 2 ^ n) (omega arith) ∙ mod-mod x (2 ^ n)
mod-mod_pow n (suc k) x =
    sym (mod-mod_pow n k (x % 2 ^ (suc k + n)))
    ∙ ap (λ t. t % 2 ^ n)
        (ap (λ t. x % t % 2 ^ (k + n)) doubled
          ∙ mod-mod_of_dvd (2 ^ (k + n)) x (dvd-mul_right (2 ^ (k + n)) 2))
    ∙ mod-mod_pow n k x
  where
    doubled : 2 ^ (suc k + n) ≡ 2 ^ (k + n) * 2
    doubled = ap (λ t. 2 ^ t) (omega arith) ∙ pow-suc 2 (k + n)

-- A word keeps the low bits of a number.
low-word : (n x : ℕ) → n ≤ 32 → bit_and x 0xffff_ffff % 2 ^ n ≡ x % 2 ^ n
low-word n x l =
    ap (λ t. t % 2 ^ n) (bit_and-mask 32 x)
    ∙ ap (λ t. x % 2 ^ t % 2 ^ n) (rest l)
    ∙ mod-mod_pow n (32 - n) x
  where
    rest : n ≤ 32 → 32 ≡ 32 - n + n
    rest l = omega (arith, l)

build-width :
    (position bits e w : ℕ) (frame : ℕ × ℕ)
    → build_biss_frame position bits e w ≡ ok frame
    → (1 ≤ bits) × (bits ≤ 32)
unfolding build_biss_frame
build-width position bits e w frame h = split (is_width bits) refl h
  where
    split :
        (b : Bool)
        → is_width bits ≡ b
        → (if b
            then bind (crc6_biss (bit_and position (position_mask bits)) bits e w) (λ crc.
              ok (join_frame bits (bit_and position (position_mask bits)) e w crc, bits + 11))
            else err value_error)
          ≡ ok frame
        → (1 ≤ bits) × (bits ≤ 32)
    split true p h = (ground (arith, p), ground (arith, p))
    split false p h = cc

preview-Shows :
    (o : DataOptions) (wanted : Option ℕ) (frame : ℕ × ℕ)
    → o.preview_biss_bits ≡ wanted
    → preview o wanted ≡ ok (some frame)
    → Shows o frame
unfolding preview
preview-Shows o none frame p h = absurd (nothing (ok-injective none (some frame) h))
  where
    nothing : ◌≡◌ {A = Option (ℕ × ℕ)} (some frame) none → ⊥
    nothing e = cc
preview-Shows o (some bits) frame p h =
    let (f, built, k) = bind-eq-ok (build_biss_frame o.value bits e w) _ h in
    let (low, high) = build-width o.value bits e w f built in
    let (x, crc, b, _, _, warning, error, position) =
      build_biss_frame-fields o.value bits e w low high in
    subst (Shows o)
      (sym (ok-injective (x, bits + 11) f (sym b ∙ built))
        ∙ the (sym (ok-injective (some f) (some frame) k)))
      (
        bits,
        p,
        refl,
        position ∙ ap (λ t. 2 * 2 ^ bits + t) (sym (low-word bits o.value high)),
        error ∙ flag o.error_active ∙ sym (flags-bits o).0,
        warning ∙ flag o.warning_active ∙ sym (flags-bits o).1,
      )
  where
    e : ℕ
    e = if o.error_active then 0 else 1

    w : ℕ
    w = if o.warning_active then 0 else 1

    flag : (b : Bool) → (if b then 0 else 1) % 2 ≡ (if b then 0 else 1)
    flag true = refl
    flag false = refl

    shown : Option (ℕ × ℕ) → ℕ × ℕ
    shown none = (0, 0)
    shown (some f) = f

    the : {f : ℕ × ℕ} → ◌≡◌ {A = Option (ℕ × ℕ)} (some f) (some frame) → f ≡ frame
    the q = ap shown q

-- The data were sent in one request, and a frame that is printed is of what was sent.
abbrev pub IsShown :
    (floats : Floats) (rpmsg : Rpmsg) (o : DataOptions)
    → Client rpmsg.State
    → Client rpmsg.State
    → Outcome floats
    → Type 0
IsShown floats rpmsg o c d outcome =
    ((response : Message) × (request rpmsg msg_serial_data (data_args o) c ≡ (ok response, d)))
    × ((frame : ℕ × ℕ) → outcome.1 ≡ some frame → Shows o frame)

write_data-eq-ok :
    (floats : Floats) (rpmsg : Rpmsg) (clock : Exec (Client rpmsg.State) ℕ) (o : DataOptions)
    (c d : Client rpmsg.State) (outcome : Outcome floats)
    → write_data floats rpmsg clock o c ≡ (ok outcome, d)
    → IsShown floats rpmsg o c d outcome
unfolding write_data
write_data-eq-ok floats rpmsg clock o c d outcome h =
    let (response, u, e, k) = >>=-eq-ok (request rpmsg msg_serial_data (data_args o)) _ c h in
    let (shown, v, f, l) = >>=-eq-ok (lift (preview o o.preview_biss_bits)) _ u k in
    let same : d ≡ u = (ok-run l).1 ∙ sym (ap (λ r. r.1) f) in
    (
      (
        response,
        subst (λ t. request rpmsg msg_serial_data (data_args o) c ≡ (ok response, t)) (sym same) e,
      ),
      λ frame q.
          preview-Shows o o.preview_biss_bits frame refl
            (ap (λ r. r.0) f ∙ ap ok (sym (ap (λ r. r.1) (ok-run l).0) ∙ q)),
    )

-- Whatever the device answers, when data have been written, they were sent in one request, and a BiSS frame
-- that is printed has the position and the two flags that were sent.
pub write_data-IsShown :
    (floats : Floats) (rpmsg : Rpmsg) (clock : Exec (Client rpmsg.State) ℕ) (o : DataOptions)
    (c : Client rpmsg.State)
    → OnOk
        (IsShown floats rpmsg o c (write_data floats rpmsg clock o c).1)
        (write_data floats rpmsg clock o c).0
write_data-IsShown floats rpmsg clock o c = by_result (write_data floats rpmsg clock o c).0 refl
  where
    by_result :
        (r : Result (Outcome floats))
        → (write_data floats rpmsg clock o c).0 ≡ r
        → OnOk (IsShown floats rpmsg o c (write_data floats rpmsg clock o c).1) r
    by_result (ok outcome) e =
        write_data-eq-ok floats rpmsg clock o c (write_data floats rpmsg clock o c).1 outcome
          (ap (λ r. (r, (write_data floats rpmsg clock o c).1)) e)
    by_result (err x) e = tt
