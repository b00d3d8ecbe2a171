-- ===== src/Bbb/Remoteproc/Deploy.antt =====
-- boards/beaglebone_black/scripts/pru0_ctl.py and pru1_ctl.py: the state of a core on the way through a
-- deployment.
use text.Mathlib.Text.{◌==◌ as str_eq}
use hil_lab.Prelude.{
  ◌≡◌, refl, sym, ap, subst, ◌∙◌, Bool, true, false, not, ◌==◌, if◌then◌else◌, String,
}
use hil_lab.Errors.{
  Result, ok, err, pure, OnOk, >>=-eq-ok, raise_if-eq-ok, ok-run, os_error, file_not_found,
}
use hil_lab.Bbb.Remoteproc.{Sysfs, stop, start, install_and_start}

-- What the kernel says of a remoteproc: its state file says whether the core runs; a stop or a start that is
-- accepted has been carried out; and neither a new file in /lib/firmware nor its name starts a core.
pub record IsRemoteproc (sysfs : Sysfs) (remoteproc : String) (running : sysfs.State → Bool)
    : Type 0 where
  pub told :
      (s t : sysfs.State) (value : String)
      → sysfs.read_text remoteproc "state" s ≡ (ok value, t)
      → (str_eq value "running" ≡ running s) × (running t ≡ running s)
  pub stopped :
      (s t : sysfs.State)
      → sysfs.write_control remoteproc "state" "stop" s ≡ (ok tt, t)
      → running t ≡ false
  pub started :
      (s t : sysfs.State)
      → sysfs.write_control remoteproc "state" "start" s ≡ (ok tt, t)
      → running t ≡ true
  pub named :
      (firmware_name : String) (s t : sysfs.State)
      → sysfs.write_control remoteproc "firmware" firmware_name s ≡ (ok tt, t)
      → running t ≡ running s
  pub copied :
      (source firmware_name : String) (s t : sysfs.State)
      → sysfs.copy_firmware source firmware_name s ≡ (ok tt, t)
      → running t ≡ running s

-- The way of a deployment: the core stands still from before the copy until the new name is written, and
-- only then it is started.
pub record IsDeployed (sysfs : Sysfs) (remoteproc : String) (running : sysfs.State → Bool)
    (source firmware_name : String) (last : sysfs.State) : Type 0 where
  pub halted : sysfs.State
  pub replaced : sysfs.State
  pub renamed : sysfs.State
  pub before_start : sysfs.State
  pub answer : String
  pub stands : running halted ≡ false
  pub copies : sysfs.copy_firmware source firmware_name halted ≡ (ok tt, replaced)
  pub still_stands : running replaced ≡ false
  pub renames : sysfs.write_control remoteproc "firmware" firmware_name replaced ≡ (ok tt, renamed)
  pub asks : sysfs.read_text remoteproc "state" renamed ≡ (ok answer, before_start)
  pub starts : sysfs.write_control remoteproc "state" "start" before_start ≡ (ok tt, last)
  pub runs : running last ≡ true

module _ (sysfs : Sysfs) (remoteproc : String) (running : sysfs.State → Bool)
    (kernel : IsRemoteproc sysfs remoteproc running) where
  stop-halts : (s t : sysfs.State) → stop sysfs remoteproc s ≡ (ok tt, t) → running t ≡ false
  unfolding stop
  stop-halts s t h =
      let (value, u, e, k) = >>=-eq-ok (sysfs.read_text remoteproc "state") _ s h in
      split (str_eq value "running") u
        ((kernel.told s u value e).0 ∙ sym (kernel.told s u value e).1) k
    where
      split :
          (b : Bool) (u : sysfs.State)
          → b ≡ running u
          → (if b then sysfs.write_control remoteproc "state" "stop" else pure tt) u ≡ (ok tt, t)
          → running t ≡ false
      split true u e k = kernel.stopped u t k
      split false u e k = subst (λ x. running x ≡ false) (sym (ok-run k).1) (sym e)

  -- A start of a core that stands still writes to the state file.
  start-starts :
      (s t : sysfs.State)
      → running s ≡ false
      → start sysfs remoteproc s ≡ (ok tt, t)
      → (value : String) × (u : sysfs.State) × (sysfs.read_text remoteproc "state" s
          ≡ (ok value, u))
        × (sysfs.write_control remoteproc "state" "start" u ≡ (ok tt, t))
  unfolding start
  start-starts s t still h =
      let (value, u, e, k) = >>=-eq-ok (sysfs.read_text remoteproc "state") _ s h in
      (value, u, e, split (str_eq value "running") u ((kernel.told s u value e).0 ∙ still) k)
    where
      split :
          (b : Bool) (u : sysfs.State)
          → b ≡ false
          → (if not b then sysfs.write_control remoteproc "state" "start" else pure tt) u
            ≡ (ok tt, t)
          → sysfs.write_control remoteproc "state" "start" u ≡ (ok tt, t)
      split true u e k = cc
      split false u e k = k

  install_and_start-eq-ok :
      (source firmware_name : String) (s t : sysfs.State)
      → install_and_start sysfs remoteproc source firmware_name s ≡ (ok tt, t)
      → IsDeployed sysfs remoteproc running source firmware_name t
  unfolding install_and_start
  install_and_start-eq-ok source firmware_name s t h =
      let (user, s₁, e₁, k₁) = >>=-eq-ok sysfs.effective_user _ s h in
      let (root, k₂) = raise_if-eq-ok (not (user == 0)) os_error _ s₁ k₁ in
      let (file, s₂, e₂, k₃) = >>=-eq-ok (sysfs.is_file source) _ s₁ k₂ in
      let (present, k₄) = raise_if-eq-ok (not file) file_not_found _ s₂ k₃ in
      let (d₁, s₃, e₃, k₅) = >>=-eq-ok (stop sysfs remoteproc) _ s₂ k₄ in
      let (d₂, s₄, e₄, k₆) = >>=-eq-ok (sysfs.copy_firmware source firmware_name) _ s₃ k₅ in
      let (d₃, s₅, e₅, k₇) =
        >>=-eq-ok (sysfs.write_control remoteproc "firmware" firmware_name) _ s₄ k₆ in
      let stands : running s₃ ≡ false = stop-halts s₂ s₃ e₃ in
      let still : running s₄ ≡ false = kernel.copied source firmware_name s₃ s₄ e₄ ∙ stands in
      let (answer, u, asks, k₈) =
        start-starts s₅ t (kernel.named firmware_name s₄ s₅ e₅ ∙ still) k₇ in
      record {
        halted = s₃;
        replaced = s₄;
        renamed = s₅;
        before_start = u;
        answer = answer;
        stands = stands;
        copies = e₄;
        still_stands = still;
        renames = e₅;
        asks = asks;
        starts = k₈;
        runs = kernel.started u t k₈;
      }

-- Where the kernel's state file tells the truth, an accepted stop or start is carried out, and neither a new
-- file nor its name starts a core, a deployment that succeeds copied and named the firmware while the core
-- stood still, started it only afterwards, and leaves it running.
pub install_and_start-IsDeployed :
    (sysfs : Sysfs) (remoteproc source firmware_name : String) (running : sysfs.State → Bool)
    (s : sysfs.State)
    → IsRemoteproc sysfs remoteproc running
    → OnOk
        (λ done.
          IsDeployed sysfs remoteproc running source firmware_name
            (install_and_start sysfs remoteproc source firmware_name s).1)
        (install_and_start sysfs remoteproc source firmware_name s).0
install_and_start-IsDeployed sysfs remoteproc source firmware_name running s kernel =
    by_result (install_and_start sysfs remoteproc source firmware_name s).0 refl
  where
    by_result :
        (r : Result Unit)
        → (install_and_start sysfs remoteproc source firmware_name s).0 ≡ r
        → OnOk
            (λ done.
              IsDeployed sysfs remoteproc running source firmware_name
                (install_and_start sysfs remoteproc source firmware_name s).1)
            r
    by_result (ok tt) e =
        install_and_start-eq-ok sysfs remoteproc running kernel source firmware_name s _
          (ap (λ r. (r, (install_and_start sysfs remoteproc source firmware_name s).1)) e)
    by_result (err x) e = tt
