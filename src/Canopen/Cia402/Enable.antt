-- ===== src/Canopen/Cia402/Enable.antt =====
-- The loop that enables a drive: on every server, on a scripted one, and on a drive that follows the
-- state machine of CiA 402.
use hil_lab.Prelude.{
  ℕ, zero, suc, ◌+◌, ◌*◌, ◌/◌, ◌%◌, ◌≤◌, ◌<◌, ◌^◌, ◌≡◌, ◌≢◌, ◌⊎◌, inl, inr, refl, sym, ap, ◌∙◌,
  true, false, List, [], ◌∷◌, ◌++◌, map, ◌==◌, arith, if◌then◌else◌, length, All, lt→ltb,
}
use mathlib.Core.List.{append_assoc, append-nil}
use hil_lab.Prelude.Int.{pos}
use hil_lab.Prelude.Bytes.{to_le, to_bytes}
use hil_lab.Errors.{Result, ok, err, Exec, pure, ◌>>◌, >>=-eq-ok, runtime_error, timeout_error}
use hil_lab.Canopen.Sdo.{SdoUpload}
use hil_lab.Canopen.Sdo.Port.{SdoPort, download_u16, upload_u16}
use hil_lab.Canopen.Pdo.Configure.{Write}
use hil_lab.Canopen.Cia402.{
  CiA402State, operation_enabled, decode_state, next_controlword, controlword_for,
  is_operation_enabled, is_mode, set_mode, enable_loop, enable_operation,
}
use hil_lab.Canopen.Cia402.States.{InState, decode_state_iff}

-- What the loop does with the state that it has read.
after_read :
    {S : Type 0} (read st : CiA402State) (u t : S) (on : Exec S CiA402State)
    → (if is_operation_enabled read then pure read else on) u ≡ (ok st, t)
    → ((read ≡ operation_enabled) × (st ≡ operation_enabled) × (u ≡ t)) ⊎ (on u ≡ (ok st, t))
after_read operation_enabled st u t on h = inl (refl, cc, ap (λ p. p.1) h)
after_read read st u t on h = inr h

not_enabled : (st : CiA402State) → st ≢ operation_enabled → is_operation_enabled st ≡ false
not_enabled st h = ground arith

-- The loop returns only after it has read, as its last call, a statusword whose bits say Operation
-- Enabled.
pub enable_loop-enabled :
    (sdo : SdoPort) (n : ℕ) (s t : sdo.State) (st : CiA402State)
    → enable_loop sdo n s ≡ (ok st, t)
    → (st ≡ operation_enabled)
      × ((u : sdo.State) × (sw : ℕ) × (upload_u16 sdo 0x6041 0 u ≡ (ok sw, t))
          × InState operation_enabled sw)
unfolding enable_loop
enable_loop-enabled sdo zero s t st h = cc
enable_loop-enabled sdo (suc n) s t st h =
    let (sw, u, read, goes_on) = >>=-eq-ok (upload_u16 sdo 0x6041 0) _ s h in
    let on = download_u16 sdo 0x6040 0 (pos (next_controlword sw)) >> enable_loop sdo n in
    finish sw u read (after_read (decode_state sw) st u t on goes_on) (λ later.
      let (written, v, wrote, looped) =
        >>=-eq-ok (download_u16 sdo 0x6040 0 (pos (next_controlword sw))) _ u later in
      enable_loop-enabled sdo n v t st looped)
  where
    Claim : Type 0
    Claim =
        (st ≡ operation_enabled)
        × ((u : sdo.State) × (sw : ℕ) × (upload_u16 sdo 0x6041 0 u ≡ (ok sw, t))
            × InState operation_enabled sw)

    finish :
        (sw : ℕ) (u : sdo.State)
        → upload_u16 sdo 0x6041 0 s ≡ (ok sw, u)
        → {Later : Type 0}
        → ((decode_state sw ≡ operation_enabled) × (st ≡ operation_enabled) × (u ≡ t)) ⊎ Later
        → (Later → Claim)
        → Claim
    finish sw u read (inl (is, same, e)) k = (
      same,
      (
        s,
        sw,
        read ∙ ap (λ v. (ok sw, v)) e,
        (decode_state_iff operation_enabled sw (λ q. cc)).0 is,
      ),
    )
    finish sw u read (inr later) k = k later

-- The scripted server of the tests: the statuswords it will report, and the writes it was asked for.
pub record FakeState : Type 0 where
  pub statuses : List ℕ
  pub writes : List Write

abbrev report : ℕ → ℕ → List ℕ → List Write → Result SdoUpload × FakeState
report index subindex [] ws = (err timeout_error, record { statuses = []; writes = ws })
report index subindex (sw ∷ rest) ws = (
  ok (record { index = index; subindex = subindex; content = to_le 2 sw }),
  record { statuses = rest; writes = ws },
)

abbrev pub fake_sdo : SdoPort
fake_sdo = record {
  State = FakeState;
  download = λ index subindex content s. (
    ok tt,
    record s {
      writes = s.writes ++ record { index = index; subindex = subindex; content = content } ∷ [];
    },
  );
  upload = λ index subindex s. report index subindex s.statuses s.writes;
}

abbrev pub controlword_write : ℕ → Write
controlword_write sw = record {
  index = 0x6040;
  subindex = 0;
  content = to_le 2 (next_controlword sw);
}

abbrev pub NotEnabled : ℕ → Type 0
NotEnabled sw = (sw < 65536) × (decode_state sw ≢ operation_enabled)

next_controlword-lt : (sw : ℕ) → next_controlword sw < 256 ^ 2
unfolding next_controlword
next_controlword-lt sw = small (decode_state sw)
  where
    small : (st : CiA402State) → controlword_for st < 256 ^ 2
    small st = ground arith

word_read : (sw : ℕ) → sw < 65536 → sw % 256 + 256 * (sw / 256 % 256 + 0) ≡ sw
word_read sw h = omega arith

enable_loop-step :
    (n sw : ℕ) (rest : List ℕ) (ws : List Write)
    → NotEnabled sw
    → enable_loop fake_sdo (suc n) (record { statuses = sw ∷ rest; writes = ws })
      ≡ enable_loop fake_sdo n
          (record { statuses = rest; writes = ws ++ controlword_write sw ∷ [] })
unfolding enable_loop to_bytes
enable_loop-step n sw rest ws h =
    rw
      (
        word_read sw h.0,
        not_enabled (decode_state sw) h.1,
        lt→ltb (next_controlword sw) (256 ^ 2) (next_controlword-lt sw),
      )
      refl

enable_loop-run :
    (n : ℕ) (before : List ℕ) (sw : ℕ) (rest : List ℕ) (ws : List Write)
    → All NotEnabled before
    → sw < 65536
    → decode_state sw ≡ operation_enabled
    → length before < n
    → enable_loop fake_sdo n (record { statuses = before ++ sw ∷ rest; writes = ws }) ≡ (
      ok operation_enabled,
      record { statuses = rest; writes = ws ++ map controlword_write before },
    )
unfolding enable_loop
enable_loop-run zero before sw rest ws hs b e k = absurd (omega arith)
enable_loop-run (suc n) [] sw rest ws hs b e k =
    rw (word_read sw b, e)
      (ap (λ l. (ok operation_enabled, record { statuses = rest; writes = l }))
        (sym (append-nil ws)))
enable_loop-run (suc n) (x ∷ before) sw rest ws hs b e k =
    enable_loop-step n x (before ++ sw ∷ rest) ws hs.0
    ∙ enable_loop-run n before sw rest (ws ++ controlword_write x ∷ []) hs.1 b e (omega arith)
    ∙ ap (λ l. (ok operation_enabled, record { statuses = rest; writes = l }))
        (append_assoc ws (controlword_write x ∷ []) (map controlword_write before))

enable_loop-exhausted :
    (n : ℕ) (before rest : List ℕ) (ws : List Write)
    → All NotEnabled before
    → length before ≡ n
    → enable_loop fake_sdo n (record { statuses = before ++ rest; writes = ws })
      ≡ (err runtime_error, record { statuses = rest; writes = ws ++ map controlword_write before })
unfolding enable_loop
enable_loop-exhausted zero [] rest ws hs e =
    ap (λ l. (err runtime_error, record { statuses = rest; writes = l })) (sym (append-nil ws))
enable_loop-exhausted zero (x ∷ before) rest ws hs e = absurd (omega arith)
enable_loop-exhausted (suc n) [] rest ws hs e = absurd (omega arith)
enable_loop-exhausted (suc n) (x ∷ before) rest ws hs e =
    enable_loop-step n x (before ++ rest) ws hs.0
    ∙ enable_loop-exhausted n before rest (ws ++ controlword_write x ∷ []) hs.1 (omega arith)
    ∙ ap (λ l. (err runtime_error, record { statuses = rest; writes = l }))
        (append_assoc ws (controlword_write x ∷ []) (map controlword_write before))

pub nonzero : (n : ℕ) → 1 ≤ n → (n == 0) ≡ false
nonzero n h = ground arith

set_mode-fake :
    (mode : ℕ) (st : List ℕ) (ws : List Write)
    → is_mode (pos mode) ≡ true
    → set_mode fake_sdo (pos mode) (record { statuses = st; writes = ws }) ≡ (
      ok tt,
      record {
        statuses = st;
        writes = ws ++ record { index = 0x6060; subindex = 0; content = mode ∷ [] } ∷ [];
      },
    )
unfolding set_mode to_bytes
set_mode-fake mode st ws h = ground arith

abbrev pub mode_write : ℕ → Write
mode_write mode = record { index = 0x6060; subindex = 0; content = mode ∷ [] }

abbrev pub waiting : List ℕ → FakeState
waiting statuses = record { statuses = statuses; writes = [] }

-- Against a server that reports these statuswords, enabling writes the mode, then for each
-- statusword that is not yet Operation Enabled the controlword for it, and stops at the first that
-- is, when fewer than `max_steps` stand before it.
pub enable_operation-run :
    (mode max_steps : ℕ) (before : List ℕ) (sw : ℕ) (rest : List ℕ)
    → is_mode (pos mode) ≡ true
    → All NotEnabled before
    → sw < 65536
    → decode_state sw ≡ operation_enabled
    → length before < max_steps
    → enable_operation fake_sdo (pure tt) (pos mode) max_steps (waiting (before ++ sw ∷ rest)) ≡ (
      ok operation_enabled,
      record { statuses = rest; writes = mode_write mode ∷ map controlword_write before },
    )
unfolding enable_operation
enable_operation-run mode max_steps before sw rest hm hs b e k =
    rw
      (
        nonzero max_steps (omega arith),
        set_mode-fake mode (before ++ sw ∷ rest) [] hm,
        enable_loop-run max_steps before sw rest (mode_write mode ∷ []) hs b e k,
      )
      refl

-- When the first `max_steps` statuswords are all something else, enabling gives up with an error
-- after exactly `max_steps` controlwords.
pub enable_operation-exhausted :
    (mode max_steps : ℕ) (before rest : List ℕ)
    → is_mode (pos mode) ≡ true
    → All NotEnabled before
    → length before ≡ max_steps
    → 1 ≤ max_steps
    → enable_operation fake_sdo (pure tt) (pos mode) max_steps (waiting (before ++ rest)) ≡ (
      err runtime_error,
      record { statuses = rest; writes = mode_write mode ∷ map controlword_write before },
    )
unfolding enable_operation
enable_operation-exhausted mode max_steps before rest hm hs e k =
    rw
      (
        nonzero max_steps k,
        set_mode-fake mode (before ++ rest) [] hm,
        enable_loop-exhausted max_steps before rest (mode_write mode ∷ []) hs e,
      )
      refl
