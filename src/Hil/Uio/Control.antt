-- ===== src/Hil/Uio/Control.antt =====
-- host/hil/transports/uio.py, the methods that change the CONTROL word, each given by what it does
-- to the word's bits.
use hil_lab.Prelude.{
  ℕ, ◌<◌, ◌≡◌, refl, ◌∙◌, Bool, true, false, List, [], ◌∷◌, ◌++◌, ◌==◌, if◌then◌else◌, ◌||◌, ◌&&◌,
  bit_or, arith,
}
use hil_lab.Prelude.Bits.{bit, and_not}
use hil_lab.Prelude.Bits.Flags.{bit-set, bit-clear, bit-mask}
use hil_lab.Errors.{ok, Exec, pure, ◌>>◌}
use hil_lab.Hil.RegisterMap.{reg_control}
use hil_lab.Hil.Uio.{force_safe, start_abz, stop_abz, clear_faults}
use hil_lab.Hil.Uio.Registers.{Registers, register_file}

-- The calls that take no configuration.
pub data ControlCall : Type 0 where
  safe : Bool → ControlCall
  start stop clear : ControlCall

unfoldable pub run_call : ControlCall → Exec Registers Unit
unfolding force_safe start_abz stop_abz clear_faults
run_call (safe asserted) = force_safe register_file asserted
run_call start = start_abz register_file
run_call stop = stop_abz register_file
run_call clear = clear_faults register_file

-- Bit `k` after a call, from the same bit `b` before it: 0 is HIL_ENABLE, 1 FORCE_SAFE,
-- 2 CLEAR_FAULTS and 3 ABZ_ENABLE.
abbrev pub flag_after : ControlCall → ℕ → ℕ → ℕ
flag_after (safe true) k b = if k == 1 then 1 else b
flag_after (safe false) k b = if k == 1 then 0 else b
flag_after start k b = if k == 1 then 0 else if k == 0 || k == 3 then 1 else b
flag_after stop k b = if k == 3 then 0 else b
flag_after clear k b = if k == 2 then 1 else b

-- Each of these calls succeeds, writes the CONTROL word once and no other register, and sets and
-- clears in its 32 bits exactly its own flags.
pub run_call-flags :
    (call : ControlCall) (s : Registers) (k : ℕ)
    → k < 32
    → (w : ℕ) × (run_call call s ≡ (
      ok tt,
      record {
        value = λ j. if j == reg_control then w else s.value j;
        writes = s.writes ++ (reg_control, w) ∷ [];
      },
    ))
      × (bit w k ≡ flag_after call k (bit (s.value reg_control) k))
unfolding run_call
run_call-flags (safe true) s k h = (_, refl, bit-mask _ 32 k h ∙ bit-set _ 1 k)
run_call-flags (safe false) s k h = (_, refl, bit-mask _ 32 k h ∙ bit-clear _ 1 k)
run_call-flags start s k h = (_, refl, bit-mask _ 32 k h ∙ started (s.value reg_control))
  where
    started : (c : ℕ) → bit (and_not (bit_or (bit_or c 1) 8) 2) k ≡ flag_after start k (bit c k)
    started c =
        ground
          (arith, bit-clear (bit_or (bit_or c 1) 8) 1 k, bit-set (bit_or c 1) 3 k, bit-set c 0 k)
run_call-flags stop s k h = (_, refl, bit-mask _ 32 k h ∙ bit-clear _ 3 k)
run_call-flags clear s k h = (_, refl, bit-mask _ 32 k h ∙ bit-set _ 2 k)

-- The calls that leave FORCE_SAFE alone, or assert it.
abbrev pub keeps_safe : ControlCall → Bool
keeps_safe (safe asserted) = asserted
keeps_safe start = false
keeps_safe stop = true
keeps_safe clear = true

abbrev pub all_keep_safe : List ControlCall → Bool
all_keep_safe [] = true
all_keep_safe (call ∷ calls) = keeps_safe call && all_keep_safe calls

unfoldable pub run_calls : List ControlCall → Exec Registers Unit
run_calls [] = pure tt
run_calls (call ∷ calls) = run_call call >> run_calls calls

abbrev pub IsSafe : Registers → Type 0
IsSafe s = bit (s.value reg_control) 1 ≡ 1

run_call-IsSafe :
    (call : ControlCall) (s : Registers)
    → keeps_safe call ≡ true
    → IsSafe s
    → (t : Registers) × (run_call call s ≡ (ok tt, t)) × IsSafe t
run_call-IsSafe call s h safe_now =
    let (w, e, b) = run_call-flags call s 1 (omega arith) in (_, e, b ∙ stays call h)
  where
    stays :
        (c : ControlCall) → keeps_safe c ≡ true → flag_after c 1 (bit (s.value reg_control) 1) ≡ 1
    stays (safe true) h = refl
    stays (safe false) h = cc
    stays start h = cc
    stays stop h = safe_now
    stays clear h = safe_now

-- Once FORCE_SAFE is set, any sequence of these calls that neither starts the ABZ generator nor
-- releases FORCE_SAFE succeeds and leaves it set.
pub run_calls-IsSafe :
    (calls : List ControlCall) (s : Registers)
    → all_keep_safe calls ≡ true
    → IsSafe s
    → ((run_calls calls s).0 ≡ ok tt) × IsSafe (run_calls calls s).1
unfolding run_calls
run_calls-IsSafe [] s h safe_now = (refl, safe_now)
run_calls-IsSafe (call ∷ calls) s h safe_now =
    let (t, e, b) = run_call-IsSafe call s (ground arith) safe_now in
    rw (e) (run_calls-IsSafe calls t (ground arith) b)
