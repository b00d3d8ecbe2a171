-- ===== src/Bbb/Devmem/Handles.antt =====
-- The readers of shared memory of boards/beaglebone_black/host: what they leave open, and what they accept.
use hil_lab.Prelude.{ℕ, ◌-◌, ◌≡◌, subst, ap, ◌∙◌, arith, not, false, ◌==◌, List}
use hil_lab.Errors.{
  Result, ok, Exec, pure, lift, raise_if, refuse_if, continue, continue-state, ◌>>=◌, ◌>>◌, finally,
  >>=-eq-ok, OnOk, continue-OnOk, continue-OnOk_eq, refuse_if-eq-ok, runtime_error,
}
use hil_lab.Errors.Handles.{Opened, finally-state, finally-eq-ok, balanced}
use hil_lab.Bbb.Raw.{RawCaptureShared, raw_shared_size, validate}
use hil_lab.Bbb.Devmem.{
  Devmem, with_mapping, read_header, from_buffer_copy, read_frozen_raw_capture,
}

-- The open handles of a state, as the operating system counts them: a close counts down, whether or not
-- it reports an error.
pub record CountsHandles (devmem : Devmem) (held : devmem.State → ℕ) : Type 0 where
  pub opens :
      (s : devmem.State) → Opened (held s) (devmem.open_file s).0 (held (devmem.open_file s).1)
  pub maps :
      (fd : ℕ) (s : devmem.State)
      → Opened (held s) (devmem.map_file fd s).0 (held (devmem.map_file fd s).1)
  pub unmaps : (m : ℕ) (s : devmem.State) → held (devmem.close_map m s).1 ≡ held s - 1
  pub closes : (fd : ℕ) (s : devmem.State) → held (devmem.close_file fd s).1 ≡ held s - 1
  pub copies : (m n : ℕ) (s : devmem.State) → held (devmem.prefix m n s).1 ≡ held s

-- A capture that was copied with a right header while it was not running.
abbrev pub IsFrozen : RawCaptureShared → Type 0
IsFrozen shared =
    (bytes : List ℕ) × (from_buffer_copy bytes ≡ ok shared)
    × (validate shared ≡ ok tt)
    × (shared.running ≡ 0)

not_running : (n : ℕ) → not (n == 0) ≡ false → n ≡ 0
not_running n h = ground (arith, h)

read_header-OnOk :
    (devmem : Devmem) (m : ℕ) (s : devmem.State) → OnOk IsFrozen (read_header devmem m s).0
unfolding read_header
read_header-OnOk devmem m s =
    continue-OnOk IsFrozen (devmem.prefix m raw_shared_size s).0 _ _ λ bytes u.
      continue-OnOk_eq IsFrozen (from_buffer_copy bytes) _ u λ header parsed.
        continue-OnOk_eq IsFrozen (validate header) _ u λ d valid.
          continue-OnOk_eq IsFrozen (refuse_if (not (header.running == 0)) runtime_error) _ u
            λ d idle. (
              bytes,
              parsed,
              valid,
              not_running header.running
                  (refuse_if-eq-ok (not (header.running == 0)) runtime_error idle),
            )

module _ (devmem : Devmem) (held : devmem.State → ℕ) (counts : CountsHandles devmem held) where
  -- On every path, errors included, the file and the mapping are closed again: as many handles are open
  -- after the call as before.
  pub with_mapping-held :
      {A : Type 0} (read : ℕ → Exec devmem.State A) (s : devmem.State)
      → ((m : ℕ) (u : devmem.State) → held (read m u).1 ≡ held u)
      → held (with_mapping devmem read s).1 ≡ held s
  unfolding with_mapping
  with_mapping-held read s keeps =
      balanced held (devmem.open_file s).0 _ (held s) (devmem.open_file s).1 (counts.opens s) closed
    where
      unmapped :
          (m : ℕ) (u : devmem.State) → held (finally (read m) (devmem.close_map m) u).1 ≡ held u - 1
      unmapped m u =
          ap held (finally-state (read m) (devmem.close_map m) u)
          ∙ (counts.unmaps m (read m u).1 ∙ ap (λ n. n - 1) (keeps m u))

      closed :
          (fd : ℕ) (u : devmem.State)
          → held
              (finally
                (devmem.map_file fd >>= λ m. finally (read m) (devmem.close_map m))
                (devmem.close_file fd)
                u).1
            ≡ held u - 1
      closed fd u =
          ap held (
            finally-state (devmem.map_file fd >>= λ m. finally (read m) (devmem.close_map m))
              (devmem.close_file fd) u)
          ∙ (counts.closes fd _
              ∙ ap (λ n. n - 1)
                  (balanced held (devmem.map_file fd u).0 _ (held u) (devmem.map_file fd u).1
                    (counts.maps fd u) unmapped))

  -- Whatever it reads and whatever fails, the reader of a raw capture leaves as many handles open as it
  -- found.
  pub read_frozen_raw_capture-held :
      (s : devmem.State) → held (read_frozen_raw_capture devmem s).1 ≡ held s
  unfolding read_frozen_raw_capture read_header
  read_frozen_raw_capture-held s = with_mapping-held (read_header devmem) s λ m u.
      let P = λ (v : devmem.State). held v ≡ held u in
      continue-state P (devmem.prefix m raw_shared_size u).0 _ _ (counts.copies m raw_shared_size u)
        λ bytes. checked P bytes (counts.copies m raw_shared_size u)
    where
      checked :
          (P : devmem.State → Type 0) (bytes : List ℕ) {v : devmem.State}
          → P v
          → P
              (continue
                (from_buffer_copy bytes)
                (λ header.
                  lift (validate header)
                  >> (raise_if (not (header.running == 0)) runtime_error >> pure header))
                v).1
      checked P bytes {v} h = continue-state P (from_buffer_copy bytes) _ v h λ header.
          continue-state P (validate header) _ v h
            λ d. continue-state P (refuse_if (not (header.running == 0)) runtime_error) _ v h λ e. h

-- A raw capture that is returned has a right header, and was not running when it was copied.
pub read_frozen_raw_capture-eq-ok :
    (devmem : Devmem) (s t : devmem.State) (shared : RawCaptureShared)
    → read_frozen_raw_capture devmem s ≡ (ok shared, t)
    → IsFrozen shared
unfolding read_frozen_raw_capture with_mapping
read_frozen_raw_capture-eq-ok devmem s t shared h =
    let (fd, u, e₁, k₁) = >>=-eq-ok devmem.open_file _ s h in
    let e₂ =
      finally-eq-ok
        (devmem.map_file fd >>= λ m. finally (read_header devmem m) (devmem.close_map m))
        (devmem.close_file fd) u k₁ in
    let (m, v, e₃, k₃) =
      >>=-eq-ok (devmem.map_file fd) (λ m. finally (read_header devmem m) (devmem.close_map m)) u
        (paired _ e₂) in
    subst (OnOk IsFrozen) (finally-eq-ok (read_header devmem m) (devmem.close_map m) v k₃)
      (read_header-OnOk devmem m v)
  where
    paired : (p : Result RawCaptureShared × devmem.State) → p.0 ≡ ok shared → p ≡ (ok shared, p.1)
    paired p e = ap (λ r. (r, p.1)) e
