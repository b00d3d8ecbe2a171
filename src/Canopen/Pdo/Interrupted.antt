-- ===== src/Canopen/Pdo/Interrupted.antt =====
-- What an interrupted `configure_pdo_mapping` leaves behind: a server that records the writes and
-- answers them by a script stands for every way in which the sequence can fail.
use hil_lab.Prelude.{
  ℕ, ◌+◌, ◌≤◌, ◌≡◌, ◌≢◌, ◌⊎◌, inl, inr, refl, sym, ap, subst, ◌∙◌, true, Option, none, some, List,
  [], ◌∷◌, ◌++◌, length, All, All-append, arith,
}
use mathlib.Core.List.{append_assoc, append-nil}
use hil_lab.Prelude.Bytes.{to_le}
use hil_lab.Errors.{Result, ok, err, Exec, pure, continue, ◌>>◌}
use hil_lab.Canopen.Sdo.Port.{SdoPort}
use hil_lab.Canopen.Pdo.{PdoMappingEntry, PdoMapping, type_fits, configure_pdo_mapping}
use hil_lab.Canopen.Pdo.Codec.{IsMapping}
use hil_lab.Canopen.Pdo.Configure.{
  Write, run_writes, u8, entry_writes, type_writes, body, enable, run_writes-append,
  configure_pdo_mapping-eq_writes,
}

-- An SDO server that keeps the writes it was asked for and answers them by a script; what the
-- script does not cover is confirmed.
pub record RecorderState : Type 0 where
  pub outcomes : List (Result (Unit {0}))
  pub log : List Write

abbrev answer : List (Result (Unit {0})) → List Write → Result (Unit {0}) × RecorderState
answer [] log = (ok tt, record { outcomes = []; log = log })
answer (r ∷ rs) log = (r, record { outcomes = rs; log = log })

abbrev pub recorder : SdoPort
recorder = record {
  State = RecorderState;
  download = λ index subindex content s.
      answer s.outcomes
        (s.log ++ record { index = index; subindex = subindex; content = content } ∷ []);
  upload =
      λ index subindex s. (ok (record { index = index; subindex = subindex; content = [] }), s);
}

module _ (P : Write → Type 0) where
  -- Writes that all have a property leave it on the log, whatever the script answers.
  run_writes-All :
      (ws : List Write) (s : RecorderState)
      → All P ws
      → All P s.log
      → All P (run_writes recorder ws s).1.log
  run_writes-All [] s hs h = h
  run_writes-All (w ∷ ws) s hs h =
      go s.outcomes (s.log ++ w ∷ []) (All-append P s.log (w ∷ []) h (hs.0, tt))
        (λ t k. run_writes-All ws t hs.1 k)
    where
      go :
          (rs : List (Result (Unit {0}))) (log : List Write)
          → All P log
          → ((t : RecorderState) → All P t.log → All P (run_writes recorder ws t).1.log)
          → All P (continue (answer rs log).0 (λ _. run_writes recorder ws) (answer rs log).1).1.log
      go [] log k ih = ih _ k
      go (ok done ∷ rs) log k ih = ih _ k
      go (err e ∷ rs) log k ih = k

-- A sequence that succeeded has made all its writes.
run_writes-log :
    (ws : List Write) (s t : RecorderState)
    → run_writes recorder ws s ≡ (ok tt, t)
    → t.log ≡ s.log ++ ws
run_writes-log [] s t h = ap (λ p. p.1.log) (sym h) ∙ sym (append-nil s.log)
run_writes-log (w ∷ ws) s t h = go s.outcomes h (λ u k. run_writes-log ws u t k)
  where
    go :
        (rs : List (Result (Unit {0})))
        → continue
            (answer rs (s.log ++ w ∷ [])).0
            (λ _. run_writes recorder ws)
            (answer rs (s.log ++ w ∷ [])).1
          ≡ (ok tt, t)
        → ((u : RecorderState) → run_writes recorder ws u ≡ (ok tt, t) → t.log ≡ u.log ++ ws)
        → t.log ≡ s.log ++ w ∷ ws
    go [] k ih = ih _ k ∙ append_assoc s.log (w ∷ []) ws
    go (ok done ∷ rs) k ih = ih _ k ∙ append_assoc s.log (w ∷ []) ws
    go (err e ∷ rs) k ih = cc

-- What a write of the PDO's identifier says: that the PDO is disabled.
abbrev pub Disables : ℕ → PdoMapping → Write → Type 0
Disables communication_index m w =
    w.index ≡ communication_index → w.subindex ≡ 1 → w.content ≡ to_le 4 (0x8000_0000 + m.cob_id)

entry_writes-Disables :
    (mapping_index communication_index subindex : ℕ) (m : PdoMapping) (es : List PdoMappingEntry)
    → mapping_index ≢ communication_index
    → All (Disables communication_index m) (entry_writes mapping_index subindex es)
entry_writes-Disables mapping_index communication_index subindex m [] h = tt
entry_writes-Disables mapping_index communication_index subindex m (e ∷ es) h = (
  λ p q. absurd (h p),
  entry_writes-Disables mapping_index communication_index (subindex + 1) m es h,
)

type_writes-Disables :
    (communication_index : ℕ) (m : PdoMapping) (t : Option ℕ)
    → All (Disables communication_index m) (type_writes communication_index t)
type_writes-Disables communication_index m none = tt
type_writes-Disables communication_index m (some t) = (λ p q. absurd (omega arith), tt)

body-Disables :
    (mapping_index communication_index : ℕ) (m : PdoMapping) (t : Option ℕ)
    → mapping_index ≢ communication_index
    → All (Disables communication_index m) (body mapping_index communication_index m t)
body-Disables mapping_index communication_index m t h = (
  λ p q. refl,
  (
    λ p q. absurd (h p),
    All-append (Disables communication_index m) (entry_writes mapping_index 1 m.entries)
        (u8 mapping_index 0 (length m.entries) ∷ type_writes communication_index t)
        (entry_writes-Disables mapping_index communication_index 1 m m.entries h)
        (λ p q. absurd (h p), type_writes-Disables communication_index m t),
  ),
)

abbrev pub start : List (Result (Unit {0})) → RecorderState
start outcomes = record { outcomes = outcomes; log = [] }

last_write-log :
    (w : Write) (u : RecorderState) → (run_writes recorder (w ∷ []) u).1.log ≡ u.log ++ w ∷ []
last_write-log w u = go u.outcomes
  where
    go :
        (rs : List (Result (Unit {0})))
        → (continue
            (answer rs (u.log ++ w ∷ [])).0
            (λ _. pure tt)
            (answer rs (u.log ++ w ∷ [])).1).1.log
          ≡ u.log ++ w ∷ []
    go [] = refl
    go (ok done ∷ rs) = refl
    go (err e ∷ rs) = refl

-- A sequence with a last write has made it, or has failed with only the others on the log.
run_writes-last :
    (P : Write → Type 0) (ws : List Write) (w : Write) (outcomes : List (Result (Unit {0})))
    → All P ws
    → let (r, s) = (run_writes recorder ws >> run_writes recorder (w ∷ [])) (start outcomes) in
      (s.log ≡ ws ++ w ∷ []) ⊎ ((r ≢ ok tt) × All P s.log)
run_writes-last P ws w outcomes h =
    go (run_writes recorder ws (start outcomes)).0 (run_writes recorder ws (start outcomes)).1 refl
  where
    go :
        (r : Result (Unit {0})) (u : RecorderState)
        → run_writes recorder ws (start outcomes) ≡ (r, u)
        → let (r', s) = continue r (λ _. run_writes recorder (w ∷ [])) u in
          (s.log ≡ ws ++ w ∷ []) ⊎ ((r' ≢ ok tt) × All P s.log)
    go (ok done) u e =
        inl (last_write-log w u ∙ ap (λ l. l ++ w ∷ []) (run_writes-log ws (start outcomes) u e))
    go (err x) u e =
        inr (λ q. cc, subst (λ p. All P p.1.log) e (run_writes-All P ws (start outcomes) h tt))

-- Whatever the server answers, a valid configuration either has made every write of the sequence,
-- with the enabling write last, or it has failed and every write of the PDO's identifier that it
-- made says that the PDO is disabled. The mapping object is another object than the communication
-- object.
pub configure_pdo_mapping-disabled :
    (mapping_index communication_index : ℕ) (m : PdoMapping) (t : Option ℕ)
    (outcomes : List (Result (Unit {0})))
    → 0x1400 ≤ communication_index
    → communication_index ≤ 0x19ff
    → 0x1600 ≤ mapping_index
    → mapping_index ≤ 0x1bff
    → type_fits t ≡ true
    → IsMapping m
    → mapping_index ≢ communication_index
    → let (r, s) =
        configure_pdo_mapping recorder mapping_index communication_index m t (start outcomes) in
      (s.log ≡ body mapping_index communication_index m t ++ enable communication_index m ∷ [])
      ⊎ ((r ≢ ok tt) × All (Disables communication_index m) s.log)
configure_pdo_mapping-disabled mapping_index communication_index m t outcomes a b c d e v ne =
    subst
      (λ (run : Exec RecorderState Unit).
        let (r, s) = run (start outcomes) in
        (s.log ≡ body mapping_index communication_index m t ++ enable communication_index m ∷ [])
        ⊎ ((r ≢ ok tt) × All (Disables communication_index m) s.log))
      (sym (
        configure_pdo_mapping-eq_writes recorder mapping_index communication_index m t a b c d e v
        ∙ run_writes-append recorder (body mapping_index communication_index m t)
            (enable communication_index m ∷ [])))
      (run_writes-last (Disables communication_index m) (body mapping_index communication_index m t)
        (enable communication_index m) outcomes
        (body-Disables mapping_index communication_index m t ne))
