-- ===== src/Bbb/Snapshot/Padded.antt =====
-- boards/beaglebone_black/host/hil_pwm_shared.py: the words and bytes of a summary that is padded to a
-- whole snapshot.
use hil_lab.Prelude.{
  ℕ, zero, suc, ◌+◌, ◌-◌, ◌≤◌, ◌<◌, ◌≡◌, refl, ap, ◌∙◌, List, [], ◌∷◌, ◌++◌, take, drop, get_or,
  replicate, length, arith, length-append, length-take, length-replicate,
}
use hil_lab.Prelude.Bytes.{from_le}
use hil_lab.Bbb.Snapshot.{word_at, padded}
use hil_lab.Bbb.Snapshot.Untorn.{get_or-take}
use hil_lab.Bbb.Snapshot.Quiet.{take-drop-take}
use hil_lab.Bbb.Snapshot.Pieces.{get_or-append_left}

take-drop-append :
    (k j : ℕ) (xs ys : List ℕ) → j + k ≤ length xs → take k (drop j (xs ++ ys)) ≡ take k (drop j xs)
take-drop-append zero j xs ys l = refl
take-drop-append (suc k) j [] ys l = absurd (omega (arith, l))
take-drop-append (suc k) zero (x ∷ xs) ys l =
    ap (λ t. x ∷ t) (take-drop-append k 0 xs ys (omega (arith, l)))
take-drop-append (suc k) (suc j) (x ∷ xs) ys l = take-drop-append (suc k) j xs ys (omega (arith, l))

module _ (m : List ℕ) (whole : 368 ≤ length m) where
  length-summary : length (take 368 m) ≡ 368
  length-summary = length-take 368 m ∙ omega (arith, whole)

  -- A padded summary has the words and bytes of the memory.
  pub word_at-padded :
      (offset : ℕ) → offset + 4 ≤ 368 → word_at offset (padded (take 368 m)) ≡ word_at offset m
  unfolding padded
  word_at-padded offset l = ap from_le (
      take-drop-append 4 offset (take 368 m) (replicate (2416 - 368) 0)
        (omega (arith, l, length-summary))
      ∙ take-drop-take 4 offset 368 m l)

  pub length-padded : length (padded (take 368 m)) ≡ 2416
  unfolding padded
  length-padded =
      length-append (take 368 m) (replicate (2416 - 368) 0)
      ∙ omega (arith, length-summary, length-replicate (2416 - 368) (zero))

  pub get_or-padded : (b : ℕ) → b < 368 → get_or (padded (take 368 m)) b 0 ≡ get_or m b 0
  unfolding padded
  get_or-padded b l =
      get_or-append_left (take 368 m) (replicate (2416 - 368) 0) b
        (omega (arith, l, length-summary))
      ∙ get_or-take m 368 b l
