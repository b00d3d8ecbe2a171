-- ===== src/Bbb/Snapshot/Quiet.antt =====
-- boards/beaglebone_black/host/hil_pwm_shared.py: the reader while the firmware leaves the summary
-- alone.
use hil_lab.Prelude.{ℕ, zero, suc, ◌+◌, ◌≤◌, ◌≡◌, refl, ap, List, [], ◌∷◌, take, drop, arith}

pub take-drop-take :
    (k j i : ℕ) (m : List ℕ) → j + k ≤ i → take k (drop j (take i m)) ≡ take k (drop j m)
take-drop-take zero j i m l = refl
take-drop-take (suc k) j zero m l = absurd (omega (arith, l))
take-drop-take (suc k) j (suc i) [] l = refl
take-drop-take (suc k) zero (suc i) (x ∷ m) l =
    ap (λ t. x ∷ t) (take-drop-take k 0 i m (omega (arith, l)))
take-drop-take (suc k) (suc j) (suc i) (x ∷ m) l = take-drop-take (suc k) j i m (omega (arith, l))
