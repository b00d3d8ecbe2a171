-- ===== src/Errors/Handles.antt =====
-- Handles that are opened before a body and closed after it, on every path.
use hil_lab.Prelude.{ℕ, suc, ◌-◌, ◌≡◌, refl, ap, arith}
use hil_lab.Errors.{Result, ok, err, Exec, lift, continue, finally}

-- A call that succeeded has one handle more open, and one that raised has as many as before.
abbrev pub Opened : {A : Type 0} → ℕ → Result A → ℕ → Type 0
Opened before (ok a) after = after ≡ suc before
Opened before (err e) after = after ≡ before

pub finally-state :
    {S A : Type 0} (m : Exec S A) (k : Exec S Unit) (s : S) → (finally m k s).1 ≡ (k (m s).1).1
finally-state {S} {A} m k s = left (k (m s).1).0 (k (m s).1).1 (m s).0
  where
    left : (v : Result Unit) (u : S) (r : Result A) → (continue v (λ d. lift r) u).1 ≡ u
    left (ok d) u r = refl
    left (err e) u r = refl

pub finally-eq-ok :
    {S A : Type 0} {a : A} {t : S} (m : Exec S A) (k : Exec S Unit) (s : S)
    → finally m k s ≡ (ok a, t)
    → (m s).0 ≡ ok a
finally-eq-ok {S} {A} {a} {t} m k s h = value (k (m s).1).0 (k (m s).1).1 (m s).0 h
  where
    value :
        (v : Result Unit) (u : S) (r : Result A) → continue v (λ d. lift r) u ≡ (ok a, t) → r ≡ ok a
    value (ok d) u r e = ap (λ p. p.0) e
    value (err x) u r e = cc

-- What runs on a handle that was opened just before, and is closed after it, leaves none open.
pub balanced :
    {S A : Type 0} (held : S → ℕ) {H : Type 0} (r : Result H) (use_handle : H → Exec S A)
    (before : ℕ) (t : S)
    → Opened before r (held t)
    → ((h : H) (u : S) → held (use_handle h u).1 ≡ held u - 1)
    → held (continue r use_handle t).1 ≡ before
balanced held (ok h) use_handle before t o k = omega (arith, k h t, o)
balanced held (err e) use_handle before t o k = o
