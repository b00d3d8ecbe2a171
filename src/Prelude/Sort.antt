-- ===== src/Prelude/Sort.antt =====
-- Python's `sorted`: the stable sort by a test "less than".
use Prim.Native.Nat.{ℕ, ◌<◌}
use mathlib.Core.Bool.{Bool, false}
use mathlib.Core.List.{List, [], ◌∷◌}
use mathlib.Core.Path.{◌≡◌}
use mathlib.Core.Logic.{inl, inr}
use native.Mathlib.Omega.{arith}
use hil_lab.Prelude.Tests.{if◌then◌else◌, ltb, ◌==◌, Bool-cases, ltb→lt}
use hil_lab.Prelude.Lists.{All}

module _ {ℓ} {A : Type ℓ} (lt : A → A → Bool) where
  unfoldable pub insert_sorted : A → List A → List A
  insert_sorted x [] = x ∷ []
  insert_sorted x (y ∷ ys) = if lt y x then y ∷ insert_sorted x ys else x ∷ (y ∷ ys)

  unfoldable pub sorted : List A → List A
  unfolding insert_sorted
  sorted [] = []
  sorted (x ∷ xs) = insert_sorted x (sorted xs)

  pub All-insert_sorted {κ} :
      (P : A → Type κ) (x : A) (xs : List A) → P x → All P xs → All P (insert_sorted x xs)
  unfolding insert_sorted
  All-insert_sorted P x [] h k = (h, tt)
  All-insert_sorted P x (y ∷ ys) h k = elim (Bool-cases (lt y x)) [
    | inl e ↦ rw e (k.0, All-insert_sorted P x ys h k.1)
    | inr e ↦ rw e (h, k)
  ]

  pub All-sorted {κ} : (P : A → Type κ) (xs : List A) → All P xs → All P (sorted xs)
  unfolding sorted
  All-sorted P [] h = tt
  All-sorted P (x ∷ xs) h = All-insert_sorted P x (sorted xs) h.0 (All-sorted P xs h.1)

-- Strictly ascending numbers.
abbrev pub IsAscending : List ℕ → Type 0
IsAscending [] = Unit
IsAscending (x ∷ xs) = All (λ y. x < y) xs × IsAscending xs

-- Numbers that all differ from one.
abbrev pub IsFresh : ℕ → List ℕ → Type 0
IsFresh x = All (λ y. (y == x) ≡ false)

abbrev pub AllDiffer : List ℕ → Type 0
AllDiffer [] = Unit
AllDiffer (x ∷ xs) = IsFresh x xs × AllDiffer xs

All-below : (x y : ℕ) (ys : List ℕ) → x < y → All (λ z. y < z) ys → All (λ z. x < z) ys
All-below x y [] h k = tt
All-below x y (z ∷ zs) h k = (omega (arith, k.0), All-below x y zs h k.1)

insert_sorted-IsAscending :
    (x : ℕ) (xs : List ℕ) → IsFresh x xs → IsAscending xs → IsAscending (insert_sorted ltb x xs)
unfolding insert_sorted
insert_sorted-IsAscending x [] f s = (tt, tt)
insert_sorted-IsAscending x (y ∷ ys) f s = elim (Bool-cases (ltb y x)) [
  | inl e ↦ rw e (
    All-insert_sorted ltb (λ z. y < z) x ys (ltb→lt y x e) s.0,
    insert_sorted-IsAscending x ys f.1 s.1,
  )
  | inr e ↦ let less : x < y = ground (arith, e, f.0) in rw e ((less, All-below x y ys less s.0), s)
]

-- Different numbers are sorted into a strictly ascending list.
pub sorted-IsAscending : (xs : List ℕ) → AllDiffer xs → IsAscending (sorted ltb xs)
unfolding sorted
sorted-IsAscending [] h = tt
sorted-IsAscending (x ∷ xs) h =
    insert_sorted-IsAscending x (sorted ltb xs) (All-sorted ltb (λ y. (y == x) ≡ false) xs h.0)
      (sorted-IsAscending xs h.1)
