-- ===== src/Bbb/Raw/Histogram.antt =====
-- boards/beaglebone_black/host/hil_raw_shared.py: what the tick histogram says of the values.
use hil_lab.Prelude.{
  ℕ, ◌+◌, ◌<◌, ◌≡◌, refl, Bool, false, ◌||◌, List, [], ◌∷◌, map, ◌==◌, ltb, if◌then◌else◌, All,
  Bool-cases, ==_refl, ==_iff, ◌∙◌, ap, arith, inl, inr,
}
use hil_lab.Prelude.Sort.{
  insert_sorted, sorted, All-sorted, IsAscending, IsFresh, AllDiffer, sorted-IsAscending,
}
use hil_lab.Bbb.Raw.Ticks.{increment, counter_loop, count_of, keys, tick_counts}

-- How often a value occurs in a list.
abbrev pub count : ℕ → List ℕ → ℕ
count a [] = 0
count a (x ∷ xs) = (if x == a then 1 else 0) + count a xs

abbrev elem : ℕ → List ℕ → Bool
elem a [] = false
elem a (x ∷ xs) = x == a || elem a xs

-- A histogram lists the values in ascending order, each that occurs with its number of occurrences, and
-- no other.
pub record IsHistogram (values : List ℕ) (counts : List (ℕ × ℕ)) : Type 0 where
  pub ascending : IsAscending (keys counts)
  pub counted : (a : ℕ) → count_of a counts ≡ count a values
  pub occurring : All (λ p. 0 < p.1) counts

count_of-increment :
    (a x : ℕ) (m : List (ℕ × ℕ))
    → count_of a (increment x m) ≡ (if x == a then 1 else 0) + count_of a m
unfolding increment count_of
count_of-increment a x [] = ground arith
count_of-increment a x ((k, n) ∷ m) = ground (arith, count_of-increment a x m)

count_of-counter_loop :
    (a : ℕ) (m : List (ℕ × ℕ)) (xs : List ℕ)
    → count_of a (counter_loop m xs) ≡ count_of a m + count a xs
unfolding counter_loop
count_of-counter_loop a m [] = ground arith
count_of-counter_loop a m (x ∷ xs) =
    ground (arith, count_of-counter_loop a (increment x m) xs, count_of-increment a x m)

IsFresh-increment :
    (y x : ℕ) (m : List (ℕ × ℕ))
    → (x == y) ≡ false
    → IsFresh y (keys m)
    → IsFresh y (keys (increment x m))
unfolding increment
IsFresh-increment y x [] h f = (h, tt)
IsFresh-increment y x ((k, n) ∷ m) h f = elim (Bool-cases (k == x)) [
  | inl e ↦ rw e f
  | inr e ↦ rw e (f.0, IsFresh-increment y x m h f.1)
]

AllDiffer-increment :
    (x : ℕ) (m : List (ℕ × ℕ)) → AllDiffer (keys m) → AllDiffer (keys (increment x m))
unfolding increment
AllDiffer-increment x [] d = (tt, tt)
AllDiffer-increment x ((k, n) ∷ m) d = elim (Bool-cases (k == x)) [
  | inl e ↦ rw e d
  | inr e ↦ rw e (IsFresh-increment k x m (ground (arith, e)) d.0, AllDiffer-increment x m d.1)
]

positive-increment :
    (x : ℕ) (m : List (ℕ × ℕ)) → All (λ p. 0 < p.1) m → All (λ p. 0 < p.1) (increment x m)
unfolding increment
positive-increment x [] h = (omega arith, tt)
positive-increment x ((k, n) ∷ m) h = elim (Bool-cases (k == x)) [
  | inl e ↦ rw e (omega (arith, h.0), h.1)
  | inr e ↦ rw e (h.0, positive-increment x m h.1)
]

counter_loop-keeps :
    (m : List (ℕ × ℕ)) (xs : List ℕ)
    → AllDiffer (keys m) × All (λ p. 0 < p.1) m
    → AllDiffer (keys (counter_loop m xs)) × All (λ p. 0 < p.1) (counter_loop m xs)
unfolding counter_loop
counter_loop-keeps m [] h = h
counter_loop-keeps m (x ∷ xs) h =
    counter_loop-keeps (increment x m) xs (AllDiffer-increment x m h.0, positive-increment x m h.1)

elem-insert_sorted :
    (a x : ℕ) (xs : List ℕ) → elem a (insert_sorted ltb x xs) ≡ (x == a || elem a xs)
unfolding insert_sorted
elem-insert_sorted a x [] = refl
elem-insert_sorted a x (y ∷ ys) = ground (arith, elem-insert_sorted a x ys)

elem-sorted : (a : ℕ) (xs : List ℕ) → elem a (sorted ltb xs) ≡ elem a xs
unfolding sorted
elem-sorted a [] = refl
elem-sorted a (x ∷ xs) =
    elem-insert_sorted a x (sorted ltb xs) ∙ ap (λ t. x == a || t) (elem-sorted a xs)

count_of-absent : (a : ℕ) (m : List (ℕ × ℕ)) → elem a (keys m) ≡ false → count_of a m ≡ 0
unfolding count_of
count_of-absent a [] h = refl
count_of-absent a ((k, n) ∷ m) h = ground (arith, count_of-absent a m)

-- The entries for some keys hold the counts of these keys.
count_of-map :
    (a : ℕ) (m : List (ℕ × ℕ)) (ks : List ℕ)
    → count_of a (map (λ k. (k, count_of k m)) ks) ≡ (if elem a ks then count_of a m else 0)
unfolding count_of
count_of-map a m [] = refl
count_of-map a m (k ∷ ks) = elim (Bool-cases (k == a)) [
  | inl e ↦ rw e (ap (λ t. count_of t m) ((==_iff k a).0 e))
  | inr e ↦ rw e (count_of-map a m ks)
]

keys-map : (f : ℕ → ℕ) (ks : List ℕ) → keys (map (λ k. (k, f k)) ks) ≡ ks
keys-map f [] = refl
keys-map f (k ∷ ks) = ap (λ t. k ∷ t) (keys-map f ks)

positive-map :
    (f : ℕ → ℕ) (ks : List ℕ)
    → All (λ k. 0 < f k) ks
    → All (λ (p : ℕ × ℕ). 0 < p.1) (map (λ k. (k, f k)) ks)
positive-map f [] h = tt
positive-map f (k ∷ ks) h = (h.0, positive-map f ks h.1)

weaken :
    (k n : ℕ) (m : List (ℕ × ℕ)) (ks : List ℕ)
    → 0 < n
    → All (λ j. 0 < count_of j m) ks
    → All (λ j. 0 < count_of j ((k, n) ∷ m)) ks
unfolding count_of
weaken k n m [] p h = tt
weaken k n m (j ∷ js) p h = (ground (arith, h.0), weaken k n m js p h.1)

positive-keys : (m : List (ℕ × ℕ)) → All (λ p. 0 < p.1) m → All (λ k. 0 < count_of k m) (keys m)
unfolding count_of
positive-keys [] h = tt
positive-keys ((k, n) ∷ m) h = (rw (==_refl k) h.0, weaken k n m (keys m) h.0 (positive-keys m h.1))

-- The tick counts of a list are its histogram.
pub tick_counts-IsHistogram : (values : List ℕ) → IsHistogram values (tick_counts values)
unfolding tick_counts
tick_counts-IsHistogram values =
    let m : List (ℕ × ℕ) = counter_loop [] values in
    let kept = counter_loop-keeps [] values (tt, tt) in
    record {
      ascending =
          rw (keys-map (λ k. count_of k m) (sorted ltb (keys m)))
            (sorted-IsAscending (keys m) kept.0);
      counted = λ a.
          count_of-map a m (sorted ltb (keys m))
          ∙ (rw (elem-sorted a (keys m)) (present a m) ∙ from_none a values);
      occurring =
          positive-map (λ k. count_of k m) (sorted ltb (keys m))
            (All-sorted ltb _ (keys m) (positive-keys m kept.1));
    }
  where
    present :
        (a : ℕ) (m : List (ℕ × ℕ)) → (if elem a (keys m) then count_of a m else 0) ≡ count_of a m
    present a m = ground (arith, count_of-absent a m)

    from_none : (a : ℕ) (xs : List ℕ) → count_of a (counter_loop [] xs) ≡ count a xs
    from_none a xs = omega (arith, count_of-counter_loop a [] xs)
