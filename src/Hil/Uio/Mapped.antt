-- ===== src/Hil/Uio/Mapped.antt =====
-- host/hil/transports/uio.py, class UioMmio: a mapped window as its bytes, read and written in
-- little-endian words. A negative offset, which `_check` refuses too, is not representable.
use hil_lab.Prelude.{
  ℕ, zero, suc, ◌+◌, ◌-◌, ◌%◌, ◌^◌, ◌≤◌, ◌<◌, ◌≡◌, refl, sym, ap, ◌∙◌, List, [], ◌∷◌, ◌++◌, ltb,
  ◌==◌, not, ◌||◌, if◌then◌else◌, bit_and, length, take, drop, take-append, drop-append,
  length-append, length-take, length-drop, arith, ◌⊎◌, inl, inr, ==_refl, subst,
}
use hil_lab.Prelude.Bits.Fields.{bit_and-mask}
use hil_lab.Prelude.Bytes.{to_le, from_le, length-to_le, from_le-to_le}
use hil_lab.Errors.{ok, Exec, refuse_if, Result, value_error, ◌>>◌}
use hil_lab.Hil.Uio.{Mmio32, low_word}

abbrev Bytes : Type 0
Bytes = List ℕ

-- `_check`.
unfoldable pub check : ℕ → Bytes → Result (Unit {0})
check offset mapped =
    refuse_if (ltb (length mapped) (offset + 4) || not (bit_and offset 3 == 0)) value_error

-- `struct.pack_into("<I", mapped, offset, value)`, and `struct.unpack_from`.
abbrev pack_into : ℕ → ℕ → Bytes → Bytes
pack_into offset value mapped = take offset mapped ++ (to_le 4 value ++ drop (offset + 4) mapped)

abbrev unpack_from : ℕ → Bytes → ℕ
unpack_from offset mapped = from_le (take 4 (drop offset mapped))

unfoldable pub read32 : ℕ → Exec Bytes ℕ
unfolding check
read32 offset mapped = ((λ s. (check offset s, s)) >> (λ s. (ok (unpack_from offset s), s))) mapped

unfoldable pub write32 : ℕ → ℕ → Exec Bytes Unit
unfolding check
write32 offset value mapped =
    ((λ s. (check offset s, s)) >> (λ s. (ok tt, pack_into offset (low_word value) s))) mapped

abbrev pub uio_mmio : Mmio32
uio_mmio = record { State = Bytes; read32 = read32; write32 = write32 }

-- Reads that lie before, and past, a point where two lists are joined.
take-drop-within :
    (n j i : ℕ) (m r : Bytes)
    → j + n ≤ i
    → i ≤ length m
    → take n (drop j (take i m ++ r)) ≡ take n (drop j m)
take-drop-within zero j i m r h g = refl
take-drop-within (suc n) j zero m r h g = absurd (omega (arith, h))
take-drop-within (suc n) j (suc i) [] r h g = absurd (omega (arith, g))
take-drop-within (suc n) zero (suc i) (x ∷ m) r h g =
    ap (λ t. x ∷ t) (take-drop-within n 0 i m r (omega (arith, h)) (omega (arith, g)))
take-drop-within (suc n) (suc j) (suc i) (x ∷ m) r h g =
    take-drop-within (suc n) j i m r (omega (arith, h)) (omega (arith, g))

drop-append-past : (k b : ℕ) (p r : Bytes) → k ≡ length p + b → drop k (p ++ r) ≡ drop b r
drop-append-past k b [] r h = ap (λ i. drop i r) (omega (arith, h))
drop-append-past zero b (x ∷ p) r h = absurd (omega (arith, h))
drop-append-past (suc k) b (x ∷ p) r h = drop-append-past k b p r (omega (arith, h))

drop-drop : (k a b : ℕ) (m : Bytes) → k ≡ b + a → drop a (drop b m) ≡ drop k m
drop-drop k a zero m h = ap (λ i. drop i m) (omega (arith, h))
drop-drop zero a (suc b) m h = absurd (omega (arith, h))
drop-drop (suc k) zero (suc b) [] h = refl
drop-drop (suc k) (suc a) (suc b) [] h = refl
drop-drop (suc k) a (suc b) (x ∷ m) h = drop-drop k a b m (omega (arith, h))

unpack-pack-before :
    (j i v : ℕ) (m : Bytes)
    → j + 4 ≤ i
    → i ≤ length m
    → unpack_from j (pack_into i v m) ≡ unpack_from j m
unpack-pack-before j i v m h g = ap from_le (take-drop-within 4 j i m _ h g)

unpack-pack-after :
    (j i v : ℕ) (m : Bytes)
    → i + 4 ≤ j
    → i ≤ length m
    → unpack_from j (pack_into i v m) ≡ unpack_from j m
unpack-pack-after j i v m h g =
    ap (λ t. from_le (take 4 t))
      (drop-append-past j (j - i) (take i m) _ (omega (arith, length-take i m))
        ∙ drop-append-past (j - i) (j - (i + 4)) (to_le 4 v) _ (omega (arith, length-to_le 4 v))
        ∙ drop-drop j (j - (i + 4)) (i + 4) m (omega arith))

unpack-pack_same :
    (i v : ℕ) (m : Bytes) → i ≤ length m → v < 2 ^ 32 → unpack_from i (pack_into i v m) ≡ v
unpack-pack_same i v m g h =
    ap (λ t. from_le (take 4 t)) (drop-append i (take i m) _ (omega (arith, length-take i m)))
    ∙ ap from_le (take-append 4 (to_le 4 v) (drop (i + 4) m) (length-to_le 4 v))
    ∙ from_le-to_le 4 v h

-- Two offsets that `_check` lets through are equal or a whole word apart.
check-eq-ok : (i : ℕ) (m : Bytes) → check i m ≡ ok tt → (i + 4 ≤ length m) × (i % 4 ≡ 0)
unfolding check
check-eq-ok i m h = ground (arith, bit_and-mask 2 i)

apart : (i j : ℕ) → i % 4 ≡ 0 → j % 4 ≡ 0 → (i ≡ j) ⊎ ((i + 4 ≤ j) ⊎ (j + 4 ≤ i))
apart i j h g = omega (arith, h, g)

length-pack_into : (i v : ℕ) (m : Bytes) → i + 4 ≤ length m → length (pack_into i v m) ≡ length m
length-pack_into i v m h = omega (
  arith,
  h,
  length-append (take i m) (to_le 4 v ++ drop (i + 4) m),
  length-append (to_le 4 v) (drop (i + 4) m),
  length-take i m,
  length-to_le 4 v,
  length-drop (i + 4) m,
)

unpack-pack :
    (i j v : ℕ) (m : Bytes)
    → check i m ≡ ok tt
    → check j m ≡ ok tt
    → v < 2 ^ 32
    → unpack_from j (pack_into i v m) ≡ (if i == j then v else unpack_from j m)
unpack-pack i j v m a b h = split (check-eq-ok i m a) (check-eq-ok j m b)
  where
    split :
        (i + 4 ≤ length m) × (i % 4 ≡ 0)
        → (j + 4 ≤ length m) × (j % 4 ≡ 0)
        → unpack_from j (pack_into i v m) ≡ (if i == j then v else unpack_from j m)
    split c d = elim (apart i j c.1 d.1) [
      | inl e ↦
          subst (λ k. unpack_from k (pack_into i v m) ≡ (if i == k then v else unpack_from k m)) e
            (rw (==_refl i) (unpack-pack_same i v m (omega (arith, c.0)) h))
      | inr (inl k) ↦ other (unpack-pack-after j i v m k (omega (arith, c.0))) (omega (arith, k))
      | inr (inr k) ↦ other (unpack-pack-before j i v m k (omega (arith, c.0))) (omega (arith, k))
    ]
      where
        other :
            unpack_from j (pack_into i v m) ≡ unpack_from j m
            → ¬ (i ≡ j)
            → unpack_from j (pack_into i v m) ≡ (if i == j then v else unpack_from j m)
        other e k = ground arith

check-length : (j : ℕ) (s m : Bytes) → length s ≡ length m → check j m ≡ check j s
unfolding check
check-length j s m h =
    ap (λ l. refuse_if (ltb l (j + 4) || not (bit_and j 3 == 0)) value_error) (sym h)

-- A write at an offset that `_check` accepts succeeds and keeps the size of the window, and every
-- accepted read after it gives the word that was written at its own offset, reduced to 32 bits,
-- and what it gave before at all other offsets.
pub write32-read32 :
    (i j v : ℕ) (m : List ℕ)
    → check i m ≡ ok tt
    → check j m ≡ ok tt
    → (s : List ℕ) × (write32 i v m ≡ (ok tt, s))
      × (length s ≡ length m)
      × (read32 j s ≡ (ok (if i == j then v % 2 ^ 32 else (from_le (take 4 (drop j m)))), s))
unfolding write32 read32 check
write32-read32 i j v m a b =
    (s, rw (a) refl, size, rw (sym (check-length j s m size), b) (ap (λ x. (ok x, s)) value))
  where
    s : List ℕ
    s = pack_into i (low_word v) m

    size : length s ≡ length m
    size = length-pack_into i (low_word v) m (check-eq-ok i m a).0

    value : unpack_from j s ≡ (if i == j then v % 2 ^ 32 else from_le (take 4 (drop j m)))
    value =
        unpack-pack i j (low_word v) m a b (omega (arith, bit_and-mask 32 v))
        ∙ ap (λ w. if i == j then w else unpack_from j m) (bit_and-mask 32 v)
