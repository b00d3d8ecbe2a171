-- ===== src/Bbb/Snapshot/Window.antt =====
-- boards/beaglebone_black/host/hil_pwm_shared.py: the copy of the recent edges, in one piece or in two.
use hil_lab.Prelude.{
  ℕ, ◌+◌, ◌-◌, ◌*◌, ◌%◌, ◌≤◌, ◌<◌, min, ◌≡◌, refl, ap, ◌∙◌, true, false, List, ◌==◌, get_or, length,
  arith, ◌⊎◌, inl, inr,
}
use hil_lab.Errors.{ok}
use hil_lab.Bbb.Snapshot.{copied, copy, splice, copy_ring_window}
use hil_lab.Bbb.Snapshot.Pieces.{
  lt_or_le, length-copied, get_or-copied, length-splice, splice-inside, splice-outside,
}

-- A byte of a snapshot that was read at one of the accesses from `first` to `last`.
abbrev pub IsRead : (ℕ → List ℕ) → ℕ → ℕ → List ℕ → ℕ → Type 0
IsRead memory first last snapshot b =
    (t : ℕ) × (first ≤ t) × (t ≤ last) × (get_or snapshot b 0 ≡ get_or (memory t) b 0)

-- The byte `i` of the record in a slot.
abbrev pub record_byte : ℕ → ℕ → ℕ
record_byte slot i = 368 + slot * 16 + i

-- A blob that got `count` records from slot `start` on, read from access `n` on.
abbrev pub IsCopied : (ℕ → List ℕ) → ℕ → ℕ → List ℕ → ℕ → List ℕ → Type 0
IsCopied memory start count blob n snapshot =
    (length snapshot ≡ 2416)
    × ((b : ℕ) → b < 368 → get_or snapshot b 0 ≡ get_or blob b 0)
    × ((j i : ℕ)
        → j < count
        → i < 16
        → IsRead memory n (n + 16 * count) snapshot (record_byte ((start + j) % 128) i))

module _ (memory : ℕ → List ℕ) (start count : ℕ) (blob : List ℕ) (n : ℕ)
    (sized : length blob ≡ 2416) (in_ring : start < 128) where
  abbrev piece : ℕ → ℕ → ℕ → List ℕ
  piece slot records t = copied memory (368 + slot * 16) (records * 16) t

  abbrev one_piece : List ℕ
  one_piece = splice (368 + start * 16) (count * 16) (piece start count n) blob

  copy_ring_window-one :
      start + count ≤ 128
      → copy_ring_window memory start count blob n ≡ (ok one_piece, n + count * 16)
  unfolding copy_ring_window copy
  copy_ring_window-one h = rw (all_first, none_left) refl
    where
      all_first : min count (128 - start) ≡ count
      all_first = omega (arith, h)

      none_left : (count - count == 0) ≡ true
      none_left = ground arith

  one_piece-IsCopied : start + count ≤ 128 → IsCopied memory start count blob n one_piece
  one_piece-IsCopied h = (
    length-splice _ _ _ blob fits (length-copied memory _ _ n) ∙ sized,
    λ b l. splice-outside _ _ _ blob fits (length-copied memory _ _ n) b (inl (omega (arith, l))),
    λ j i l m. (
      n + (j * 16 + i),
      omega arith,
      omega (arith, l, m),
      splice-inside _ _ _ blob fits (length-copied memory _ _ n) (j * 16 + i) _
            (omega (arith, l, m)) (omega (arith, l, h))
          ∙ get_or-copied memory _ _ n (j * 16 + i) _ _ (omega (arith, l, m)) refl
              (omega (arith, l, h)),
    ),
  )
    where
      fits : 368 + start * 16 + count * 16 ≤ length blob
      fits = omega (arith, h, sized)

  abbrev left : ℕ
  left = count - (128 - start)

  abbrev to_end : List ℕ
  to_end = splice (368 + start * 16) ((128 - start) * 16) (piece start (128 - start) n) blob

  abbrev two_pieces : List ℕ
  two_pieces = splice 368 (left * 16) (piece 0 left (n + (128 - start) * 16)) to_end

  copy_ring_window-two :
      128 < start + count
      → copy_ring_window memory start count blob n
        ≡ (ok two_pieces, n + (128 - start) * 16 + left * 16)
  unfolding copy_ring_window copy
  copy_ring_window-two h = rw (up_to_end, some_left) refl
    where
      up_to_end : min count (128 - start) ≡ 128 - start
      up_to_end = omega (arith, h)

      some_left : (count - (128 - start) == 0) ≡ false
      some_left = ground (arith, h)

  module _ (wraps : 128 < start + count) (few : count ≤ 128) where
    to_end_fits : 368 + start * 16 + (128 - start) * 16 ≤ length blob
    to_end_fits = omega (arith, in_ring, sized)

    length-to_end : length to_end ≡ 2416
    length-to_end = length-splice _ _ _ blob to_end_fits (length-copied memory _ _ n) ∙ sized

    left_fits : 368 + left * 16 ≤ length to_end
    left_fits = omega (arith, in_ring, few, length-to_end)

    -- What the second piece leaves alone.
    two_pieces-to_end :
        (b : ℕ) → (b < 368) ⊎ (368 + left * 16 ≤ b) → get_or two_pieces b 0 ≡ get_or to_end b 0
    two_pieces-to_end b =
        splice-outside _ _ _ to_end left_fits (length-copied memory _ _ (n + (128 - start) * 16)) b

    two_pieces-IsCopied : IsCopied memory start count blob n two_pieces
    two_pieces-IsCopied = (
      length-splice _ _ _ to_end left_fits (length-copied memory _ _ _) ∙ length-to_end,
      λ b l.
          two_pieces-to_end b (inl l)
          ∙ splice-outside _ _ _ blob to_end_fits (length-copied memory _ _ n) b
              (inl (omega (arith, l))),
      λ j i l m. side j i l m (lt_or_le j (128 - start)),
    )
      where
        side :
            (j i : ℕ)
            → j < count
            → i < 16
            → (j < 128 - start) ⊎ (128 - start ≤ j)
            → IsRead memory n (n + 16 * count) two_pieces (record_byte ((start + j) % 128) i)
        side j i l m (inl h) = (
          n + (j * 16 + i),
          omega arith,
          omega (arith, l, m),
          two_pieces-to_end _ (inr (omega (arith, h, few, in_ring)))
              ∙ splice-inside _ _ _ blob to_end_fits (length-copied memory _ _ n) (j * 16 + i) _
                  (omega (arith, m, h)) (omega (arith, h))
              ∙ get_or-copied memory _ _ n (j * 16 + i) _ _ (omega (arith, m, h)) refl
                  (omega (arith, h)),
        )
        side j i l m (inr h) = (
          n + (128 - start) * 16 + ((j - (128 - start)) * 16 + i),
          omega arith,
          omega (arith, l, m, h),
          splice-inside _ _ _ to_end left_fits (length-copied memory _ _ _)
                ((j - (128 - start)) * 16 + i) _ (omega (arith, m, h, l))
                (omega (arith, h, l, few, in_ring))
              ∙ get_or-copied memory _ _ _ ((j - (128 - start)) * 16 + i) _ _
                  (omega (arith, m, h, l)) refl (omega (arith, h, l, few, in_ring)),
        )

  -- The copy of at most 128 records holds each of them as it stood at one of the accesses made.
  pub copy_ring_window-IsCopied :
      count ≤ 128
      → (snapshot : List ℕ) × (copy_ring_window memory start count blob n
          ≡ (ok snapshot, n + 16 * count))
        × IsCopied memory start count blob n snapshot
  copy_ring_window-IsCopied few = side (lt_or_le 128 (start + count))
    where
      side :
          (128 < start + count) ⊎ (start + count ≤ 128)
          → (snapshot : List ℕ) × (copy_ring_window memory start count blob n
              ≡ (ok snapshot, n + 16 * count))
            × IsCopied memory start count blob n snapshot
      side (inl h) = (
        two_pieces,
        copy_ring_window-two h ∙ ap (λ t. (ok two_pieces, t)) (omega (arith, h, in_ring)),
        two_pieces-IsCopied h few,
      )
      side (inr h) = (
        one_piece,
        copy_ring_window-one h ∙ ap (λ t. (ok one_piece, t)) (omega arith),
        one_piece-IsCopied h,
      )
