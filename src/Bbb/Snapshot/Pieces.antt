-- ===== src/Bbb/Snapshot/Pieces.antt =====
-- boards/beaglebone_black/host/hil_pwm_shared.py: what the copy of the ring's window holds at each byte.
use hil_lab.Prelude.{
  ℕ, zero, suc, ◌+◌, ◌-◌, ◌≤◌, ◌<◌, ◌≡◌, refl, ap, ap₂, ◌∙◌, List, [], ◌∷◌, ◌++◌, take, drop,
  get_or, length, arith, ◌⊎◌, inl, inr, length-append, length-take, length-drop,
}
use hil_lab.Bbb.Snapshot.{copied, splice}
use hil_lab.Bbb.Snapshot.Untorn.{get_or-take}

pub lt_or_le : (a b : ℕ) → (a < b) ⊎ (b ≤ a)
lt_or_le a b = ground arith

pub get_or-append_left :
    (xs ys : List ℕ) (k : ℕ) → k < length xs → get_or (xs ++ ys) k 0 ≡ get_or xs k 0
get_or-append_left [] ys k l = absurd (omega (arith, l))
get_or-append_left (x ∷ xs) ys zero l = refl
get_or-append_left (x ∷ xs) ys (suc k) l = get_or-append_left xs ys k (omega (arith, l))

pub get_or-append_right :
    (n k j : ℕ) (xs ys : List ℕ) → length xs ≡ n → j ≡ n + k → get_or (xs ++ ys) j 0 ≡ get_or ys k 0
get_or-append_right zero k j [] ys h e = ap (λ i. get_or ys i 0) (omega (arith, e))
get_or-append_right zero k j (x ∷ xs) ys h e = absurd (omega (arith, h))
get_or-append_right (suc n) k j [] ys h e = absurd (omega (arith, h))
get_or-append_right (suc n) k zero (x ∷ xs) ys h e = absurd (omega (arith, e))
get_or-append_right (suc n) k (suc j) (x ∷ xs) ys h e =
    get_or-append_right n k j xs ys (omega (arith, h)) (omega (arith, e))

get_or-drop : (n k j : ℕ) (xs : List ℕ) → j ≡ n + k → get_or (drop n xs) k 0 ≡ get_or xs j 0
get_or-drop zero k j xs e = ap (λ i. get_or xs i 0) (omega (arith, e))
get_or-drop (suc n) k j [] e = refl
get_or-drop (suc n) k zero (x ∷ xs) e = absurd (omega (arith, e))
get_or-drop (suc n) k (suc j) (x ∷ xs) e = get_or-drop n k j xs (omega (arith, e))

module _ (memory : ℕ → List ℕ) where
  pub length-copied : (size offset n : ℕ) → length (copied memory offset size n) ≡ size
  unfolding copied
  length-copied zero offset n = refl
  length-copied (suc size) offset n = ap suc (length-copied size (suc offset) (suc n))

  -- A byte of a copy was read at its own access.
  pub get_or-copied :
      (size offset n k t b : ℕ)
      → k < size
      → t ≡ n + k
      → b ≡ offset + k
      → get_or (copied memory offset size n) k 0 ≡ get_or (memory t) b 0
  unfolding copied
  get_or-copied zero offset n k t b l e f = absurd (omega (arith, l))
  get_or-copied (suc size) offset n zero t b l e f =
      ap₂ (λ u c. get_or (memory u) c 0) (omega (arith, e)) (omega (arith, f))
  get_or-copied (suc size) offset n (suc k) t b l e f =
      get_or-copied size (suc offset) (suc n) k t b (omega (arith, l)) (omega (arith, e))
        (omega (arith, f))

-- A piece in place of as many bytes.
module _ (src size : ℕ) (piece blob : List ℕ) (fits : src + size ≤ length blob)
    (sized : length piece ≡ size) where
  length-front : length (take src blob) ≡ src
  length-front = length-take src blob ∙ omega (arith, fits)

  pub length-splice : length (splice src size piece blob) ≡ length blob
  length-splice =
      length-append (take src blob) (piece ++ drop (src + size) blob)
      ∙ omega (
        arith,
        length-front,
        length-append piece (drop (src + size) blob),
        length-drop (src + size) blob,
        fits,
        sized,
      )

  pub splice-inside :
      (k b : ℕ)
      → k < size
      → b ≡ src + k
      → get_or (splice src size piece blob) b 0 ≡ get_or piece k 0
  splice-inside k b l e =
      get_or-append_right src k b (take src blob) (piece ++ drop (src + size) blob) length-front e
      ∙ get_or-append_left piece (drop (src + size) blob) k (omega (arith, l, sized))

  pub splice-outside :
      (b : ℕ)
      → (b < src) ⊎ (src + size ≤ b)
      → get_or (splice src size piece blob) b 0 ≡ get_or blob b 0
  splice-outside b (inl l) =
      get_or-append_left (take src blob) (piece ++ drop (src + size) blob) b
        (omega (arith, l, length-front))
      ∙ get_or-take blob src b l
  splice-outside b (inr l) =
      get_or-append_right src (b - src) b (take src blob) (piece ++ drop (src + size) blob)
        length-front (omega (arith, l))
      ∙ get_or-append_right size (b - (src + size)) (b - src) piece (drop (src + size) blob) sized
          (omega (arith, l))
      ∙ get_or-drop (src + size) (b - (src + size)) b blob (omega (arith, l))
