-- ===== src/Bbb/Protocol/RoundTrip.antt =====
-- boards/beaglebone_black/host/hil_pru_protocol.py: packing and unpacking a message, one after the
-- other.
use hil_lab.Prelude.{
  ℕ, ◌+◌, ◌^◌, ◌<◌, ◌≡◌, ◌↔◌, refl, sym, ap, ap₂, ◌∙◌, Bool, true, false, List, [], ◌∷◌, ◌++◌, ltb,
  lt→ltb, ltb→lt, if◌then◌else◌, length, take, drop, All-take, All-drop, take-append, drop-append,
  take-append-drop, length-append, length-take, length-drop, arith, Bool-cases, ◌⊎◌, inl, inr,
  subst,
}
use hil_lab.Prelude.Bytes.{
  to_le, from_le, IsBytes, length-to_le, from_le-to_le, from_le-lt, to_le-from_le,
}
use hil_lab.Prelude.Bits.Fields.{fields-bit_or}
use hil_lab.Errors.{ok-injective, bind-eq-ok, Result, ok, err, bind, struct_error}
use hil_lab.Bbb.Protocol.{
  Message, wire, pack_fields, unpack_fields, fields, message_of, pack, unpack, validate_response,
  magic_word,
}

abbrev total : List ℕ → ℕ
total [] = 0
total (w ∷ ws) = w + total ws

pack_fields-eq-ok :
    (ws ns bs : List ℕ)
    → length ws ≡ length ns
    → pack_fields ws ns ≡ ok bs
    → (length bs ≡ total ws) × (unpack_fields ws bs ≡ ns)
pack_fields-eq-ok [] [] bs l h = (ap length (ok-injective [] bs h), refl)
pack_fields-eq-ok [] (n ∷ ns) bs l h = absurd (omega (arith, l))
pack_fields-eq-ok (w ∷ ws) [] bs l h = absurd (omega (arith, l))
pack_fields-eq-ok (w ∷ ws) (n ∷ ns) bs l h =
    split (λ tail a. pack_fields-eq-ok ws ns tail (omega (arith, l)) a)
      (Bool-cases (ltb n (256 ^ w)))
  where
    rest : Result (List ℕ)
    rest = pack_fields ws ns

    joined :
        (n < 256 ^ w)
        → (tail : List ℕ) → bs ≡ to_le w n ++ tail
        → (length tail ≡ total ws) × (unpack_fields ws tail ≡ ns)
        → (length bs ≡ total (w ∷ ws)) × (unpack_fields (w ∷ ws) bs ≡ n ∷ ns)
    joined fit tail e k = rw (e) (
      length-append (to_le w n) tail ∙ ap₂ (λ x y. x + y) (length-to_le w n) k.0,
      ap₂ (λ x y. x ∷ y)
          (ap from_le (take-append w (to_le w n) tail (length-to_le w n)) ∙ from_le-to_le w n fit)
          (ap (unpack_fields ws) (drop-append w (to_le w n) tail (length-to_le w n)) ∙ k.1),
    )

    refused : ¬ (err struct_error ≡ ok bs)
    refused g = cc

    split :
        ((tail : List ℕ) → rest ≡ ok tail → (length tail ≡ total ws) × (unpack_fields ws tail ≡ ns))
        → (ltb n (256 ^ w) ≡ true) ⊎ (ltb n (256 ^ w) ≡ false)
        → (length bs ≡ total (w ∷ ws)) × (unpack_fields (w ∷ ws) bs ≡ n ∷ ns)
    split ih (inl e) =
        let (tail, a, b) =
          bind-eq-ok rest (λ bs. ok (to_le w n ++ bs))
            (sym
                (ap (λ c. if c then bind rest (λ bs. ok (to_le w n ++ bs)) else err struct_error) e)
              ∙ h) in
        joined (ltb→lt n (256 ^ w) e) tail (ok-injective (to_le w n ++ tail) bs b) (ih tail a)
    split ih (inr e) = absurd (
        refused (
          sym (ap (λ c. if c then bind rest (λ bs. ok (to_le w n ++ bs)) else err struct_error) e)
          ∙ h))

empty : (bs : List ℕ) → length bs ≡ 0 → [] ≡ bs
empty [] l = refl
empty (x ∷ bs) l = absurd (omega (arith, l))

pack-unpack_fields :
    (ws bs : List ℕ)
    → IsBytes bs
    → length bs ≡ total ws
    → pack_fields ws (unpack_fields ws bs) ≡ ok bs
pack-unpack_fields [] bs b l = ap ok (empty bs l)
pack-unpack_fields (w ∷ ws) bs b l =
    rw
      (
        lt→ltb (from_le (take w bs)) (256 ^ w) fit,
        pack-unpack_fields ws (drop w bs) (All-drop _ w bs b) (omega (arith, length-drop w bs, l)),
      )
      (ap ok (ap (λ t. t ++ drop w bs) whole ∙ take-append-drop w bs))
  where
    size : length (take w bs) ≡ w
    size = omega (arith, length-take w bs, l)

    fit : from_le (take w bs) < 256 ^ w
    fit =
        subst (λ k. from_le (take w bs) < 256 ^ k) size (from_le-lt (take w bs) (All-take _ w bs b))

    whole : to_le w (from_le (take w bs)) ≡ take w bs
    whole =
        subst (λ k. to_le k (from_le (take w bs)) ≡ take w bs) size
          (to_le-from_le (take w bs) (All-take _ w bs b))

-- Every number fits its field: exactly then the fields are packed.
abbrev pub Fit : List ℕ → List ℕ → Type 0
Fit [] ns = Unit
Fit (w ∷ ws) [] = ⊥
Fit (w ∷ ws) (n ∷ ns) = (n < 256 ^ w) × Fit ws ns

pub Fit-pack_fields : (ws ns : List ℕ) → Fit ws ns → (bs : List ℕ) × (pack_fields ws ns ≡ ok bs)
Fit-pack_fields [] ns f = ([], refl)
Fit-pack_fields (w ∷ ws) [] f = absurd f
Fit-pack_fields (w ∷ ws) (n ∷ ns) f =
    let (bs, e) = Fit-pack_fields ws ns f.1 in
    (to_le w n ++ bs, rw (lt→ltb n (256 ^ w) f.0, e) refl)

pub pack_fields-Fit : (ws ns bs : List ℕ) → pack_fields ws ns ≡ ok bs → Fit ws ns
pack_fields-Fit [] ns bs h = tt
pack_fields-Fit (w ∷ ws) [] bs h = cc
pack_fields-Fit (w ∷ ws) (n ∷ ns) bs h =
    split (λ tail a. pack_fields-Fit ws ns tail a) (Bool-cases (ltb n (256 ^ w)))
  where
    rest : Bool → Result (List ℕ)
    rest c = if c then bind (pack_fields ws ns) (λ bs. ok (to_le w n ++ bs)) else err struct_error

    refused : ¬ (err struct_error ≡ ok bs)
    refused g = cc

    split :
        ((tail : List ℕ) → pack_fields ws ns ≡ ok tail → Fit ws ns)
        → (ltb n (256 ^ w) ≡ true) ⊎ (ltb n (256 ^ w) ≡ false)
        → Fit (w ∷ ws) (n ∷ ns)
    split ih (inl e) =
        let (tail, a, b) = bind-eq-ok (pack_fields ws ns) _ (sym (ap rest e) ∙ h) in
        (ltb→lt n (256 ^ w) e, ih tail a)
    split ih (inr e) = absurd (refused (sym (ap rest e) ∙ h))

-- A message that packs is 32 bytes long and unpacks to itself.
pub unpack-pack :
    (m : Message) (bs : List ℕ) → pack m ≡ ok bs → (length bs ≡ 32) × (unpack bs ≡ ok m)
unfolding pack unpack
unpack-pack m bs h =
    let (a, b) = pack_fields-eq-ok wire (fields m) bs refl h in
    (a, rw (a) (ap (λ ns. ok (message_of ns)) b))

-- Every 32 bytes unpack, and what they unpack to packs to these bytes.
pub pack-unpack :
    (bs : List ℕ)
    → IsBytes bs
    → length bs ≡ 32
    → (m : Message) × (unpack bs ≡ ok m) × (pack m ≡ ok bs)
unfolding pack unpack
pack-unpack bs b l =
    (message_of (unpack_fields wire bs), rw (l) refl, pack-unpack_fields wire bs b l)

-- A response is accepted exactly when it carries the magic word, version 1, the request's type with
-- bit 15 added and the request's sequence number.
pub validate_response_iff :
    (m : Message) (request_type request_seq : ℕ)
    → request_type < 0x8000
    → (validate_response m request_type request_seq ≡ ok tt) ↔ (
        (m.magic ≡ magic_word)
        × (m.version ≡ 1)
        × (m.type ≡ request_type + 0x8000)
        × (m.seq ≡ request_seq))
unfolding validate_response
validate_response_iff m t s h = ground (arith, fields-bit_or 15 1 t h)
