-- ===== src/Canopen/Pdo/Configure.antt =====
-- The SDO sequence of `configure_pdo_mapping`, as a list of writes, and what an interrupted
-- sequence leaves behind.
use hil_lab.Prelude.{
  ℕ, ◌+◌, ◌*◌, ◌^◌, ◌≤◌, ◌<◌, ◌≡◌, refl, sym, ap, ◌∙◌, true, Option, none, some, ◌&&◌, List, [],
  ◌∷◌, ◌++◌, leb, length, All, arith, lt→ltb,
}
use hil_lab.Prelude.Int.{pos}
use hil_lab.Prelude.Bits.Fields.{bit_or-fields, fields-bit_or}
use hil_lab.Prelude.Bytes.{to_le, to_bytes}
use hil_lab.Errors.{Exec, pure, ◌>>◌, >>_assoc, >>_pure}
use hil_lab.Canopen.Sdo.Port.{SdoPort, download_u8, download_u32}
use hil_lab.Canopen.Pdo.{
  PdoMappingEntry, PdoMapping, mapping_value, write_entries, type_fits, write_transmission_type,
  configure_pdo_mapping,
}
use hil_lab.Canopen.Pdo.Codec.{IsEntry, IsMapping}

pub record Write : Type 0 where
  pub index : ℕ
  pub subindex : ℕ
  pub content : List ℕ

module _ (sdo : SdoPort) where
  -- One write after the other, up to the first that fails.
  abbrev pub run_writes : List Write → Exec sdo.State Unit
  run_writes [] = pure tt
  run_writes (w ∷ ws) = sdo.download w.index w.subindex w.content >> run_writes ws

abbrev pub u32 : ℕ → ℕ → ℕ → Write
u32 index subindex value = record { index = index; subindex = subindex; content = to_le 4 value }

abbrev pub u8 : ℕ → ℕ → ℕ → Write
u8 index subindex value = record { index = index; subindex = subindex; content = to_le 1 value }

-- An entry in the node's dictionary: index, subindex and length in bits.
abbrev pub entry_word : PdoMappingEntry → ℕ
entry_word e = e.index * 65536 + e.subindex * 256 + e.bits

abbrev pub entry_writes : ℕ → ℕ → List PdoMappingEntry → List Write
entry_writes mapping_index subindex [] = []
entry_writes mapping_index subindex (e ∷ es) =
    u32 mapping_index subindex (entry_word e) ∷ entry_writes mapping_index (subindex + 1) es

abbrev pub type_writes : ℕ → Option ℕ → List Write
type_writes communication_index none = []
type_writes communication_index (some t) = u8 communication_index 2 t ∷ []

-- All that precedes the last write: the PDO is disabled by bit 31 of its identifier, the count is
-- cleared, the entries and the count are written, then the transmission type if there is one.
abbrev pub body : ℕ → ℕ → PdoMapping → Option ℕ → List Write
body mapping_index communication_index m t =
    u32 communication_index 1 (0x8000_0000 + m.cob_id)
    ∷ u8 mapping_index 0 0
    ∷ (entry_writes mapping_index 1 m.entries
        ++ (u8 mapping_index 0 (length m.entries) ∷ type_writes communication_index t))

abbrev pub enable : ℕ → PdoMapping → Write
enable communication_index m = u32 communication_index 1 m.cob_id

mapping_value-eq : (e : PdoMappingEntry) → IsEntry e → mapping_value e ≡ entry_word e
mapping_value-eq e h = ground (
  arith,
  bit_or-fields 16 e.index (e.subindex * 256),
  bit_or-fields 8 (e.index * 256 + e.subindex) e.bits,
)

module _ (sdo : SdoPort) where
  download_u32-eq :
      (index subindex n : ℕ)
      → n < 2 ^ 32
      → download_u32 sdo index subindex (pos n) ≡ sdo.download index subindex (to_le 4 n)
  unfolding to_bytes
  download_u32-eq index subindex n h = rw (lt→ltb n (2 ^ 32) h) refl

  download_u8-eq :
      (index subindex n : ℕ)
      → n < 256
      → download_u8 sdo index subindex (pos n) ≡ sdo.download index subindex (to_le 1 n)
  unfolding to_bytes
  download_u8-eq index subindex n h = rw (lt→ltb n 256 h) refl

  pub run_writes-append :
      (xs ys : List Write) → run_writes sdo (xs ++ ys) ≡ (run_writes sdo xs >> run_writes sdo ys)
  run_writes-append [] ys = refl
  run_writes-append (x ∷ xs) ys =
      ap (λ k. sdo.download x.index x.subindex x.content >> k) (run_writes-append xs ys)
      ∙ sym (
          >>_assoc (sdo.download x.index x.subindex x.content) (run_writes sdo xs)
            (run_writes sdo ys))

  entry_word-lt : (e : PdoMappingEntry) → IsEntry e → entry_word e < 2 ^ 32
  entry_word-lt e h = ground arith

  write_entries-eq :
      (mapping_index subindex : ℕ) (es : List PdoMappingEntry)
      → All IsEntry es
      → write_entries sdo mapping_index subindex es
        ≡ run_writes sdo (entry_writes mapping_index subindex es)
  unfolding write_entries
  write_entries-eq mapping_index subindex [] hs = refl
  write_entries-eq mapping_index subindex (e ∷ es) hs =
      rw
        (
          mapping_value-eq e hs.0,
          download_u32-eq mapping_index subindex (entry_word e) (entry_word-lt e hs.0),
          write_entries-eq mapping_index (subindex + 1) es hs.1,
        )
        refl

  type_writes-eq :
      (communication_index : ℕ) (t : Option ℕ)
      → type_fits t ≡ true
      → write_transmission_type sdo communication_index t
        ≡ run_writes sdo (type_writes communication_index t)
  type_writes-eq communication_index none h = refl
  type_writes-eq communication_index (some t) h =
      rw (download_u8-eq communication_index 2 t (ground arith))
        (sym (>>_pure (sdo.download communication_index 2 (to_le 1 t))))

  tail_writes :
      (es : List Write) (u : Write) (ts : List Write) (last : Write)
      → run_writes sdo (es ++ (u ∷ ts) ++ last ∷ []) ≡ (
          run_writes sdo es
          >> (sdo.download u.index u.subindex u.content
              >> (run_writes sdo ts >> sdo.download last.index last.subindex last.content)))
  tail_writes es u ts last =
      let first = sdo.download u.index u.subindex u.content in
      let final = sdo.download last.index last.subindex last.content in
      run_writes-append (es ++ u ∷ ts) (last ∷ [])
      ∙ ap (λ k. run_writes sdo (es ++ u ∷ ts) >> k) (>>_pure final)
      ∙ ap (λ k. k >> final) (run_writes-append es (u ∷ ts))
      ∙ >>_assoc (run_writes sdo es) (first >> run_writes sdo ts) final
      ∙ ap (λ k. run_writes sdo es >> k) (>>_assoc first (run_writes sdo ts) final)

  in_range : (x lo hi : ℕ) → lo ≤ x → x ≤ hi → (leb lo x && leb x hi) ≡ true
  in_range x lo hi h k = ground arith

  -- On every SDO server, a valid mapping is configured by these writes in this order, stopping at
  -- the first that fails: the PDO is disabled first and enabled last.
  pub configure_pdo_mapping-eq_writes :
      (mapping_index communication_index : ℕ) (m : PdoMapping) (t : Option ℕ)
      → 0x1400 ≤ communication_index
      → communication_index ≤ 0x19ff
      → 0x1600 ≤ mapping_index
      → mapping_index ≤ 0x1bff
      → type_fits t ≡ true
      → IsMapping m
      → configure_pdo_mapping sdo mapping_index communication_index m t
        ≡ run_writes sdo
            (body mapping_index communication_index m t ++ enable communication_index m ∷ [])
  unfolding configure_pdo_mapping
  configure_pdo_mapping-eq_writes mapping_index communication_index m t a b c d e v =
      rw
        (
          in_range communication_index 0x1400 0x19ff a b,
          in_range mapping_index 0x1600 0x1bff c d,
          e,
          fields-bit_or 31 1 m.cob_id (ground (arith, v)),
          download_u32-eq communication_index 1 (0x8000_0000 + m.cob_id) (ground (arith, v)),
          download_u8-eq mapping_index 0 0 (omega arith),
          write_entries-eq mapping_index 1 m.entries v.entries_valid,
          download_u8-eq mapping_index 0 (length m.entries) (ground (arith, v)),
          type_writes-eq communication_index t e,
          download_u32-eq communication_index 1 m.cob_id (ground (arith, v)),
          tail_writes (entry_writes mapping_index 1 m.entries)
              (u8 mapping_index 0 (length m.entries)) (type_writes communication_index t)
              (enable communication_index m),
        )
        refl
