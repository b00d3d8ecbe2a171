-- ===== src/Canopen/Pdo/Codec.antt =====
-- A PDO payload: its length, and the values read back from it.
use text.Mathlib.Text.{◌==◌ as str_eq}
use text.Mathlib.TextEquality.{eq_iff}
use hil_lab.Prelude.{
  ℕ, suc, ◌+◌, ◌-◌, ◌*◌, ◌/◌, ◌≤◌, ◌≡◌, ◌⊎◌, refl, sym, subst, ◌∙◌, String, Bool, Option, some,
  ◌&&◌, List, [], ◌∷◌, ◌++◌, leb, if◌then◌else◌, length, All, All-append, length-append,
  take-append, drop-append, arith,
}
use hil_lab.Prelude.Int.{ℤ}
use hil_lab.Prelude.Bytes.{to_bytes, IsByte, IsBytes, Encodes, to_bytes-Encodes}
use hil_lab.Errors.{
  ok, err, or_err, bind-eq-ok, or_err-eq-ok, value_error, key_error, overflow_error,
}
use hil_lab.Canopen.Frame.{CanFrame, IsFrame, make_frame}
use hil_lab.Canopen.Pdo.{
  PdoMappingEntry, PdoMapping, make_entry, make_mapping, total_bits, payload_bytes, encode_entries,
  encode, Dict, lookup, insert, decode_entries, decode, with_node_id,
}

-- What the constructors let through, as far as the codec depends on it.
pub record IsEntry (e : PdoMappingEntry) : Type 0 where
  pub index_fits : e.index ≤ 0xffff
  pub subindex_fits : e.subindex ≤ 0xff
  pub byte_aligned : (e.bits ≡ 8) ⊎ ((e.bits ≡ 16) ⊎ (e.bits ≡ 32))

pub record IsMapping (m : PdoMapping) : Type 0 where
  pub cob_fits : m.cob_id ≤ 0x7ff
  pub nonempty : 1 ≤ length m.entries
  pub few : length m.entries ≤ 8
  pub fits_frame : total_bits m.entries ≤ 64
  pub entries_valid : All IsEntry m.entries

pub make_entry-IsEntry :
    (name : String) (index subindex bits : ℕ) (signed : Bool) (e : PdoMappingEntry)
    → make_entry name index subindex bits signed ≡ ok e
    → IsEntry e
unfolding make_entry
make_entry-IsEntry name index subindex bits signed e h = ground arith

width-suc :
    (e : PdoMappingEntry) → IsEntry e → (w : ℕ) × (e.bits / 8 ≡ suc w) × (8 * suc w ≡ e.bits)
width-suc e h = (e.bits / 8 - 1, ground arith, ground arith)

-- What one round of the encoding loop did.
pub record Encoded (e : PdoMappingEntry) (es : List PdoMappingEntry) (values : String → Option ℤ)
    (bs : List ℕ) : Type 0 where
  pub value : ℤ
  pub bytes : List ℕ
  pub more : List ℕ
  pub has_value : values e.name ≡ some value
  pub encodes : Encodes e.signed (e.bits / 8) value bytes
  pub tail : encode_entries es values ≡ ok more
  pub joined : bs ≡ bytes ++ more

encode_entries-Encoded :
    (e : PdoMappingEntry) (es : List PdoMappingEntry) (values : String → Option ℤ) (bs : List ℕ)
    → IsEntry e
    → encode_entries (e ∷ es) values ≡ ok bs
    → Encoded e es values bs
unfolding encode_entries
encode_entries-Encoded e es values bs he h =
    let (value, got, h₁) = bind-eq-ok (or_err (values e.name) key_error) _ h in
    let (bytes, fits, h₂) =
      bind-eq-ok (or_err (to_bytes e.signed (e.bits / 8) value) overflow_error) _ h₁ in
    let (more, tail, h₃) = bind-eq-ok (encode_entries es values) _ h₂ in
    let (w, e₁, e₂) = width-suc e he in
    record {
      value = value;
      bytes = bytes;
      more = more;
      has_value = or_err-eq-ok _ _ got;
      encodes =
          subst (λ k. Encodes e.signed k value bytes) (sym e₁)
            (to_bytes-Encodes e.signed w value bytes
              (subst (λ k. to_bytes e.signed k value ≡ some bytes) e₁ (or_err-eq-ok _ _ fits)));
      tail = tail;
      joined = cc;
    }

length-encode_entries :
    (es : List PdoMappingEntry) (values : String → Option ℤ) (bs : List ℕ)
    → All IsEntry es
    → encode_entries es values ≡ ok bs
    → (8 * length bs ≡ total_bits es) × IsBytes bs
unfolding encode_entries
length-encode_entries [] values bs hs h = ground arith
length-encode_entries (e ∷ es) values bs hs h =
    let r = encode_entries-Encoded e es values bs hs.0 h in
    let ih = length-encode_entries es values r.more hs.1 r.tail in
    let (w, e1, e2) = width-suc e hs.0 in
    rw r.joined (
      omega (arith, length-append r.bytes r.more, r.encodes.0, e1, e2, ih.0),
      All-append IsByte r.bytes r.more r.encodes.1 ih.1,
    )

lookup-insert :
    (k j : String) (v : ℤ) (d : Dict)
    → lookup j (insert k v d) ≡ (if str_eq k j then some v else lookup j d)
lookup-insert k j v [] = refl
lookup-insert k j v ((i, w) ∷ d) =
    ground (arith, eq_iff k j, eq_iff i k, eq_iff i j, lookup-insert k j v d)

-- Every item of the dictionary is an item of the mapping.
abbrev pub Agrees : (String → Option ℤ) → Dict → Type 0
Agrees values d = (k : String) (v : ℤ) → lookup k d ≡ some v → values k ≡ some v

insert-Agrees :
    (values : String → Option ℤ) (k : String) (v : ℤ) (d : Dict)
    → values k ≡ some v
    → Agrees values d
    → Agrees values (insert k v d)
insert-Agrees values k v d e h j w found = ground (arith, eq_iff k j, lookup-insert k j v d, h j w)

-- What the decoding loop makes of a payload that `encode` wrote: it agrees with the values, keeps
-- what it had, and holds every entry of the mapping.
record Decoded (es : List PdoMappingEntry) (values : String → Option ℤ) (d out : Dict)
    : Type 0 where
  agrees : Agrees values out
  keeps : (k : String) (v : ℤ) → lookup k d ≡ some v → lookup k out ≡ some v
  holds : All (λ e. lookup e.name out ≡ values e.name) es

decode_entries-step :
    (e : PdoMappingEntry) (es : List PdoMappingEntry) (values : String → Option ℤ) (bs : List ℕ)
    (d : Dict) (r : Encoded e es values bs)
    → decode_entries (e ∷ es) bs d ≡ decode_entries es r.more (insert e.name r.value d)
unfolding decode_entries
decode_entries-step e es values bs d r =
    rw
      (
        r.joined,
        drop-append (e.bits / 8) r.bytes r.more r.encodes.0,
        take-append (e.bits / 8) r.bytes r.more r.encodes.0,
        r.encodes.2,
      )
      refl

lookup-insert_self : (k : String) (v : ℤ) (d : Dict) → lookup k (insert k v d) ≡ some v
lookup-insert_self k v d = ground (arith, eq_iff k k, lookup-insert k k v d)

insert-keeps :
    (values : String → Option ℤ) (k j : String) (v w : ℤ) (d : Dict)
    → values k ≡ some v
    → values j ≡ some w
    → lookup j d ≡ some w
    → lookup j (insert k v d) ≡ some w
insert-keeps values k j v w d e h found = ground (arith, eq_iff k j, lookup-insert k j v d)

decode_entries-Decoded :
    (es : List PdoMappingEntry) (values : String → Option ℤ) (bs : List ℕ) (d : Dict)
    → All IsEntry es
    → encode_entries es values ≡ ok bs
    → Agrees values d
    → Decoded es values d (decode_entries es bs d)
unfolding decode_entries
decode_entries-Decoded [] values bs d hs h a = record { agrees = a; keeps = λ k v e. e; holds = tt }
decode_entries-Decoded (e ∷ es) values bs d hs h a =
    let r = encode_entries-Encoded e es values bs hs.0 h in
    let ih =
      decode_entries-Decoded es values r.more (insert e.name r.value d) hs.1 r.tail
        (insert-Agrees values e.name r.value d r.has_value a) in
    subst (Decoded (e ∷ es) values d) (sym (decode_entries-step e es values bs d r)) (record {
      agrees = ih.agrees;
      keeps = λ k v found.
          ih.keeps k v (insert-keeps values e.name k r.value v d r.has_value (a k v found) found);
      holds = (
        ih.keeps e.name r.value (lookup-insert_self e.name r.value d) ∙ sym r.has_value,
        ih.holds,
      );
    })

-- Every frame that a valid mapping encodes is a valid CAN frame of the mapping's identifier, and
-- its payload has the length that the mapping announces.
pub encode-IsFrame :
    (m : PdoMapping) (values : String → Option ℤ) (f : CanFrame)
    → IsMapping m
    → encode m values ≡ ok f
    → IsFrame f × (f.can_id ≡ m.cob_id) × (length f.payload ≡ payload_bytes m)
unfolding encode make_frame
encode-IsFrame m values f v h =
    let (bs, e, g) = bind-eq-ok (encode_entries m.entries values) _ h in
    ground (arith, length-encode_entries m.entries values bs v.entries_valid e)

encode-parts :
    (m : PdoMapping) (values : String → Option ℤ) (f : CanFrame)
    → encode m values ≡ ok f
    → encode_entries m.entries values ≡ ok f.payload
unfolding encode make_frame
encode-parts m values f h =
    let (bs, e, g) = bind-eq-ok (encode_entries m.entries values) _ h in ground arith

-- A frame that a mapping encoded is decoded by the same mapping. The dictionary holds every entry
-- at the value encoded, and nothing that is not among the values.
pub decode-encode :
    (m : PdoMapping) (values : String → Option ℤ) (f : CanFrame)
    → IsMapping m
    → encode m values ≡ ok f
    → (d : Dict) × (decode m f ≡ ok d)
      × All (λ e. lookup e.name d ≡ values e.name) m.entries
      × Agrees values d
unfolding decode
decode-encode m values f v h =
    let r =
      decode_entries-Decoded m.entries values f.payload [] v.entries_valid
        (encode-parts m values f h) (λ k w e. cc) in
    (
      decode_entries m.entries f.payload [],
      ground (arith, encode-IsFrame m values f v h),
      r.holds,
      r.agrees,
    )

-- Moving a valid mapping to a node is refused unless the node is from 1 to 127 and the identifier
-- stays within 11 bits; else it adds the node to the identifier, keeps the entries, and is valid.
pub with_node_id_lem :
    (m : PdoMapping) (node_id : ℕ)
    → IsMapping m
    → (with_node_id m node_id ≡ (
        if leb 1 node_id && leb node_id 127 && leb (m.cob_id + node_id) 0x7ff
        then ok (record m { cob_id = m.cob_id + node_id })
        else err value_error))
      × ((m' : PdoMapping) → with_node_id m node_id ≡ ok m' → IsMapping m')
unfolding with_node_id make_mapping
with_node_id_lem m node_id v = (ground arith, λ m' e. ground arith)
