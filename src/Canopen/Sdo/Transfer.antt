-- ===== src/Canopen/Sdo/Transfer.antt =====
-- Whole transfers: what a download sends and an upload returns, against the expedited transfers of
-- CiA 301 written down from the node's side.
use hil_lab.Prelude.{
  ℕ, ◌+◌, ◌-◌, ◌*◌, ◌/◌, ◌%◌, ◌≤◌, ◌<◌, ◌≡◌, ◌⊎◌, refl, List, [], ◌∷◌, ◌++◌, arith, length, All,
  get_or, take, drop,
}
use hil_lab.Prelude.Bits.Fields.{fields-bit_or, bit_and-mask}
use hil_lab.Errors.{ok, err, sdo_abort, value_error}
use hil_lab.Canopen.Frame.RoundTrip.{length-ljust}
use hil_lab.Canopen.Frame.{CanFrame, make_frame, ljust}
use hil_lab.Canopen.Frame.Bus.{CanBus, fake_bus, FakeState}
use hil_lab.Canopen.Sdo.{
  CanopenSdoClient, download_frame, upload_frame, upload_content, download, upload,
}
use hil_lab.Canopen.Sdo.Response.{
  Answers, Aborts, IsSkipped, named_index, response_loop-first, response_loop-first_abort,
}

-- A client that `create` lets through, and an object of the dictionary.
pub record IsClient (c : CanopenSdoClient) : Type 0 where
  pub node_positive : 1 ≤ c.node_id
  pub node_fits : c.node_id ≤ 127
  pub patient : 1 ≤ c.max_frames

abbrev pub IsObject : ℕ → ℕ → Type 0
IsObject index subindex = (index < 65536) × (subindex < 256)

-- What a node reads from a download request: the object and the `4 - n` bytes written.
pub record Write : Type 0 where
  pub index : ℕ
  pub subindex : ℕ
  pub content : List ℕ

abbrev pub node_reads : CanFrame → Write
node_reads f = record {
  index = get_or f.payload 1 0 + 256 * get_or f.payload 2 0;
  subindex = get_or f.payload 3 0;
  content = take (4 - get_or f.payload 0 0 / 4 % 4) (drop 4 f.payload);
}

-- The node's answers: the confirmation of a download, an expedited upload, an abort.
abbrev pub node_frame : CanopenSdoClient → ℕ → ℕ → ℕ → List ℕ → CanFrame
node_frame c command index subindex content = record {
  can_id = 0x580 + c.node_id;
  payload = command ∷ index % 256 ∷ index / 256 ∷ subindex ∷ ljust 4 content;
}

abbrev pub confirmation : CanopenSdoClient → ℕ → ℕ → CanFrame
confirmation c index subindex = node_frame c 0x60 index subindex []

abbrev pub upload_answer : CanopenSdoClient → ℕ → ℕ → List ℕ → CanFrame
upload_answer c index subindex content =
    node_frame c (0x43 + 4 * (4 - length content)) index subindex content

named_index-node_frame :
    (c : CanopenSdoClient) (command index subindex : ℕ) (content : List ℕ)
    → index < 65536
    → named_index (node_frame c command index subindex content) ≡ index
named_index-node_frame c command index subindex content h =
    omega (arith, fields-bit_or 8 (index / 256) (index % 256) (omega arith))

-- The request that asks a node to write `content`, by CiA 301.
abbrev pub download_request : CanopenSdoClient → ℕ → ℕ → List ℕ → CanFrame
download_request c index subindex content = record {
  can_id = 0x600 + c.node_id;
  payload =
      (0x23 + 4 * (4 - length content)) ∷ index % 256 ∷ index / 256 ∷ subindex ∷ ljust 4 content;
}

abbrev pub upload_request : CanopenSdoClient → ℕ → ℕ → CanFrame
upload_request c index subindex = record {
  can_id = 0x600 + c.node_id;
  payload = 0x40 ∷ index % 256 ∷ index / 256 ∷ subindex ∷ 0 ∷ 0 ∷ 0 ∷ 0 ∷ [];
}

module _ (c : CanopenSdoClient) (index subindex : ℕ) (valid : IsClient c)
    (object : IsObject index subindex) where
  download_frame-eq :
      (content : List ℕ)
      → 1 ≤ length content
      → length content ≤ 4
      → download_frame c index subindex content ≡ ok (download_request c index subindex content)
  unfolding download_frame make_frame
  download_frame-eq [] lo hi = absurd (omega arith)
  download_frame-eq (a ∷ []) lo hi = ground (arith, valid, bit_and-mask 8 index)
  download_frame-eq (a ∷ b ∷ []) lo hi = ground (arith, valid, bit_and-mask 8 index)
  download_frame-eq (a ∷ b ∷ d ∷ []) lo hi = ground (arith, valid, bit_and-mask 8 index)
  download_frame-eq (a ∷ b ∷ d ∷ e ∷ []) lo hi = ground (arith, valid, bit_and-mask 8 index)
  download_frame-eq (a ∷ b ∷ d ∷ e ∷ g ∷ content) lo hi = absurd (omega arith)

  upload_frame-eq : upload_frame c index subindex ≡ ok (upload_request c index subindex)
  unfolding upload_frame make_frame
  upload_frame-eq = ground (arith, valid, bit_and-mask 8 index)

  upload_content-upload_answer :
      (content : List ℕ)
      → 1 ≤ length content
      → length content ≤ 4
      → upload_content (upload_answer c index subindex content) ≡ ok content
  unfolding upload_content
  upload_content-upload_answer [] lo hi = absurd (omega arith)
  upload_content-upload_answer (a ∷ []) lo hi = refl
  upload_content-upload_answer (a ∷ b ∷ []) lo hi = refl
  upload_content-upload_answer (a ∷ b ∷ d ∷ []) lo hi = refl
  upload_content-upload_answer (a ∷ b ∷ d ∷ e ∷ []) lo hi = refl
  upload_content-upload_answer (a ∷ b ∷ d ∷ e ∷ g ∷ content) lo hi = absurd (omega arith)

  -- The one frame that a download of one to four bytes sends is read by the node as this write of
  -- this object.
  pub node_reads-download_frame :
      (content : List ℕ)
      → 1 ≤ length content
      → length content ≤ 4
      → (f : CanFrame) × (download_frame c index subindex content ≡ ok f)
        × (f.can_id ≡ 0x600 + c.node_id)
        × (length f.payload ≡ 8)
        × (node_reads f ≡ record { index = index; subindex = subindex; content = content })
  node_reads-download_frame [] lo hi = absurd (omega arith)
  node_reads-download_frame (a ∷ []) lo hi =
      (_, download_frame-eq (a ∷ []) lo hi, refl, refl, ground arith)
  node_reads-download_frame (a ∷ b ∷ []) lo hi =
      (_, download_frame-eq (a ∷ b ∷ []) lo hi, refl, refl, ground arith)
  node_reads-download_frame (a ∷ b ∷ d ∷ []) lo hi =
      (_, download_frame-eq (a ∷ b ∷ d ∷ []) lo hi, refl, refl, ground arith)
  node_reads-download_frame (a ∷ b ∷ d ∷ e ∷ []) lo hi =
      (_, download_frame-eq (a ∷ b ∷ d ∷ e ∷ []) lo hi, refl, refl, ground arith)
  node_reads-download_frame (a ∷ b ∷ d ∷ e ∷ g ∷ content) lo hi = absurd (omega arith)

  confirmation-Answers : Answers c index subindex (confirmation c index subindex)
  confirmation-Answers = record {
    from_node = refl;
    whole = refl;
    same_index = named_index-node_frame c 0x60 index subindex [] object.0;
    same_subindex = refl;
    no_abort = omega arith;
  }

  upload_answer-Answers :
      (content : List ℕ)
      → 1 ≤ length content
      → length content ≤ 4
      → Answers c index subindex (upload_answer c index subindex content)
  upload_answer-Answers content lo hi = record {
    from_node = refl;
    whole = omega (arith, length-ljust 4 content hi);
    same_index =
        named_index-node_frame c (0x43 + 4 * (4 - length content)) index subindex content object.0;
    same_subindex = refl;
    no_abort = omega arith;
  }

  -- A confirmed download, with fewer than `max_frames` unrelated frames before the confirmation,
  -- succeeds; it has sent the one request and taken the frames up to the confirmation.
  pub download-confirmed :
      (content : List ℕ) (skipped rest sent : List CanFrame)
      → 1 ≤ length content
      → length content ≤ 4
      → All (IsSkipped c index subindex) skipped
      → length skipped < c.max_frames
      → download fake_bus c index subindex content
          (record { responses = skipped ++ confirmation c index subindex ∷ rest; sent = sent })
        ≡ (
          ok tt,
          record {
            responses = rest;
            sent = sent ++ download_request c index subindex content ∷ [];
          },
        )
  unfolding download
  download-confirmed content skipped rest sent lo hi h k =
      rw
        (
          download_frame-eq content lo hi,
          response_loop-first c index subindex c.max_frames skipped (confirmation c index subindex)
              rest (sent ++ download_request c index subindex content ∷ []) h k
              confirmation-Answers,
        )
        refl

  -- An upload that the node answers with one to four bytes returns exactly these bytes.
  pub upload-answered :
      (content : List ℕ) (skipped rest sent : List CanFrame)
      → 1 ≤ length content
      → length content ≤ 4
      → All (IsSkipped c index subindex) skipped
      → length skipped < c.max_frames
      → upload fake_bus c index subindex (record {
        responses = skipped ++ upload_answer c index subindex content ∷ rest;
        sent = sent;
      })
        ≡ (
          ok (record { index = index; subindex = subindex; content = content }),
          record { responses = rest; sent = sent ++ upload_request c index subindex ∷ [] },
        )
  unfolding upload
  upload-answered content skipped rest sent lo hi h k =
      rw
        (
          upload_frame-eq,
          response_loop-first c index subindex c.max_frames skipped
              (upload_answer c index subindex content) rest
              (sent ++ upload_request c index subindex ∷ []) h k
              (upload_answer-Answers content lo hi),
          upload_content-upload_answer content lo hi,
        )
        refl

  -- An abort from the node ends a download and an upload with the exception that carries its code
  -- and the object.
  pub transfer_aborted :
      (content : List ℕ) (code : ℕ) (f : CanFrame) (skipped rest sent : List CanFrame)
      → 1 ≤ length content
      → length content ≤ 4
      → All (IsSkipped c index subindex) skipped
      → length skipped < c.max_frames
      → Aborts c index subindex code f
      → let s : FakeState = record { responses = skipped ++ f ∷ rest; sent = sent } in
        ((download fake_bus c index subindex content s).0 ≡ err (sdo_abort code index subindex))
        × ((upload fake_bus c index subindex s).0 ≡ err (sdo_abort code index subindex))
  unfolding download upload
  transfer_aborted content code f skipped rest sent lo hi h k a = (
    rw
        (
          download_frame-eq content lo hi,
          response_loop-first_abort c index subindex c.max_frames code skipped f rest
              (sent ++ download_request c index subindex content ∷ []) h k a,
        )
        refl,
    rw
        (
          upload_frame-eq,
          response_loop-first_abort c index subindex c.max_frames code skipped f rest
              (sent ++ upload_request c index subindex ∷ []) h k a,
        )
        refl,
  )

-- A download of no byte or of more than four is refused before anything is sent.
pub download_refused :
    (bus : CanBus) (c : CanopenSdoClient) (index subindex : ℕ) (content : List ℕ) (s : bus.State)
    → (length content ≡ 0) ⊎ (4 < length content)
    → download bus c index subindex content s ≡ (err value_error, s)
unfolding download download_frame
download_refused bus c index subindex content s h = ground arith
