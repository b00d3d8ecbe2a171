-- ===== src/Canopen/Sdo/Response.antt =====
-- The response loop of the SDO client: what it accepts, what it skips, and when it gives up.
use hil_lab.Prelude.{
  ℕ, zero, suc, ◌+◌, ◌-◌, ◌*◌, ◌<◌, ◌≡◌, ◌≢◌, ◌⊎◌, ap, ◌∙◌, List, [], ◌∷◌, ◌++◌, arith, length, All,
  bit_or, get_or, take, drop,
}
use hil_lab.Prelude.Bytes.{from_le}
use hil_lab.Errors.{ok, err, >>=-eq-ok, sdo_abort, timeout_error}
use hil_lab.Canopen.Frame.{CanFrame}
use hil_lab.Canopen.Frame.Bus.{CanBus, fake_bus}
use hil_lab.Canopen.Sdo.{CanopenSdoClient, response_cob_id, response_loop}

-- The index that a response names in its bytes 1 and 2.
abbrev pub named_index : CanFrame → ℕ
named_index f = bit_or (get_or f.payload 1 0) (get_or f.payload 2 0 * 256)

-- A response of the client's node to a request for this object, other than an abort.
pub record Answers (c : CanopenSdoClient) (index subindex : ℕ) (f : CanFrame) : Type 0 where
  pub from_node : f.can_id ≡ response_cob_id c
  pub whole : length f.payload ≡ 8
  pub same_index : named_index f ≡ index
  pub same_subindex : get_or f.payload 3 0 ≡ subindex
  pub no_abort : get_or f.payload 0 0 ≢ 0x80

-- A frame that the loop passes over: of another node, or of eight bytes for another object.
abbrev pub IsSkipped : CanopenSdoClient → ℕ → ℕ → CanFrame → Type 0
IsSkipped c index subindex f =
    (f.can_id ≢ response_cob_id c)
    ⊎ ((length f.payload ≡ 8) × ((named_index f ≢ index) ⊎ (get_or f.payload 3 0 ≢ subindex)))

-- On every bus, a frame that the loop returns is a response of the node to this very request.
pub response_loop-Answers :
    (bus : CanBus) (c : CanopenSdoClient) (index subindex n : ℕ) (s t : bus.State) (f : CanFrame)
    → response_loop bus c index subindex n s ≡ (ok f, t)
    → Answers c index subindex f
unfolding response_loop
response_loop-Answers bus c index subindex zero s t f h = cc
response_loop-Answers bus c index subindex (suc n) s t f h =
    let (frame, u, received, goes_on) = >>=-eq-ok bus.recv _ s h in
    ground (arith, goes_on, response_loop-Answers bus c index subindex n u t f)

module _ (c : CanopenSdoClient) (index subindex : ℕ) where
  response_loop-skip :
      (n : ℕ) (f : CanFrame) (rest sent : List CanFrame)
      → IsSkipped c index subindex f
      → response_loop fake_bus c index subindex
          (suc n)
          (record { responses = f ∷ rest; sent = sent })
        ≡ response_loop fake_bus c index subindex n (record { responses = rest; sent = sent })
  unfolding response_loop
  response_loop-skip n f rest sent h = ground arith

  response_loop-skip_each :
      (n m : ℕ) (skipped rest sent : List CanFrame)
      → All (IsSkipped c index subindex) skipped
      → n ≡ length skipped + m
      → response_loop fake_bus c index subindex n
          (record { responses = skipped ++ rest; sent = sent })
        ≡ response_loop fake_bus c index subindex m (record { responses = rest; sent = sent })
  response_loop-skip_each n m [] rest sent h e =
      ap (λ k. response_loop fake_bus c index subindex k (record { responses = rest; sent = sent }))
        (omega arith)
  response_loop-skip_each zero m (f ∷ skipped) rest sent h e = absurd (omega arith)
  response_loop-skip_each (suc n) m (f ∷ skipped) rest sent h e =
      response_loop-skip n f (skipped ++ rest) sent h.0
      ∙ response_loop-skip_each n m skipped rest sent h.1 (omega arith)

  response_loop-answer :
      (m : ℕ) (f : CanFrame) (rest sent : List CanFrame)
      → Answers c index subindex f
      → response_loop fake_bus c index subindex
          (suc m)
          (record { responses = f ∷ rest; sent = sent })
        ≡ (ok f, record { responses = rest; sent = sent })
  unfolding response_loop
  response_loop-answer m f rest sent h = ground arith

  -- The first answer among the frames is returned when fewer than `n` frames stand before it, all
  -- of them skipped; later frames stay on the bus.
  pub response_loop-first :
      (n : ℕ) (skipped : List CanFrame) (f : CanFrame) (rest sent : List CanFrame)
      → All (IsSkipped c index subindex) skipped
      → length skipped < n
      → Answers c index subindex f
      → response_loop fake_bus c index subindex n
          (record { responses = skipped ++ f ∷ rest; sent = sent })
        ≡ (ok f, record { responses = rest; sent = sent })
  response_loop-first n skipped f rest sent h k a =
      response_loop-skip_each n (suc (n - length skipped - 1)) skipped (f ∷ rest) sent h
        (omega arith)
      ∙ response_loop-answer (n - length skipped - 1) f rest sent a

  -- The abort of the request, by its four-byte code.
  pub record Aborts (code : ℕ) (f : CanFrame) : Type 0 where
    pub from_node : f.can_id ≡ response_cob_id c
    pub whole : length f.payload ≡ 8
    pub same_index : named_index f ≡ index
    pub same_subindex : get_or f.payload 3 0 ≡ subindex
    pub is_abort : get_or f.payload 0 0 ≡ 0x80
    pub with_code : from_le (take 4 (drop 4 f.payload)) ≡ code

  response_loop-abort :
      (m code : ℕ) (f : CanFrame) (rest sent : List CanFrame)
      → Aborts code f
      → response_loop fake_bus c index subindex
          (suc m)
          (record { responses = f ∷ rest; sent = sent })
        ≡ (err (sdo_abort code index subindex), record { responses = rest; sent = sent })
  unfolding response_loop
  response_loop-abort m code f rest sent h = ground arith

  pub response_loop-first_abort :
      (n code : ℕ) (skipped : List CanFrame) (f : CanFrame) (rest sent : List CanFrame)
      → All (IsSkipped c index subindex) skipped
      → length skipped < n
      → Aborts code f
      → response_loop fake_bus c index subindex n
          (record { responses = skipped ++ f ∷ rest; sent = sent })
        ≡ (err (sdo_abort code index subindex), record { responses = rest; sent = sent })
  response_loop-first_abort n code skipped f rest sent h k a =
      response_loop-skip_each n (suc (n - length skipped - 1)) skipped (f ∷ rest) sent h
        (omega arith)
      ∙ response_loop-abort (n - length skipped - 1) code f rest sent a

  pub response_loop-timeout :
      (n : ℕ) (skipped rest sent : List CanFrame)
      → All (IsSkipped c index subindex) skipped
      → length skipped ≡ n
      → response_loop fake_bus c index subindex n
          (record { responses = skipped ++ rest; sent = sent })
        ≡ (err timeout_error, record { responses = rest; sent = sent })
  unfolding response_loop
  response_loop-timeout n skipped rest sent h e =
      response_loop-skip_each n 0 skipped rest sent h (omega arith)
