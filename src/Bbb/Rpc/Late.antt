-- ===== src/Bbb/Rpc/Late.antt =====
-- How the client fares with a firmware whose responses wait in a queue: with its answers in step, and
-- after one answer has come too late for its request.
use hil_lab.Prelude.{
  ℕ, suc, ◌<◌, ◌≡◌, ◌≢◌, refl, subst, sym, ap, ◌∙◌, Option, none, some, List, [], ◌∷◌, ◌++◌, length,
  map, arith, ==_refl,
}
use hil_lab.Errors.{Result, ok, err, pure, continue, runtime_error}
use hil_lab.Bbb.Protocol.{Message, pack, unpack, validate_response}
use hil_lab.Bbb.Protocol.RoundTrip.{unpack-pack}
use hil_lab.Bbb.Rpc.{Rpmsg, Client, Args, request_message, exchange, request}

abbrev append_packet : Result (List ℕ) → List (List ℕ) → List (List ℕ)
append_packet (ok bs) inbox = inbox ++ bs ∷ []
append_packet (err e) inbox = inbox

-- A firmware behind a queue: it answers each packet that unpacks, and its packets wait to be read.
module _ (respond : Message → Message) where
  abbrev enqueue : Result Message → List (List ℕ) → List (List ℕ)
  enqueue (err e) inbox = inbox
  enqueue (ok m) inbox = append_packet (pack (respond m)) inbox

  abbrev take_first : List (List ℕ) → Result (List ℕ) × List (List ℕ)
  take_first [] = (ok [], [])
  take_first (bs ∷ inbox) = (ok bs, inbox)

  abbrev event_of : List (List ℕ) → Option ℕ
  event_of [] = none
  event_of (bs ∷ inbox) = some 1

  abbrev pub queue : Rpmsg
  queue = record {
    State = List (List ℕ);
    write = λ bs inbox. (ok (length bs), enqueue (unpack bs) inbox);
    poll = λ inbox. (ok (event_of inbox), inbox);
    read = take_first;
  }

-- The answer to a request goes on the wire and is the response to it.
abbrev pub Responds : (Message → Message) → Type 0
Responds respond =
    (m : Message) (packet : List ℕ)
    → m.type < 0x8000
    → pack m ≡ ok packet
    → (bs : List ℕ) × (pack (respond m) ≡ ok bs)
      × ((respond m).seq ≡ m.seq)
      × (validate_response (respond m) m.type m.seq ≡ ok tt)

module _ (respond : Message → Message) (responds : Responds respond) where
  -- After a request has been written, its answer stands last in the queue.
  written :
      (m : Message) (packet : List ℕ) (inbox : List (List ℕ))
      → (lt : m.type < 0x8000) → (h : pack m ≡ ok packet)
      → enqueue respond (unpack packet) inbox ≡ inbox ++ (responds m packet lt h).0 ∷ []
  written m packet inbox lt h = rw ((unpack-pack m packet h).1, (responds m packet lt h).1) refl

  -- The exchange from the packet that is read.
  exchange-reads :
      (msg_type seq : ℕ) (args : Args) (packet first : List ℕ) (inbox rest : List (List ℕ))
      (r : Message)
      → (lt : msg_type < 0x8000) → (h : pack (request_message msg_type seq args) ≡ ok packet)
      → inbox ++ (responds (request_message msg_type seq args) packet lt h).0 ∷ [] ≡ first ∷ rest
      → unpack first ≡ ok r
      → exchange (queue respond) msg_type seq args inbox
        ≡ continue (validate_response r msg_type seq) (λ d. pure r) rest
  unfolding exchange
  exchange-reads ty seq args packet first inbox rest r lt h e u =
      rw (h, written (request_message ty seq args) packet inbox lt h, e, ==_refl (length packet))
        (rw (u) refl)

-- A response with another number than the request's is refused.
validate_response-other :
    (m : Message) (msg_type seq : ℕ)
    → m.seq ≢ seq
    → validate_response m msg_type seq ≡ err runtime_error
unfolding validate_response
validate_response-other m ty seq h = ground (arith, h)

-- Each request goes on the wire, under its number, and has a type without bit 15.
abbrev pub Packs : ℕ → List (ℕ × Args) → Type 0
Packs seq [] = Unit
Packs seq ((msg_type, args) ∷ requests) =
    ((packet : List ℕ) × (pack (request_message msg_type seq args) ≡ ok packet)
      × (msg_type < 0x8000))
    × Packs (suc seq) requests

-- The requests in turn, each after the one before has returned or raised, with what each gave.
unfoldable pub run_requests :
    (rpmsg : Rpmsg)
    → List (ℕ × Args)
    → Client rpmsg.State
    → List (Result Message) × Client rpmsg.State
run_requests rpmsg [] c = ([], c)
run_requests rpmsg ((msg_type, args) ∷ requests) c =
    let (r, d) = request rpmsg msg_type args c in
    let (rs, e) = run_requests rpmsg requests d in (r ∷ rs, e)

-- One response waits that belongs to an earlier request.
abbrev pub IsLate : Client (List (List ℕ)) → Type 0
IsLate c =
    (m : Message) × (bs : List ℕ) × (unpack bs ≡ ok m) × (c.device ≡ bs ∷ []) × (m.seq < c.seq)

module _ (respond : Message → Message) (responds : Responds respond) where
  exchange-late :
      (msg_type : ℕ) (args : Args) (seq : ℕ) (packet bs : List ℕ) (m : Message)
      → (lt : msg_type < 0x8000) → (h : pack (request_message msg_type seq args) ≡ ok packet)
      → unpack bs ≡ ok m
      → m.seq ≢ seq
      → exchange (queue respond) msg_type seq args (bs ∷ [])
        ≡ (err runtime_error, (responds (request_message msg_type seq args) packet lt h).0 ∷ [])
  exchange-late ty args seq packet bs m lt h u n =
      exchange-reads respond responds ty seq args packet bs (bs ∷ [])
        ((responds (request_message ty seq args) packet lt h).0 ∷ []) m lt h refl u
      ∙ ap
          (λ v.
            continue v (λ d. pure m) ((responds (request_message ty seq args) packet lt h).0 ∷ []))
          (validate_response-other m ty seq n)

  pub request-IsLate :
      (msg_type : ℕ) (args : Args) (c : Client (List (List ℕ))) (packet : List ℕ)
      → msg_type < 0x8000
      → pack (request_message msg_type c.seq args) ≡ ok packet
      → IsLate c
      → (d : Client (List (List ℕ))) × (request (queue respond) msg_type args c
          ≡ (err runtime_error, d))
        × IsLate d
        × (d.seq ≡ suc c.seq)
  unfolding request
  request-IsLate ty args c packet lt h (m, bs, u, e, less) = (
    record {
      seq = suc c.seq;
      device = (responds (request_message ty c.seq args) packet lt h).0 ∷ [];
    },
    ap (λ p. (p.0, record { seq = suc c.seq; device = p.1 }))
        (ap (exchange (queue respond) ty c.seq args) e
          ∙ exchange-late ty args c.seq packet bs m lt h u (omega (arith, lt))),
    (
      respond (request_message ty c.seq args),
      (responds (request_message ty c.seq args) packet lt h).0,
      (unpack-pack (respond (request_message ty c.seq args))
          (responds (request_message ty c.seq args) packet lt h).0
          (responds (request_message ty c.seq args) packet lt h).1).1,
      refl,
      omega (arith, (responds (request_message ty c.seq args) packet lt h).2),
    ),
    refl,
  )

-- Once a response has come too late, and waits when the next request is sent, no later request
-- succeeds, although the firmware answers every one: each raises the error for a wrong number and
-- leaves its own response for the next.
pub run_requests-IsLate :
    (respond : Message → Message) (requests : List (ℕ × Args)) (c : Client (List (List ℕ)))
    → Responds respond
    → Packs c.seq requests
    → IsLate c
    → (d : Client (List (List ℕ))) × (run_requests (queue respond) requests c
        ≡ (map (λ r. err runtime_error) requests, d))
      × IsLate d
unfolding run_requests
run_requests-IsLate respond [] c responds p l = (c, refl, l)
run_requests-IsLate respond ((ty, args) ∷ requests) c responds p l =
    let (d, a, late, q) = request-IsLate respond responds ty args c p.0.0 p.0.2 p.0.1 l in
    let (e, b, later) =
      run_requests-IsLate respond requests d responds (subst (λ k. Packs k requests) (sym q) p.1)
        late in
    (e, rw (a, b) refl, later)

-- While the queue is empty when a request is sent, the request returns the firmware's response and
-- leaves the queue empty.
pub request-in_step :
    (respond : Message → Message) (msg_type seq : ℕ) (args : Args) (packet : List ℕ)
    → Responds respond
    → msg_type < 0x8000
    → pack (request_message msg_type seq args) ≡ ok packet
    → request (queue respond) msg_type args (record { seq = seq; device = [] })
      ≡ (ok (respond (request_message msg_type seq args)), record { seq = suc seq; device = [] })
unfolding request
request-in_step respond ty seq args packet responds lt h =
    ap (λ p. (p.0, record { seq = suc seq; device = p.1 }))
      (exchange-reads respond responds ty seq args packet
          (responds (request_message ty seq args) packet lt h).0 [] []
          (respond (request_message ty seq args)) lt h refl
          (unpack-pack (respond (request_message ty seq args))
            (responds (request_message ty seq args) packet lt h).0
            (responds (request_message ty seq args) packet lt h).1).1
        ∙ ap (λ v. continue v (λ d. pure (respond (request_message ty seq args))) [])
            (responds (request_message ty seq args) packet lt h).3)
