-- ===== src/Canopen/Nmt/Laws.antt =====
-- Heartbeats: what is accepted, and how the wait runs through the traffic of other nodes.
use hil_lab.Prelude.{
  ℕ, zero, suc, ◌+◌, ◌≤◌, ◌<◌, ◌≡◌, ◌≢◌, ◌↔◌, ap, get_or, refl, List, [], ◌∷◌, ◌++◌, arith, length,
  All,
}
use hil_lab.Errors.{ok, err, timeout_error}
use hil_lab.Canopen.Frame.{CanFrame}
use hil_lab.Canopen.Frame.Bus.{fake_bus}
use hil_lab.Canopen.Nmt.{
  NmtState, Heartbeat, nmt_state, state_code, parse_heartbeat, heartbeat_loop, wait_for_heartbeat,
}

-- The heartbeat frame that a node in a state sends.
abbrev pub heartbeat_frame : Heartbeat → CanFrame
heartbeat_frame hb = record { can_id = 0x700 + hb.node_id; payload = state_code hb.state ∷ [] }

nmt_state-state_code : (s : NmtState) → nmt_state (state_code s) ≡ ok s
nmt_state-state_code s = ground arith

state_code-nmt_state : (c : ℕ) (s : NmtState) → nmt_state c ≡ ok s → state_code s ≡ c
state_code-nmt_state c s h = ground arith

singleton_payload :
    (f : CanFrame)
    → length f.payload ≡ 1
    → f ≡ record { can_id = f.can_id; payload = get_or f.payload 0 0 ∷ [] }
singleton_payload f h = ap (λ l. record { can_id = f.can_id; payload = l }) (shape f.payload h)
  where
    shape : (l : List ℕ) → length l ≡ 1 → l ≡ get_or l 0 0 ∷ []
    shape [] h = absurd (omega arith)
    shape (x ∷ []) h = refl
    shape (x ∷ y ∷ l) h = absurd (omega arith)

parse_heartbeat-eq_frame :
    (f : CanFrame) (hb : Heartbeat)
    → parse_heartbeat f ≡ ok hb
    → (f ≡ heartbeat_frame hb) × (1 ≤ hb.node_id) × (hb.node_id ≤ 127)
unfolding parse_heartbeat
parse_heartbeat-eq_frame f hb h =
    ground (arith, singleton_payload f, state_code-nmt_state (get_or f.payload 0 0) hb.state)

parse_heartbeat-heartbeat_frame :
    (hb : Heartbeat)
    → 1 ≤ hb.node_id
    → hb.node_id ≤ 127
    → parse_heartbeat (heartbeat_frame hb) ≡ ok hb
unfolding parse_heartbeat
parse_heartbeat-heartbeat_frame hb lo hi = ground (arith, nmt_state-state_code hb.state)

-- A frame parses to a heartbeat exactly when it is the one-byte frame that a node from 1 to 127
-- sends in that state.
pub parse_heartbeat_iff :
    (f : CanFrame) (hb : Heartbeat)
    → (parse_heartbeat f ≡ ok hb)
      ↔ ((f ≡ heartbeat_frame hb) × (1 ≤ hb.node_id) × (hb.node_id ≤ 127))
parse_heartbeat_iff f hb =
    (parse_heartbeat-eq_frame f hb, λ (e, lo, hi). rw e (parse_heartbeat-heartbeat_frame hb lo hi))

-- Frames of other identifiers are skipped.
abbrev pub AreForeign : ℕ → List CanFrame → Type 0
AreForeign id = All (λ f. f.can_id ≢ id)

heartbeat_loop-skip :
    (node_id n : ℕ) (others : List CanFrame) (hb : CanFrame) (rest sent : List CanFrame)
    → AreForeign (0x700 + node_id) others
    → hb.can_id ≡ 0x700 + node_id
    → length others < n
    → heartbeat_loop fake_bus node_id n (record { responses = others ++ hb ∷ rest; sent = sent })
      ≡ (parse_heartbeat hb, record { responses = rest; sent = sent })
unfolding heartbeat_loop
heartbeat_loop-skip node_id zero others hb rest sent h e k = absurd (omega arith)
heartbeat_loop-skip node_id (suc n) [] hb rest sent h e k = ground arith
heartbeat_loop-skip node_id (suc n) (o ∷ others) hb rest sent h e k =
    ground (arith, heartbeat_loop-skip node_id n others hb rest sent h.1 e)

heartbeat_loop-timeout :
    (node_id n : ℕ) (others rest sent : List CanFrame)
    → AreForeign (0x700 + node_id) others
    → length others ≡ n
    → heartbeat_loop fake_bus node_id n (record { responses = others ++ rest; sent = sent })
      ≡ (err timeout_error, record { responses = rest; sent = sent })
unfolding heartbeat_loop
heartbeat_loop-timeout node_id zero [] rest sent h e = refl
heartbeat_loop-timeout node_id zero (o ∷ others) rest sent h e = absurd (omega arith)
heartbeat_loop-timeout node_id (suc n) [] rest sent h e = absurd (omega arith)
heartbeat_loop-timeout node_id (suc n) (o ∷ others) rest sent h e =
    ground (arith, heartbeat_loop-timeout node_id n others rest sent h.1)

-- The wait for a node from 1 to 127 answers with the node's first heartbeat when fewer than
-- `max_frames` frames of other identifiers stand before it, and takes no frame beyond it.
pub wait_for_heartbeat-first :
    (max_frames : ℕ) (others : List CanFrame) (hb : Heartbeat) (rest sent : List CanFrame)
    → 1 ≤ hb.node_id
    → hb.node_id ≤ 127
    → AreForeign (0x700 + hb.node_id) others
    → length others < max_frames
    → wait_for_heartbeat fake_bus hb.node_id max_frames
        (record { responses = others ++ heartbeat_frame hb ∷ rest; sent = sent })
      ≡ (ok hb, record { responses = rest; sent = sent })
unfolding wait_for_heartbeat
wait_for_heartbeat-first max_frames others hb rest sent lo hi h k = ground (
  arith,
  heartbeat_loop-skip hb.node_id max_frames others (heartbeat_frame hb) rest sent h refl k,
  parse_heartbeat-heartbeat_frame hb lo hi,
)

-- When the first `max_frames` frames all have other identifiers, the wait takes exactly those and
-- raises the timeout.
pub wait_for_heartbeat-timeout :
    (max_frames node_id : ℕ) (others rest sent : List CanFrame)
    → 1 ≤ node_id
    → node_id ≤ 127
    → AreForeign (0x700 + node_id) others
    → length others ≡ max_frames
    → wait_for_heartbeat fake_bus node_id max_frames
        (record { responses = others ++ rest; sent = sent })
      ≡ (err timeout_error, record { responses = rest; sent = sent })
unfolding wait_for_heartbeat
wait_for_heartbeat-timeout max_frames node_id others rest sent lo hi h e =
    ground (arith, heartbeat_loop-timeout node_id max_frames others rest sent h e)
