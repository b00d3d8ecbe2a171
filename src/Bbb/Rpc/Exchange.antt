-- ===== src/Bbb/Rpc/Exchange.antt =====
-- What a request returns on every device.
use hil_lab.Prelude.{ℕ, suc, ◌+◌, ◌<◌, ◌≡◌, refl, subst, sym, ap, ◌==◌, not, length}
use hil_lab.Prelude.Bits.{any_bits}
use hil_lab.Errors.{
  OnOk, continue-OnOk, refuse_if, Result, ok, err, or_err, pure, continue, runtime_error,
  timeout_error,
}
use hil_lab.Bbb.Protocol.{Message, magic_word, pack, unpack, validate_response}
use hil_lab.Bbb.Protocol.RoundTrip.{validate_response_iff}
use hil_lab.Bbb.Rpc.{Rpmsg, Client, Args, request_message, poll_failure, exchange, request}

exchange-OnOk :
    (rpmsg : Rpmsg) (msg_type seq : ℕ) (args : Args) (s : rpmsg.State)
    → OnOk (λ r. validate_response r msg_type seq ≡ ok tt) (exchange rpmsg msg_type seq args s).0
unfolding exchange
exchange-OnOk rpmsg ty seq args s =
    continue-OnOk Q (pack (request_message ty seq args)) _ s λ packet s₁.
      continue-OnOk Q (rpmsg.write packet s₁).0 _ _ λ written s₂.
        continue-OnOk Q (refuse_if (not (written == length packet)) runtime_error) _ s₂ λ d s₃.
          continue-OnOk Q (rpmsg.poll s₃).0 _ _ λ events s₄.
            continue-OnOk Q (or_err events timeout_error) _ s₄ λ event s₅.
              continue-OnOk Q (refuse_if (any_bits event poll_failure) runtime_error) _ s₅ λ d s₆.
                continue-OnOk Q (rpmsg.read s₆).0 _ _ λ payload s₇.
                  continue-OnOk Q (unpack payload) _ s₇
                    λ response s₈. checked response (validate_response response ty seq) refl s₈
  where
    Q : Message → Type 0
    Q r = validate_response r ty seq ≡ ok tt

    checked :
        (m : Message) (v : Result (Unit {0}))
        → validate_response m ty seq ≡ v
        → (u : rpmsg.State) → OnOk Q (continue v (λ d. pure m) u).0
    checked m (ok d) e u = e
    checked m (err x) e u = tt

-- On every device, a message that a request returns is the response to that request: its type with bit
-- 15, and its sequence number, which no later request of the client takes.
pub request-answers :
    (rpmsg : Rpmsg) (msg_type : ℕ) (args : Args) (c d : Client rpmsg.State) (r : Message)
    → msg_type < 0x8000
    → request rpmsg msg_type args c ≡ (ok r, d)
    → (r.magic ≡ magic_word)
      × (r.version ≡ 1)
      × (r.type ≡ msg_type + 0x8000)
      × (r.seq ≡ c.seq)
      × (d.seq ≡ suc c.seq)
unfolding request
request-answers rpmsg ty args c d r lt h =
    let v =
      subst (OnOk (λ m. validate_response m ty c.seq ≡ ok tt)) (ap (λ p. p.0) h)
        (exchange-OnOk rpmsg ty c.seq args c.device) in
    let (a, b, e, f) = (validate_response_iff r ty c.seq lt).0 v in
    (a, b, e, f, sym (ap (λ p. p.1.seq) h))
