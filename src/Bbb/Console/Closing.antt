-- ===== src/Bbb/Console/Closing.antt =====
-- boards/beaglebone_black/host: the device that a command line opens, on every path.
use hil_lab.Prelude.{ℕ, ◌-◌, ◌≡◌, refl, ap, ◌∙◌, String, List, not, ◌==◌, length}
use hil_lab.Prelude.Bits.{any_bits}
use hil_lab.Errors.{
  Exec, continue-state, refuse_if, or_err, ◌>>=◌, finally, runtime_error, timeout_error,
}
use hil_lab.Errors.Handles.{Opened, finally-state, balanced}
use hil_lab.Bbb.Protocol.{pack, unpack, validate_response}
use hil_lab.Bbb.Rpc.{Rpmsg, Client, Args, request_message, poll_failure, exchange, request}
use hil_lab.Bbb.Console.{Port, on_client, with_client}

-- A command that keeps what holds of the device, on every path.
pub record Keeps {D A : Type 0} (P : D → Type 0) (m : Exec (Client D) A) : Type 0 where
  pub kept : (c : Client D) → P c.device → P (m c).1.device

module _ {D : Type 0} (P : D → Type 0) where
  pub >>=-Keeps :
      {A B : Type 0} (m : Exec (Client D) A) (f : A → Exec (Client D) B)
      → Keeps P m
      → ((a : A) → Keeps P (f a))
      → Keeps P (m >>= f)
  >>=-Keeps m f h k = record {
    kept = λ c p.
        continue-state (λ d. P d.device) (m c).0 f (m c).1 (h.kept c p)
          (λ a. (k a).kept (m c).1 (h.kept c p));
  }

-- The device's own calls keep it.
pub record DeviceKeeps (rpmsg : Rpmsg) (P : rpmsg.State → Type 0) : Type 0 where
  pub writes : (bs : List ℕ) (s : rpmsg.State) → P s → P (rpmsg.write bs s).1
  pub polls : (s : rpmsg.State) → P s → P (rpmsg.poll s).1
  pub reads : (s : rpmsg.State) → P s → P (rpmsg.read s).1

pub request-Keeps :
    (rpmsg : Rpmsg) (P : rpmsg.State → Type 0) (msg_type : ℕ) (args : Args)
    → DeviceKeeps rpmsg P
    → Keeps P (request rpmsg msg_type args)
unfolding request exchange
request-Keeps rpmsg P ty args k = record {
  kept = λ c p.
      let s = c.device in
      continue-state P (pack (request_message ty c.seq args)) _ s p λ packet.
        let s₁ = (rpmsg.write packet s).1 in
        let p₁ = k.writes packet s p in
        continue-state P (rpmsg.write packet s).0 _ s₁ p₁ λ written.
          continue-state P (refuse_if (not (written == length packet)) runtime_error) _ s₁ p₁ λ d.
            let s₂ = (rpmsg.poll s₁).1 in
            let p₂ = k.polls s₁ p₁ in
            continue-state P (rpmsg.poll s₁).0 _ s₂ p₂ λ events.
              continue-state P (or_err events timeout_error) _ s₂ p₂ λ event.
                continue-state P (refuse_if (any_bits event poll_failure) runtime_error) _ s₂ p₂
                  λ d.
                    let s₃ = (rpmsg.read s₂).1 in
                    let p₃ = k.reads s₂ p₂ in
                    continue-state P (rpmsg.read s₂).0 _ s₃ p₃ λ payload.
                      continue-state P (unpack payload) _ s₃ p₃ λ response.
                        continue-state P (validate_response response ty c.seq) _ s₃ p₃ λ d. p₃;
}

-- The open handles, as the operating system counts them.
pub record CountsDevice (port : Port) (held : port.rpmsg.State → ℕ) : Type 0 where
  pub opens :
      (device : String) (s : port.rpmsg.State)
      → Opened (held s) (port.open_device device s).0 (held (port.open_device device s).1)
  pub closes : (s : port.rpmsg.State) → held (port.close_device s).1 ≡ held s - 1

-- A command that leaves the handles alone is run on an open device, which is closed again on every path.
pub with_client-held :
    (port : Port) (held : port.rpmsg.State → ℕ) {A : Type 0} (device : String)
    (command : Exec (Client port.rpmsg.State) A) (s : port.rpmsg.State)
    → CountsDevice port held
    → ((n : ℕ) → Keeps (λ d. held d ≡ n) command)
    → held (with_client port device command s).1 ≡ held s
unfolding with_client
with_client-held port held device command s counts keeps =
    balanced held (port.open_device device s).0 _ (held s) (port.open_device device s).1
      (counts.opens device s) closed
  where
    closed :
        (d : Unit {0}) (u : port.rpmsg.State)
        → held (finally (on_client port command) port.close_device u).1 ≡ held u - 1
    closed d u =
        ap held (finally-state (on_client port command) port.close_device u)
        ∙ (counts.closes (on_client port command u).1
            ∙ ap (λ n. n - 1) ((keeps (held u)).kept (record { seq = 1; device = u }) refl))
