-- ===== src/Bbb/Tests.antt =====
-- Concrete runs of the models of boards/beaglebone_black/host.
mod Captures
mod Consoles
mod Cores
mod Rings
mod Sensors
use hil_lab.Prelude.{
  ◌≢◌, ◌^◌, bit_xor, ◌/◌, ◌%◌, ℕ, suc, ◌+◌, ◌≡◌, refl, List, [], ◌∷◌, ◌++◌, length, arith, bit_or,
  replicate,
}
use hil_lab.Prelude.Bytes.{to_le}
use hil_lab.Prelude.Bits.Fields.{fields-bit_or}
use hil_lab.Errors.{OnOk, ok, err, runtime_error}
use hil_lab.Bbb.Protocol.{Message, magic_word, pack, unpack, validate_response, wire, fields}
use hil_lab.Bbb.Protocol.RoundTrip.{unpack-pack, Fit-pack_fields, pack_fields-Fit}
use hil_lab.Bbb.Sensor.{crc6_biss, build_biss_frame, build_biss_frame-fields}
use hil_lab.Bbb.Sensor.Detects.{crc6_biss-detects}
use hil_lab.Bbb.Snapshot.{pwm_magic}
use hil_lab.Bbb.Snapshot.Untorn.{IsInstant, read_consistent_snapshot-IsInstant}
use hil_lab.Bbb.Rpc.{Client, no_args, request_message}
use hil_lab.Bbb.Rpc.Exchange.{request-answers}
use hil_lab.Bbb.Rpc.Late.{
  queue, Responds, IsLate, run_requests, run_requests-IsLate, request-in_step,
}

-- A firmware that acknowledges every request.
abbrev acknowledge : Message → Message
acknowledge m = record m { type = bit_or m.type 0x8000; flags = 0; magic = magic_word; version = 1 }

acknowledge-Responds : Responds acknowledge
unfolding pack validate_response
acknowledge-Responds m packet lt h =
    let f = pack_fields-Fit wire (fields m) packet h in
    let (bs, e) = Fit-pack_fields wire (fields (acknowledge m)) (
      omega arith,
      (
        omega arith,
        (omega (arith, fields-bit_or 15 1 m.type lt), (f.1.1.1.0, (omega arith, f.1.1.1.1.1))),
      ),
    ) in
    (bs, e, refl, ground arith)

abbrev time_packet : List ℕ
time_packet = 0x48 ∷ 0x49 ∷ 0x4c ∷ 0x30 ∷ 1 ∷ 0 ∷ 2 ∷ 0 ∷ 7 ∷ replicate 23 0

pack_time : pack (request_message 2 7 no_args) ≡ ok time_packet
unfolding pack
pack_time = refl

abbrev response : Message
response = acknowledge (request_message 2 7 no_args)

abbrev next : Client (List (List ℕ))
next = record { seq = 8; device = [] }

request-answers_example :
    (magic_word ≡ magic_word)
    × (response.version ≡ 1)
    × (response.type ≡ 2 + 0x8000)
    × (response.seq ≡ 7)
    × (next.seq ≡ suc 7)
request-answers_example =
    request-answers (queue acknowledge) 2 no_args (record { seq = 7; device = [] })
      (record { seq = 8; device = [] }) (acknowledge (request_message 2 7 no_args)) (omega arith)
      (request-in_step acknowledge 2 7 no_args time_packet acknowledge-Responds (omega arith)
        pack_time)

-- The answer to request 6 came after its timeout.
abbrev late_packet : List ℕ
late_packet = 0x48 ∷ 0x49 ∷ 0x4c ∷ 0x30 ∷ 1 ∷ 0 ∷ 2 ∷ 0x80 ∷ 6 ∷ replicate 23 0

abbrev late : Client (List (List ℕ))
late = record { seq = 7; device = late_packet ∷ [] }

late-IsLate : IsLate late
unfolding unpack
late-IsLate = (_, late_packet, refl, refl, omega arith)

run_requests-IsLate_example :
    (d : Client (List (List ℕ))) × (run_requests (queue acknowledge) ((2, no_args) ∷ []) late
      ≡ (err runtime_error ∷ [], d))
    × IsLate d
run_requests-IsLate_example =
    run_requests-IsLate acknowledge ((2, no_args) ∷ []) late acknowledge-Responds
      ((time_packet, pack_time, omega arith), tt) late-IsLate

-- A summary that the firmware leaves alone: its header, an even counter and zeros.
abbrev quiet : List ℕ
quiet =
    to_le 4 pwm_magic
    ++ to_le 4 1
    ++ to_le 4 2416
    ++ to_le 4 8
    ++ to_le 4 0
    ++ to_le 4 6
    ++ to_le 4 3
    ++ to_le 4 128
    ++ replicate 336 0

-- A position of 26 bits, of which bit 3, or bits 3 and 17, are flipped on the way.
crc6_biss-detects_example :
    (crc6_biss 0x123_4567 26 1 1 ≢ crc6_biss (bit_xor 0x123_4567 (2 ^ 3)) 26 1 1)
    × (◌≢◌ {A = ℕ} 3 17
        → crc6_biss 0x123_4567 26 1 1
          ≢ crc6_biss (bit_xor 0x123_4567 (bit_xor (2 ^ 3) (2 ^ 17))) 26 1 1)
crc6_biss-detects_example =
    crc6_biss-detects 0x123_4567 26 1 1 3 17 (omega arith) (omega arith) (omega arith) (omega arith)
