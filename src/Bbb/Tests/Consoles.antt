-- ===== src/Bbb/Tests/Consoles.antt =====
-- Concrete runs of the command lines of the raw capture and of the stimulus, and of the loopback benchmark.
use hil_lab.Prelude.{ℕ, List, [], none, some, bit_or}
use hil_lab.Errors.{ok, OnOk}
use hil_lab.Bbb.Protocol.{Message, magic_word}
use hil_lab.Bbb.Rpc.{Client}
use hil_lab.Bbb.Rpc.Late.{queue}
use hil_lab.Bbb.Loopback.{Timing}
use hil_lab.Bbb.Loopback.Accounts.{Accounts}
use hil_lab.Bbb.Stim.{AbzOptions}
use hil_lab.Bbb.Stim.Commands.{run_command, config}
use hil_lab.Bbb.Stim.Requests.{Acknowledged, run_command-Acknowledged}
use hil_lab.Bbb.RawConsole.{capture}
use hil_lab.Bbb.RawConsole.Order.{IsCaptured, capture-IsCaptured}
use hil_lab.Bbb.Tests.Captures.{whole, short_capture}

-- A firmware that acknowledges, and a new client of it.
abbrev pub acknowledging : Message → Message
acknowledging m = record m {
  type = bit_or m.type 0x8000;
  flags = 0;
  magic = magic_word;
  version = 1;
}

abbrev pub new_client : Client (List (List ℕ))
new_client = record { seq = 1; device = [] }

abbrev timing : Timing whole
timing = record { delay_us = 1000; width_us = 1000; timeout_us = 5000 }

abbrev options : AbzOptions whole
options = record {
  rate = record { transition_ticks = some 200; transition_hz = none; rpm = none; ppr = some 1000 };
  direction = "reverse";
  initial_phase = 2;
  index_period_transitions = none;
  index_width_transitions = 1;
}

run_command-Acknowledged_example :
    OnOk
      (Acknowledged whole (queue acknowledging) options)
      (run_command whole (queue acknowledging) (λ c. (ok 0, c)) (config options) new_client).0
run_command-Acknowledged_example =
    run_command-Acknowledged whole (queue acknowledging) (λ c. (ok 0, c)) options new_client

capture-IsCaptured_example :
    OnOk
      (λ result.
        IsCaptured whole
          (queue acknowledging)
          (λ c. (ok short_capture, c))
          (λ ms c. (ok tt, c))
          1024
          100
          new_client
          (capture whole
            (queue acknowledging)
            (λ c. (ok short_capture, c))
            (λ ms c. (ok tt, c))
            1024
            100
            600
            new_client).1)
      (capture whole
        (queue acknowledging)
        (λ c. (ok short_capture, c))
        (λ ms c. (ok tt, c))
        1024
        100
        600
        new_client).0
capture-IsCaptured_example =
    capture-IsCaptured whole (queue acknowledging) (λ c. (ok short_capture, c)) (λ ms c. (ok tt, c))
      1024 100 600 new_client
