-- ===== src/Bbb/Loopback/Accounts.antt =====
-- boards/beaglebone_black/host/hil_pru_cli.py: what the lists of a loopback benchmark amount to.
use hil_lab.Prelude.{ℕ, ◌+◌, ◌<◌, ◌≡◌, length, All}
use hil_lab.Bbb.Floats.{Floats}
use hil_lab.Bbb.Loopback.{Tally}

-- After `n` samples each has either a value in all five lists or a failure, and the failures carry the
-- numbers of their samples.
pub record Accounts (floats : Floats) (n : ℕ) (tally : Tally floats) : Type 0 where
  pub all_counted : length tally.rise + length tally.failures ≡ n
  pub high_length : length tally.high ≡ length tally.rise
  pub high_error_length : length tally.high_error ≡ length tally.rise
  pub rtt_length : length tally.rtt ≡ length tally.rise
  pub non_programmed_length : length tally.non_programmed_rtt ≡ length tally.rise
  pub numbered : All (λ f. f.index < n) tally.failures
