-- ===== src/Cli/Parse/Times.antt =====
-- Exactly which durations the "probe" arm of `parse` of src/cli.rs accepts.
use wire_probe.Prelude.{◌≤◌, ◌≡◌, ◌↔◌, false, Text, arith}
use wire_probe.Std.Time
use wire_probe.Std.Time.{as_millis, is_zero, lt_duration}
use wire_probe.Cli.Types.{ok}
use wire_probe.Cli.Duration.{parse_duration}
use wire_probe.Cli.Command.{Context, done, ◌>>=◌}
use wire_probe.Cli.Parse.{Arguments, parse_times}

module _ (A : Arguments) where
  open A use {S}

  -- The two durations are accepted, and are these, exactly if the texts are read as them, the
  -- interval is from 100 ms to 24 h, and the timeout is not zero and at most 60 s.
  pub parse_times_iff :
      (a b : Text) (cx : Context S) (i t : Time.Duration)
      → ((parse_times A a b cx).0 ≡ done (i, t)) ↔ (
          (parse_duration a ≡ ok i)
          × (100 ≤ as_millis i)
          × (as_millis i ≤ 86_400_000)
          × (parse_duration b ≡ ok t)
          × (is_zero t ≡ false)
          × (as_millis t ≤ 60_000))
  unfolding parse_times ◌>>=◌
  parse_times_iff a b cx i t =
      (λ h. ground arith, λ h. ground (arith, h.0, h.1, h.2, h.3, h.4, h.5))
