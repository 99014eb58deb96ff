-- ===== src/Cli/Parse/Limits.antt =====
-- What the modes that `parse` of src/cli.rs returns keep to, and what the argument parser documents.
use wire_probe.Prelude.{◌<◌, ◌≤◌, ◌≡◌, List, [], ◌∷◌, Text, Option, some, if◌then◌else◌}
use wire_probe.Std.Numbers.{u16_max}
use wire_probe.Std.Time
use wire_probe.Std.Time.{as_millis, is_zero, lt_duration, IsDuration}
use wire_probe.Cli.Types.{Mode, server, probe, ok}
use wire_probe.Cli.Command.{Message, timeout_exceeds}
use wire_probe.Cli.Sanitize.{IsLabel}
use wire_probe.Cli.Duration.{IsWhole}
use wire_probe.Cli.Parse.{Arguments}

-- The limits that the rest of the program relies on.
pub record AreTimes (interval timeout : Time.Duration) : Type 0 where
  pub interval_whole : IsWhole interval
  pub interval_min : 100 ≤ as_millis interval
  pub interval_max : as_millis interval ≤ 86_400_000
  pub timeout_whole : IsWhole timeout
  pub timeout_pos : 0 < as_millis timeout
  pub timeout_max : as_millis timeout ≤ 60_000

abbrev pub IsValidMode : Mode → Type 0
IsValidMode (server bind port) = port ≤ u16_max
IsValidMode (probe target target_name az interval timeout export) =
    IsLabel target_name × IsLabel az × AreTimes interval timeout

-- The warning that a mode comes with.
abbrev pub warnings : Mode → List Message
warnings (server bind port) = []
warnings (probe target target_name az interval timeout export) =
    if lt_duration interval timeout then timeout_exceeds timeout interval ∷ [] else []

-- Documented of `pico_args`: a value that it returns was converted from some text.
abbrev pub Converts : Arguments → Type 1
Converts A =
    (T : Type 0) (from_str : Text → Option T) (key : Text) (s : A.S) (t : T)
    → (A.opt_value_from_str from_str key s).0 ≡ ok (some t)
    → (w : Text) × (from_str w ≡ some t)
