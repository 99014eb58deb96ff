-- ===== src/Tests/Printed.antt =====
-- A mode that is printed as a command line and parsed again.
use wire_probe.Prelude.{◌≡◌, refl, arith, List, [], ◌∷◌, Text, codes}
use wire_probe.Std.Strings.{text_eq}
use wire_probe.Std.Time.{from_millis, from_secs}
use wire_probe.Cli.Types.{Mode, probe, telegraf_udp}
use wire_probe.Cli.Export.{export_text}
use wire_probe.Cli.Command.{Context, done}
use wire_probe.Cli.Parse.{parse}
use wire_probe.Cli.Parse.Limits.{IsValidMode}
use wire_probe.Cli.Parse.Printed.{options_of, millis_text, parse_printed}
use wire_probe.Tests.Data.{pairs}
use wire_probe.Tests.Data.Options.{values, values_cons, pairs_options, pairs-Holds}

abbrev mode : Mode
mode =
    probe (codes "db:1") (codes "db") (codes "z1") (from_millis 1500) (from_secs 1)
      (telegraf_udp (codes "h:1"))

-- The options of the mode, from each on to the last.
abbrev from_export : List (Text × Text)
from_export = (codes "--export", export_text (telegraf_udp (codes "h:1"))) ∷ []

abbrev from_timeout : List (Text × Text)
from_timeout = (codes "--timeout", millis_text (from_secs 1)) ∷ from_export

abbrev from_interval : List (Text × Text)
from_interval = (codes "--interval", millis_text (from_millis 1500)) ∷ from_timeout

abbrev from_az : List (Text × Text)
from_az = (codes "--az", codes "z1") ∷ from_interval

abbrev from_name : List (Text × Text)
from_name = (codes "--target-name", codes "db") ∷ from_az

abbrev from_target : List (Text × Text)
from_target = (codes "--target", codes "db:1") ∷ from_name

abbrev line : Context (List (Text × Text))
line = record { args = (codes "--mode", codes "probe") ∷ from_target; out = [] }

mode-IsValidMode : IsValidMode mode
mode-IsValidMode = (
  (refl, (refl, tt)),
  (refl, (refl, tt)),
  record {
    interval_whole = record { valid = record { carried = omega arith }; whole = refl };
    interval_min = omega arith;
    interval_max = omega arith;
    timeout_whole = record { valid = record { carried = omega arith }; whole = refl };
    timeout_pos = omega arith;
    timeout_max = omega arith;
  },
)

line-options : values line.args ≡ options_of mode
unfolding text_eq
line-options = values_cons _ _ from_target _ refl (
    values_cons _ _ from_name _ refl (
      values_cons _ _ from_az _ refl (
        values_cons _ _ from_interval _ refl (
          values_cons _ _ from_timeout _ refl
            (values_cons _ _ from_export _ refl (values_cons _ _ [] _ refl refl))))))

parse_printed_example : (parse pairs line).0 ≡ done mode
parse_printed_example =
    parse_printed pairs pairs_options mode line mode-IsValidMode
      (pairs-Holds (options_of mode) line line-options) refl refl
