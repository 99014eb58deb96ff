-- ===== src/Tests/Commands.antt =====
-- Command lines: the tests of the parser.
use wire_probe.Prelude.{false, arith, ◌+◌, ◌*◌, ◌≤◌, ◌≡◌, refl, ◌↔◌, List, [], ◌∷◌, Text, codes}
use wire_probe.Std.Strings.{strip_suffix}
use wire_probe.Std.Numbers.{parse_uint}
use wire_probe.Std.Time.{from_millis, from_secs, as_millis, is_zero}
use wire_probe.Cli.Types.{Mode, probe, telegraf_udp, collectd_exec, ok}
use wire_probe.Cli.Sanitize.{sanitize, IsLabel, sanitize_fixed}
use wire_probe.Cli.Duration.{parse_duration}
use wire_probe.Cli.Duration.Grammar.{IsDurationText, parse_duration_iff}
use wire_probe.Cli.Export.{parse_export, export_text, parse_export-export_text}
use wire_probe.Cli.Command.{Context, done, timeout_exceeds, ◌>>=◌}
use wire_probe.Cli.Parse.{parse, parse_mode, parse_probe, parse_times, probe_inputs, reject_unknown}
use wire_probe.Cli.Parse.Limits.{AreTimes}
use wire_probe.Cli.Parse.Laws.{IsAccepted, parse-IsAccepted}
use wire_probe.Cli.Parse.Times.{parse_times_iff}
use wire_probe.Agent.{interval_secs}
use wire_probe.Agent.Laws.{interval_secs_bounds}
use wire_probe.Tests.Data.{pairs, pairs-Converts, taken}

abbrev command_line : List (Text × Text)
command_line =
    (codes "--mode", codes "probe")
    ∷ (codes "--target", codes "db:1")
    ∷ (codes "--interval", codes "2s")
    ∷ []

abbrev pub given : Context (List (Text × Text))
given = record { args = command_line; out = [] }

-- What is left when everything was taken, and the warning for the timeout of five seconds.
abbrev pub parsed_mode : Mode
parsed_mode =
    probe (codes "db:1") (codes "db_1") (codes "default") (from_secs 2) (from_millis 5000)
      collectd_exec

abbrev pub taken_all : Context (List (Text × Text))
taken_all = record { args = []; out = timeout_exceeds (from_millis 5000) (from_secs 2) ∷ [] }

pub parse-given : parse pairs given ≡ (done parsed_mode, taken_all)
unfolding parse ◌>>=◌ taken parse_mode parse_probe probe_inputs parse_times parse_duration
    strip_suffix parse_uint parse_export reject_unknown sanitize
parse-given = refl

parse-IsAccepted_example : IsAccepted pairs [] parsed_mode taken_all
parse-IsAccepted_example =
    parse-IsAccepted pairs pairs-Converts given taken_all parsed_mode parse-given

sanitize_fixed_example : (sanitize (codes "a/b") ≡ codes "a/b") ↔ IsLabel (codes "a/b")
sanitize_fixed_example = sanitize_fixed (codes "a/b")

parse_duration_iff_example :
    (parse_duration (codes "+2s") ≡ ok (from_secs 2)) ↔ IsDurationText (codes "+2s") (from_secs 2)
parse_duration_iff_example = parse_duration_iff (codes "+2s") (from_secs 2)

two_seconds : parse_duration (codes "2s") ≡ ok (from_secs 2)
unfolding parse_duration strip_suffix parse_uint
two_seconds = refl

parse_export-export_text_example :
    (parse_export (codes "telegraf-udp://h:1") ≡ ok (telegraf_udp (codes "h:1")))
    ↔ (codes "telegraf-udp://h:1" ≡ export_text (telegraf_udp (codes "h:1")))
parse_export-export_text_example =
    parse_export-export_text (codes "telegraf-udp://h:1") (telegraf_udp (codes "h:1"))

short_times : AreTimes (from_millis 1500) (from_millis 1000)
short_times = record {
  interval_whole = record { valid = record { carried = omega arith }; whole = refl };
  interval_min = omega arith;
  interval_max = omega arith;
  timeout_whole = record { valid = record { carried = omega arith }; whole = refl };
  timeout_pos = omega arith;
  timeout_max = omega arith;
}

interval_secs_short : interval_secs (from_millis 1500) ≡ 2
unfolding interval_secs
interval_secs_short = refl

interval_secs_bounds_example :
    (1 ≤ interval_secs (from_millis 1500))
    × (interval_secs (from_millis 1500) ≤ 86_400)
    × (interval_secs (from_millis 1500) * 1000 ≤ 2000)
    × (1500 ≤ interval_secs (from_millis 1500) * 1000 + 500)
interval_secs_bounds_example =
    interval_secs_bounds (from_millis 1500) (from_millis 1000) short_times

parse_times_iff_example :
    ((parse_times pairs (codes "2s") (codes "2s") given).0 ≡ done (from_secs 2, from_secs 2)) ↔ (
      (parse_duration (codes "2s") ≡ ok (from_secs 2))
      × (100 ≤ as_millis (from_secs 2))
      × (as_millis (from_secs 2) ≤ 86_400_000)
      × (parse_duration (codes "2s") ≡ ok (from_secs 2))
      × (is_zero (from_secs 2) ≡ false)
      × (as_millis (from_secs 2) ≤ 60_000))
parse_times_iff_example =
    parse_times_iff pairs (codes "2s") (codes "2s") given (from_secs 2) (from_secs 2)
