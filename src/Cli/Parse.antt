-- ===== src/Cli/Parse.antt =====
-- `parse` and `reject_unknown` of src/cli.rs, over the interface of the argument parser.
pub mod Limits
pub mod Laws
pub mod Exits
pub mod Times
pub mod Takes
pub mod Printed
use mathlib.Core.Option
use wire_probe.Prelude.{
  ℕ, ◌≡◌, Bool, true, false, List, [], ◌∷◌, Text, codes, Option, none, some, if◌then◌else◌, ltb,
}
use wire_probe.Std.Numbers.{Parsed, parsed, failed, u16_max, parse_uint}
use wire_probe.Std.Strings.{text_eq}
use wire_probe.Std.Time
use wire_probe.Std.Time.{as_millis, is_zero, lt_duration}
use wire_probe.Cli.Types.{
  Mode, server, probe, CliError, missing_mode, unknown_mode, interval_too_small, interval_too_large,
  timeout_zero, timeout_too_large, unexpected_argument, Result, ok, err,
}
use wire_probe.Cli.Command.{
  Message, help, version, timeout_exceeds, Context, Run, Command, done, run_of, ◌>>=◌, ◌>>◌, pure,
  fail, exit, print, attempt, refuse_if, print_if,
}
use wire_probe.Cli.Sanitize.{sanitize}
use wire_probe.Cli.Duration.{parse_duration}
use wire_probe.Cli.Export.{parse_export}

-- `pico_args::Arguments`. A `FromStr` conversion is given as a function into `Option`.
pub record Arguments : Type 1 where
  pub S : Type 0
  pub contains : List Text → S → Bool × S
  pub opt_value_from_str : {T : Type 0} → (Text → Option T) → Text → S → Result (Option T) × S
  pub value_from_str : {T : Type 0} → (Text → Option T) → Text → S → Result T × S
  pub finish : S → List Text

abbrev pub min_interval_ms : ℕ
min_interval_ms = 100

abbrev pub max_interval_ms : ℕ
max_interval_ms = 86_400_000

abbrev pub max_timeout_ms : ℕ
max_timeout_ms = 60_000

-- `<String as FromStr>::from_str`, which never fails.
abbrev pub string_from_str : Text → Option Text
string_from_str = some

-- `<u16 as FromStr>::from_str`, its error kind left out.
abbrev pub u16_from_str : Text → Option ℕ
u16_from_str s = elim (parse_uint u16_max s) [ parsed n ↦ some n | failed e ↦ none ]

unfoldable pub reject_unknown : List Text → Result (Unit {0})
reject_unknown [] = ok tt
reject_unknown (arg ∷ rest) = err (unexpected_argument arg)

-- The local variables of the `"probe"` arm before its checks.
pub record ProbeInputs : Type 0 where
  pub target : Text
  pub target_name : Text
  pub az : Text
  pub interval_str : Text
  pub timeout_str : Text
  pub export_str : Text

module _ (A : Arguments) where
  open A use {S}

  abbrev pub flag : List Text → Command S Bool
  flag keys cx =
      let (found, rest) = A.contains keys cx.args in (done found, record cx { args = rest })

  abbrev pub option : {T : Type 0} → (Text → Option T) → Text → Command S (Option T)
  option from_str key cx =
      let (r, rest) = A.opt_value_from_str from_str key cx.args in
      (run_of r, record cx { args = rest })

  abbrev pub required : {T : Type 0} → (Text → Option T) → Text → Command S T
  required from_str key cx =
      let (r, rest) = A.value_from_str from_str key cx.args in (run_of r, record cx { args = rest })

  abbrev pub leftover : Command S (List Text)
  leftover cx = (done (A.finish cx.args), cx)

  unfoldable pub parse_server : Command S Mode
  parse_server = do
    bind ← option string_from_str (codes "--bind")
    port ← option u16_from_str (codes "--port")
    left ← leftover
    attempt (reject_unknown left)
    pure (server (Option.get_or bind (codes "0.0.0.0")) (Option.get_or port 9999))

  -- The durations, with their limits and the warning.
  unfoldable pub parse_times : Text → Text → Command S (Time.Duration × Time.Duration)
  parse_times interval_str timeout_str = do
    interval ← attempt (parse_duration interval_str)
    refuse_if (ltb (as_millis interval) min_interval_ms) interval_too_small
    refuse_if (ltb max_interval_ms (as_millis interval)) interval_too_large
    timeout ← attempt (parse_duration timeout_str)
    refuse_if (is_zero timeout) timeout_zero
    refuse_if (ltb max_timeout_ms (as_millis timeout)) timeout_too_large
    print_if (lt_duration interval timeout) (timeout_exceeds timeout interval)
    pure (interval, timeout)

  -- The flags of probe mode, in the order in which they are taken.
  unfoldable pub probe_inputs : Command S ProbeInputs
  probe_inputs = do
    target ← required string_from_str (codes "--target")
    target_name ← option string_from_str (codes "--target-name")
    az ← option string_from_str (codes "--az")
    interval_str ← option string_from_str (codes "--interval")
    timeout_str ← option string_from_str (codes "--timeout")
    export_str ← option string_from_str (codes "--export")
    pure (record {
      target = target;
      target_name = Option.get_or (Option.map sanitize target_name) (sanitize target);
      az = Option.get_or (Option.map sanitize az) (codes "default");
      interval_str = Option.get_or interval_str (codes "1000ms");
      timeout_str = Option.get_or timeout_str (codes "5000ms");
      export_str = Option.get_or export_str (codes "collectd-exec");
    })

  unfoldable pub parse_probe : Command S Mode
  parse_probe = do
    p ← probe_inputs
    times ← parse_times p.interval_str p.timeout_str
    export ← attempt (parse_export p.export_str)
    left ← leftover
    attempt (reject_unknown left)
    pure (probe p.target p.target_name p.az times.0 times.1 export)

  unfoldable pub parse_mode : Option Text → Command S Mode
  parse_mode none = do print (help false); fail missing_mode
  parse_mode (some mode) =
      if text_eq mode (codes "server")
      then parse_server
      else (if text_eq mode (codes "probe") then parse_probe else fail (unknown_mode mode))

  unfoldable pub parse : Command S Mode
  parse = do
    wants_help ← flag (codes "-h" ∷ codes "--help" ∷ [])
    wants_version ←
        if wants_help then (do print (help true); exit 0) else flag (codes "--version" ∷ [])
    mode ←
        if wants_version
        then (do print version; exit 0)
        else option string_from_str (codes "--mode")
    parse_mode mode
