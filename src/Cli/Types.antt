-- ===== src/Cli/Types.antt =====
-- The types of src/cli.rs, and its errors as values.
use wire_probe.Prelude.{ℕ, Text}
use wire_probe.Std.Numbers.{IntError}
use wire_probe.Std.Time.{Duration}

pub data ExportDst : Type 0 where
  telegraf_udp : (addr : Text) → ExportDst
  collectd_uds : (path : Text) → ExportDst
  collectd_exec : ExportDst

pub data Mode : Type 0 where
  server : (bind : Text) (port : ℕ) → Mode
  probe : (target target_name az : Text) (interval timeout : Duration) (export : ExportDst) → Mode

-- The errors that `parse` boxes. `args_error` is an error of the argument parser.
pub data CliError : Type 0 where
  args_error : Text → CliError
  missing_mode : CliError
  unknown_mode : Text → CliError
  bad_number : IntError → CliError
  interval_too_small interval_too_large timeout_zero timeout_too_large : CliError
  unknown_scheme : Text → CliError
  unexpected_argument : Text → CliError

pub data Result {ℓ} (A : Type ℓ) : Type ℓ where
  ok : A → Result A
  err : CliError → Result A
