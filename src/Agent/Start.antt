-- ===== src/Agent/Start.antt =====
-- The part of `run_probe` of src/main.rs in front of its loop.
use wire_probe.Prelude.{◌≡◌, inl, inr, Bool, false, List, Text, Option, none, some}
use wire_probe.Std.Net.{SocketAddr}
use wire_probe.Std.Io.{IoError, IoResult, ok, err, IoResult-cases}
use wire_probe.Std.Time
use wire_probe.Std.Time.{as_nanos, as_millis, from_secs, lt_duration, checked_sub}
use wire_probe.External.{Numerics}
use wire_probe.Cli.Types.{ExportDst}
use wire_probe.Resolution.{adopt}
use wire_probe.Exporter
use wire_probe.Exporter.{Exporter, SendAnswers, Emitted}
use wire_probe.Agent.{reresolve_after_failures, interval_secs, warns_of_rate, resolve, Loop}

-- How `run_probe` comes to its loop, or exits before it. The flag says whether it warned of the
-- rate.
pub data Started : Type 0 where
  cannot_resolve : IoError → Started
  no_address : Started
  init_error : (rate_warned : Bool) → IoError → Started
  running : (rate_warned : Bool) → Loop → Started

module _ (n : Numerics) where
  -- The part of `run_probe` in front of the loop, for the host name that was read.
  unfoldable pub start_with :
      (export : ExportDst) (target_name az host : Text) (interval : Time.Duration)
      → Option (List SocketAddr × SocketAddr)
      → Exporter.Opening
      → Started
  start_with export target_name az host interval none o = no_address
  start_with export target_name az host interval (some (addrs, preferred)) o =
      elim (Exporter.new n export target_name az host (interval_secs interval) o) [
        | err e ↦ init_error (warns_of_rate export interval) e
        | ok exp ↦ running (warns_of_rate export interval) (record {
          targets = record { addrs = addrs; current = preferred };
          exp = exp;
          overran = false;
          failures_until_reresolve = reresolve_after_failures;
        })
      ]

  unfoldable pub start :
      (export : ExportDst) (target_name az host : Text) (interval : Time.Duration)
      → IoResult (List SocketAddr)
      → Exporter.Opening
      → Started
  unfolding start_with resolve
  start export target_name az host interval answer o = elim (resolve answer) [
    | err e ↦ cannot_resolve e
    | ok fresh ↦ start_with export target_name az host interval (adopt fresh) o
  ]

  -- A probe that comes to its loop has resolved its target.
  pub start-resolved :
      (export : ExportDst) (target_name az host : Text) (interval : Time.Duration)
      (answer : IoResult (List SocketAddr)) (o : Exporter.Opening) (warned : Bool) (s : Loop)
      → start export target_name az host interval answer o ≡ running warned s
      → (fresh : List SocketAddr) × (start_with export target_name az host interval (adopt fresh) o
          ≡ running warned s)
  unfolding start
  start-resolved export target_name az host interval answer o warned s h =
      elim (IoResult-cases (resolve answer)) [
        | inl (fresh, found) ↦ (fresh, rw (found, start) at h)
        | inr (e, failed) ↦ cc (rw (failed, start) at h)
      ]
