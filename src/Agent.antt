-- ===== src/Agent.antt =====
-- The probe loop: `run_probe` and `rotate_target` of src/main.rs. One cycle takes what the clock,
-- the network and the resolver answer, and returns the next state with what it did.
pub mod Laws
pub mod Runs
pub mod Pacing
pub mod Outage
pub mod Down
pub mod Points
pub mod Start
pub mod Whole
pub mod Stdout
pub mod Socket
pub mod Exit
pub mod Reach
pub mod Sized
pub mod Steps
pub mod Logs
pub mod Stale
unfoldable pub use wire_probe.Target.{resolve, rotate_resolved, rotate_target}
pub use wire_probe.Target.{
  Log, now_resolves_to, trying_next, reresolving_failed, probe_error, stdout_closed, export_error,
  cycle_overran, log_if,
}
use mathlib.Core.Option
use Prim.Native.Nat.{max, min}
use wire_probe.Prelude.{
  ℕ, zero, suc, ◌+◌, ◌-◌, ◌%◌, ◌^◌, Bool, true, false, ◌&&◌, not, List, [], ◌∷◌, ◌++◌, Text, Option,
  none, some, if◌then◌else◌, ltb, leb, ◌==◌,
}
use wire_probe.Std.Net.{SocketAddr}
use wire_probe.Std.Io.{IoError, broken_pipe, not_found, IoResult, ok, err}
use wire_probe.Std.Numbers.{u32_max}
use wire_probe.Std.Time
use wire_probe.Std.Time.{as_nanos, as_millis, from_secs, lt_duration, checked_sub}
use wire_probe.External.{Numerics}
use wire_probe.Cli.Types.{ExportDst, telegraf_udp, collectd_uds, collectd_exec}
use wire_probe.Resolution.{Targets, Rotation, adopt, apply_resolution}
use wire_probe.Exporter
use wire_probe.Exporter.{Exporter, SendAnswers, Emitted}
use wire_probe.Probe.{Endian, SockoptAnswer, measure_rtt}

abbrev pub reresolve_after_failures : ℕ
reresolve_after_failures = 5

-- `interval.as_secs_f64().round().max(1.0) as u32`, half a second being rounded up. The model
-- rounds the exact value. For whole milliseconds up to a day, which is what the command line lets
-- through, the `f64` lies on the same side of the half second.
unfoldable pub interval_secs : Time.Duration → ℕ
interval_secs interval =
    min (max (if ltb interval.nanos 500_000_000 then interval.secs else interval.secs + 1) 1)
      u32_max

-- The test in front of the warning that PUTVAL announces another rate.
unfoldable pub warns_of_rate : ExportDst → Time.Duration → Bool
warns_of_rate (telegraf_udp addr) interval = false
warns_of_rate (collectd_uds path) interval = lt_duration interval (from_secs 1)
warns_of_rate collectd_exec interval = lt_duration interval (from_secs 1)

-- What one cycle meets: the time since the epoch (`none` before it), the connection with its wall
-- clock and its socket, the resolver, the exporter's destination, and the time the cycle took.
pub record Cycle : Type 0 where
  pub since_epoch : Option Time.Duration
  pub connected : IoResult (Unit {0})
  pub connect_time : Time.Duration
  pub sockopt : SockoptAnswer
  pub resolver : IoResult (List SocketAddr)
  pub answers : SendAnswers
  pub elapsed : Time.Duration

-- The variables that the loop carries.
pub record Loop : Type 0 where
  pub targets : Targets
  pub exp : Exporter
  pub overran : Bool
  pub failures_until_reresolve : ℕ

-- What a cycle did: the address probed, whether the resolver was asked, what was exported, what was
-- logged, and the sleep.
pub record Report : Type 0 where
  pub probed : SocketAddr
  pub asked : Bool
  pub emitted : Emitted
  pub logs : List Log
  pub slept : Option Time.Duration

-- `duration_since(UNIX_EPOCH).unwrap_or(Duration::ZERO).as_nanos() as u64`
abbrev pub timestamp_ns : Option Time.Duration → ℕ
timestamp_ns since = elim since [ some d ↦ as_nanos d % 2 ^ 64 | none ↦ 0 ]

-- The state after the measurement and the export of a cycle.
pub record Sent : Type 0 where
  pub targets : Targets
  pub exp : Exporter
  pub counter : ℕ
  pub asked : Bool
  pub emitted : Emitted
  pub logs : List Log
  pub result : IoResult (Unit {0})

-- The countdown of a failed probe: its next value, and whether the resolver is asked.
abbrev pub count_down : ℕ → ℕ × Bool
count_down counter =
    let left = counter - 1 in if left == 0 then (reresolve_after_failures, true) else (left, false)

abbrev is_exec : ExportDst → Bool
is_exec (telegraf_udp addr) = false
is_exec (collectd_uds path) = false
is_exec collectd_exec = true

abbrev pub is_broken_pipe : IoError → Bool
is_broken_pipe broken_pipe = true
is_broken_pipe _ = false

-- Whether an export error ends the process.
abbrev pub is_fatal : ExportDst → IoResult (Unit {0}) → Bool
is_fatal export (ok u) = false
is_fatal export (err e) = is_broken_pipe e && is_exec export

abbrev pub export_logs : IoResult (Unit {0}) → List Log
export_logs (ok u) = []
export_logs (err e) = export_error e ∷ []

-- The end of a cycle that goes on: it sleeps out the interval, or warns once that it cannot.
unfoldable pub finish_cycle :
    (interval elapsed : Time.Duration) (overran : Bool) → Option Time.Duration × Bool × List Log
finish_cycle interval elapsed overran = elim (checked_sub interval elapsed) [
  | some remaining ↦ (some remaining, overran, [])
  | none ↦
      (none, true, log_if (not overran) (cycle_overran (as_millis elapsed) (as_millis interval)))
]

module _ (n : Numerics) (endian : Endian) where
  -- The two arms of the `match` on the measurement.
  unfoldable pub send_measured : Loop → Cycle → IoResult n.F64 → Sent
  send_measured s c (ok rtt_ms) =
      let (exp, emitted, result) =
        Exporter.send n s.exp rtt_ms (timestamp_ns c.since_epoch) c.answers in
      record {
        targets = s.targets;
        exp = exp;
        counter = reresolve_after_failures;
        asked = false;
        emitted = emitted;
        logs = [];
        result = result;
      }
  send_measured s c (err e) =
      let (counter, asks) = count_down s.failures_until_reresolve in
      let (targets, logs) = if asks then rotate_target s.targets c.resolver else (s.targets, []) in
      let (exp, emitted, result) =
        Exporter.send_failure n s.exp (timestamp_ns c.since_epoch) c.answers in
      record {
        targets = targets;
        exp = exp;
        counter = counter;
        asked = asks;
        emitted = emitted;
        logs = probe_error e ∷ logs;
        result = result;
      }

  unfoldable pub send_probe : Loop → Cycle → Sent
  unfolding send_measured
  send_probe s c = send_measured s c (measure_rtt n endian c.connected c.connect_time c.sockopt)

  unfoldable pub conclude :
      (export : ExportDst) (interval : Time.Duration) → Loop → Cycle → Sent → Option Loop × Report
  conclude export interval s c sent =
      if is_fatal export sent.result
      then (
        none,
        record {
          probed = s.targets.current;
          asked = sent.asked;
          emitted = sent.emitted;
          logs = sent.logs ++ (stdout_closed ∷ []);
          slept = none;
        },
      )
      else (let (slept, overran, logs) = finish_cycle interval c.elapsed s.overran in
          (
            some (record {
              targets = sent.targets;
              exp = sent.exp;
              overran = overran;
              failures_until_reresolve = sent.counter;
            }),
            record {
              probed = s.targets.current;
              asked = sent.asked;
              emitted = sent.emitted;
              logs = sent.logs ++ (export_logs sent.result ++ logs);
              slept = slept;
            },
          ))

  -- One turn of the `loop`. `none` is the `return` in it.
  unfoldable pub cycle :
      (export : ExportDst) (interval : Time.Duration) → Loop → Cycle → Option Loop × Report
  unfolding send_probe conclude
  cycle export interval s c = conclude export interval s c (send_probe s c)

  -- The loop over what its cycles meet: the reports, and the state unless it returned.
  unfoldable pub run_loop :
      (export : ExportDst) (interval : Time.Duration)
      → Loop
      → List Cycle
      → Option Loop × List Report
  run_loop export interval s [] = (some s, [])
  run_loop export interval s (c ∷ cs) =
      let (next, report) = cycle export interval s c in
      elim next [
        | none ↦ (none, report ∷ [])
        | some s' ↦ let (last, reports) = run_loop export interval s' cs in (last, report ∷ reports)
      ]
