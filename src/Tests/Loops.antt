-- ===== src/Tests/Loops.antt =====
-- Cycles of the probe: the tests of the loop.
mod Starts
mod Processes
mod Sockets
mod Reached
mod Stales
use mathlib.Core.Option
use wire_probe.Prelude.{
  arith, ◌+◌, ◌*◌, ◌≤◌, ◌<◌, ◌≡◌, refl, ◌↔◌, ◌⊎◌, true, false, List, [], ◌∷◌, map, Text, codes,
  length, some, none,
}
use wire_probe.Std.Io.{broken_pipe, os, ok, err, with_capacity}
use wire_probe.Std.Time
use wire_probe.Std.Time.{from_millis, from_secs, as_nanos, IsDuration}
use wire_probe.Cli.Types.{ExportDst, telegraf_udp, collectd_exec}
use wire_probe.Cli.Sanitize.{IsLabel}
use wire_probe.Exporter
use wire_probe.Exporter.{Exporter, Emitted, telegraf, collectd, datagram, flushed, Opening}
use wire_probe.Exporter.Telegraf
use wire_probe.Exporter.Telegraf.{TelegrafExporter}
use wire_probe.Exporter.Collectd
use wire_probe.Exporter.Collectd.{CollectdExporter, exec, wrote, failed_after, Flushed}
use wire_probe.Exporter.Collectd.Reader.{read_putval}
use wire_probe.Probe.{little, measure_rtt}
use wire_probe.Resolution.{Targets, apply_resolution, adopt}
use wire_probe.Std.Sort.{dedup, sort_unstable, position}
use wire_probe.Resolution.Laws.{IsTargets}
use wire_probe.Agent.Start.{running, start}
use wire_probe.Agent.{
  Cycle, Loop, Report, cycle, run_loop, send_probe, warns_of_rate, rotate_target, finish_cycle,
}
use wire_probe.Agent.Laws.{IsLoop, cycle-IsLoop, cycle_returns, cycle_pacing}
use wire_probe.Agent.Runs.{run_loop_asks, run_loop_reports, overran_reports}
use wire_probe.Agent.Pacing.{elapsed_time, slept_time, run_loop_pacing}
use wire_probe.Agent.Whole.{AreRead, start-AreRead}
use wire_probe.Agent.Points.{IsTelegraf, cycle-read_putval}
use wire_probe.Tests.Data.{numerics, numerics-IsNumerics, addr_a, addr_b}

abbrev label : Text
label = codes "web"

label-IsLabel : IsLabel label
label-IsLabel = (refl, (refl, (refl, tt)))

abbrev udp : TelegrafExporter
udp = record {
  prefix = Telegraf.build_prefix label label;
  buf = record { bytes = []; capacity = 100 };
}

abbrev to_stdout : CollectdExporter
to_stdout = record {
  dest = exec;
  prefix = Collectd.build_prefix numerics label label 1;
  buf = record { bytes = []; capacity = 100 };
}

abbrev pub at_b : Targets
at_b = record { addrs = addr_a ∷ addr_b ∷ []; current = addr_b }

at_b-IsTargets : IsTargets at_b
at_b-IsTargets = record { ascending = ((refl, tt), (tt, tt)); listed = refl }

-- Four failures stand before the next.
abbrev waiting : Loop
waiting = record {
  targets = at_b;
  exp = telegraf udp;
  overran = false;
  failures_until_reresolve = 1;
}

abbrev starting : Loop
starting = record waiting { failures_until_reresolve = 5 }

abbrev on_stdout : Loop
on_stdout = record starting { exp = collectd to_stdout }

abbrev export : ExportDst
export = telegraf_udp (codes "h:1")

-- A connection that is refused, while the resolver answers in the other order.
abbrev refused : Cycle
refused = record {
  since_epoch = some (from_secs 7);
  connected = err (os 111);
  connect_time = from_millis 3;
  sockopt = record { ok_rc = false; buf = []; len = 0 };
  resolver = ok (addr_b ∷ addr_a ∷ []);
  answers = record {
    datagram = ok tt;
    stream = record { write = wrote; flush = ok tt; connect = ok tt; set_write_timeout = ok tt };
  };
  elapsed = from_millis 3;
}

abbrev connected : Cycle
connected = record refused { connected = ok tt }

-- The fifth failure moves the probe on to the first address again.
abbrev moved : Loop
moved = record {
  targets = record at_b { current = addr_a };
  exp = (send_probe numerics little waiting refused).exp;
  overran = false;
  failures_until_reresolve = 5;
}

abbrev report : Report
report = (cycle numerics little export (from_secs 1) waiting refused).1

refused-cycle : cycle numerics little export (from_secs 1) waiting refused ≡ (some moved, report)
unfolding cycle measure_rtt Exporter.send_failure Telegraf.send_failure rotate_target finish_cycle
    apply_resolution Time.checked_sub dedup Option.bind sort_unstable position
refused-cycle = refl

waiting-IsLoop : IsLoop waiting
waiting-IsLoop = record { targets = at_b-IsTargets; counting = omega arith; counted = omega arith }

abbrev outage : List Cycle
outage = refused ∷ refused ∷ connected ∷ refused ∷ []

run_loop_reports_example :
    overran_reports (run_loop numerics little export (from_millis 1) starting outage).1 ≤ 1
run_loop_reports_example = run_loop_reports numerics little export (from_millis 1) outage starting

abbrev in_a_row : List Cycle
in_a_row = refused ∷ connected ∷ []

abbrev ended : Loop
ended = record moved { exp = (send_probe numerics little moved connected).exp }

abbrev reports : List Report
reports = (run_loop numerics little export (from_secs 1) waiting in_a_row).1

run_in_a_row :
    run_loop numerics little export (from_secs 1) waiting in_a_row ≡ (some ended, reports)
unfolding run_loop cycle measure_rtt Exporter.send_failure Telegraf.send_failure Exporter.send
    Telegraf.send rotate_target finish_cycle apply_resolution Time.checked_sub dedup Option.bind
    sort_unstable position
run_in_a_row = refl

run_loop_asks_example : map (λ r. r.asked) reports ≡ true ∷ false ∷ []
run_loop_asks_example =
    run_loop_asks numerics little export (from_secs 1) in_a_row waiting ended 4 reports refl
      run_in_a_row

udp-IsTelegraf : IsTelegraf label label (telegraf udp)
udp-IsTelegraf = record { exporter = udp; is = refl; labelled = refl }

run_loop_pacing_example :
    (length in_a_row * as_nanos (from_secs 1) ≤ elapsed_time in_a_row + slept_time reports)
    × (false ≡ true → ended.overran ≡ true)
    × (ended.overran ≡ false
        → elapsed_time in_a_row + slept_time reports ≡ length in_a_row * as_nanos (from_secs 1))
run_loop_pacing_example =
    run_loop_pacing numerics little export (from_secs 1) in_a_row waiting ended reports
      (record { carried = omega arith })
      (record { carried = omega arith }, (record { carried = omega arith }, tt)) run_in_a_row
