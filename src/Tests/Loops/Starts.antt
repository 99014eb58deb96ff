-- ===== src/Tests/Loops/Starts.antt =====
-- Runs from the start of the probe.
use wire_probe.Prelude.{◌+◌, ◌≡◌, refl, false, [], ◌∷◌, length, none, true, ◌↔◌, List, All}
use wire_probe.Std.Io.{ok, broken_pipe, with_capacity}
use wire_probe.Std.Time.{from_secs}
use wire_probe.Cli.Types.{collectd_exec}
use wire_probe.Exporter
use wire_probe.Exporter.{Exporter, Emitted, telegraf, collectd, datagram, flushed, Opening}
use wire_probe.Exporter.Telegraf
use wire_probe.Exporter.Telegraf.{TelegrafExporter}
use wire_probe.Exporter.Collectd
use wire_probe.Exporter.Collectd.{CollectdExporter, exec, wrote, failed_after, Flushed}
use wire_probe.Probe.{little}
use wire_probe.Resolution.{adopt}
use wire_probe.Std.Sort.{dedup, sort_unstable}
use wire_probe.Agent.Start.{running, start}
use wire_probe.Agent.{interval_secs, Cycle, Loop, run_loop, warns_of_rate}
use wire_probe.Agent.Exit.{any_closed, start_exits}
use wire_probe.Agent.Stdout.{IsTaken}
use wire_probe.Tests.Loops.{label, at_b, export, refused, connected, outage}
use wire_probe.Agent.Outage.{Round, IsDown}
use wire_probe.Std.Net.{addr_ord}
use wire_probe.Tests.Data.{numerics, addr_a, addr_b}

abbrev pub opened : Opening
opened = record { udp_bind = ok tt; udp_connect = ok tt; uds_connect = ok tt; uds_timeout = ok tt }

abbrev pub first : Loop
first = record {
  targets = record at_b { current = addr_b };
  exp = telegraf (record {
    prefix = Telegraf.build_prefix label label;
    buf = with_capacity (length (Telegraf.build_prefix label label) + 64);
  });
  overran = false;
  failures_until_reresolve = 5;
}

pub started :
    start numerics export label label label (from_secs 1) (ok (addr_b ∷ addr_a ∷ [])) opened
    ≡ running false first
unfolding start adopt Exporter.new Telegraf.new warns_of_rate dedup sort_unstable
started = refl

refused-IsTaken : IsTaken refused
refused-IsTaken = record { written = refl; flushes = refl }

connected-IsTaken : IsTaken connected
connected-IsTaken = record { written = refl; flushes = refl }

pub outage-IsTaken : All IsTaken outage
outage-IsTaken = (refused-IsTaken, (refused-IsTaken, (connected-IsTaken, (refused-IsTaken, tt))))

abbrev on_exec : Loop
on_exec = record first { exp = collectd (Collectd.new_exec numerics label label 1) }

started_exec :
    start numerics collectd_exec label label label (from_secs 1) (ok (addr_b ∷ addr_a ∷ [])) opened
    ≡ running false on_exec
unfolding start adopt Exporter.new warns_of_rate dedup interval_secs sort_unstable
started_exec = refl

-- Stdout is closed in the second cycle.
abbrev pub closing : List Cycle
closing =
    refused
    ∷ record refused {
      answers = record refused.answers {
        stream = record refused.answers.stream { write = failed_after 0 broken_pipe };
      };
    }
    ∷ refused
    ∷ []

start_exits_example :
    (((run_loop numerics little collectd_exec (from_secs 1) on_exec closing).0 ≡ none)
      ↔ (any_closed closing ≡ true))
    × (length (run_loop numerics little collectd_exec (from_secs 1) on_exec closing).1 ≡ 2)
start_exits_example =
    start_exits numerics little label label label (from_secs 1) (ok (addr_b ∷ addr_a ∷ [])) opened
      false on_exec closing started_exec

abbrev pub down : Round
down = record {
  first = refused;
  second = refused;
  third = refused;
  fourth = refused;
  fifth = refused;
  fresh = addr_b ∷ addr_a ∷ [];
}

abbrev pub both_rounds : List Round
both_rounds = down ∷ down ∷ []

pub down-IsDown : IsDown down
down-IsDown = record {
  first_fails = refl;
  second_fails = refl;
  third_fails = refl;
  fourth_fails = refl;
  fifth_fails = refl;
  answered = refl;
}
