-- ===== src/Tests/Loops/Processes.antt =====
-- Whole processes, from a command line to an exit code.
use wire_probe.Prelude.{
  Option, map, none, length, ◌+◌, ◌≤◌, ◌≡◌, ◌↔◌, ◌⊎◌, refl, true, false, ℕ, List, [], ◌∷◌, ◌++◌,
  Text, codes, some, inr,
}
use wire_probe.Std.Io.{ok, with_capacity}
use wire_probe.Std.Strings.{strip_suffix}
use wire_probe.Std.Sort.{dedup, sort_unstable}
use wire_probe.Std.Numbers.{parse_uint}
use wire_probe.Std.Time
use wire_probe.Std.Time.{from_millis, from_secs}
use wire_probe.Cli.Types.{probe, telegraf_udp, collectd_exec}
use wire_probe.Cli.Sanitize.{sanitize}
use wire_probe.Cli.Duration.{parse_duration}
use wire_probe.Cli.Export.{parse_export}
use wire_probe.Cli.Command.{Context, done, exited, ◌>>=◌}
use wire_probe.Cli.Parse.{parse, parse_mode, parse_probe, parse_times, probe_inputs, reject_unknown}
use wire_probe.Exporter
use wire_probe.Exporter.{Exporter, collectd, telegraf}
use wire_probe.Exporter.Telegraf
use wire_probe.Exporter.Collectd
use wire_probe.Probe.{little}
use wire_probe.Host.{hostname}
use wire_probe.Resolution.{adopt}
use wire_probe.Agent.{Cycle, Loop, Report, run_loop, interval_secs, warns_of_rate}
use wire_probe.Agent.Start.{start}
use wire_probe.Agent.Laws.{IsLoop}
use wire_probe.Agent.Outage.{cycles_of, five_each}
use wire_probe.Resolution.Laws.{canonical}
use wire_probe.Std.Net.{SocketAddr, addr_ord}
use wire_probe.Std.Sort.Laws.{SameElements}
use wire_probe.Agent.Exit.{any_closed}
use wire_probe.Agent.Whole
use wire_probe.Agent.Stdout
use wire_probe.Main.{Surroundings, probes, main, dispatch, exit_code}
use wire_probe.Main.Laws.{main-AreRead, main-AreRead_stdout}
use wire_probe.Main.Down.{main_outage}
use wire_probe.Main.Exit.{main_exit_zero}
use wire_probe.Tests.Data.{
  numerics, numerics-IsNumerics, pairs, pairs-Converts, taken, addr_a, addr_b,
}
use wire_probe.Tests.Commands.{given}
use wire_probe.Tests.Rings.{linux, busy}
use wire_probe.Tests.Loops.{outage}
use wire_probe.Tests.Loops.Starts.{both_rounds, down-IsDown, outage-IsTaken, closing}

abbrev pub around : Surroundings
around = record {
  bound = ok tt;
  ring = ok tt;
  name_buf = codes "web" ++ (0 ∷ []);
  resolver = ok (addr_b ∷ addr_a ∷ []);
  opening = record {
    udp_bind = ok tt;
    udp_connect = ok tt;
    uds_connect = ok tt;
    uds_timeout = ok tt;
  };
}

abbrev pub on_exec : Loop
on_exec = record {
  targets = record { addrs = addr_a ∷ addr_b ∷ []; current = addr_b };
  exp = collectd (Collectd.new_exec numerics (hostname around.name_buf) (codes "db_1") 2);
  overran = false;
  failures_until_reresolve = 5;
}

on_exec-probes : main numerics linux pairs given around ≡ probes collectd_exec (from_secs 2) on_exec
unfolding main dispatch parse ◌>>=◌ taken parse_mode parse_probe probe_inputs parse_times
    parse_duration strip_suffix parse_uint parse_export reject_unknown sanitize start adopt
    Exporter.new warns_of_rate dedup interval_secs sort_unstable
on_exec-probes = refl

main-AreRead_stdout_example :
    (target target_name az : Text) × (timeout : Time.Duration) × ((parse pairs given).0
      ≡ done (probe target target_name az (from_secs 2) timeout collectd_exec))
    × Stdout.AreRead numerics little
        (hostname around.name_buf)
        target_name
        (interval_secs (from_secs 2))
        outage
        (run_loop numerics little collectd_exec (from_secs 2) on_exec outage).1
    × (1 ≤ interval_secs (from_secs 2))
    × (interval_secs (from_secs 2) ≤ 86_400)
main-AreRead_stdout_example =
    main-AreRead_stdout numerics linux little pairs numerics-IsNumerics pairs-Converts given around
      (from_secs 2) on_exec outage outage-IsTaken on_exec-probes

abbrev exit_of : List Cycle → Option ℕ
exit_of cycles =
    exit_code numerics linux little (λ fd. true) busy 3 5 (0, 0) cycles
      (main numerics linux pairs given around)

main_exit_zero_example : (exit_of closing ≡ some 0) ↔ (
    ((parse pairs given).0 ≡ exited 0)
    ⊎ ((interval : Time.Duration) × (s : Loop) × (main numerics linux pairs given around
          ≡ probes collectd_exec interval s)
        × (any_closed closing ≡ true)))
main_exit_zero_example =
    main_exit_zero numerics linux little (λ fd. true) busy 3 5 (0, 0) closing pairs given around

exit_of-closing : exit_of closing ≡ some 0
exit_of-closing = main_exit_zero_example.1 (inr (from_secs 2, on_exec, on_exec-probes, refl))

abbrev telegraf_line : List (Text × Text)
telegraf_line = (codes "--export", codes "telegraf-udp://h:1") ∷ given.args

abbrev to_telegraf : Context (List (Text × Text))
to_telegraf = record { args = telegraf_line; out = [] }

abbrev on_telegraf : Loop
on_telegraf = record on_exec {
  exp = telegraf (record {
    prefix = Telegraf.build_prefix (codes "db_1") (codes "default");
    buf = with_capacity (length (Telegraf.build_prefix (codes "db_1") (codes "default")) + 64);
  });
}

on_telegraf-probes :
    main numerics linux pairs to_telegraf around
    ≡ probes (telegraf_udp (codes "h:1")) (from_secs 2) on_telegraf
unfolding main dispatch parse ◌>>=◌ taken parse_mode parse_probe probe_inputs parse_times
    parse_duration strip_suffix parse_uint parse_export reject_unknown sanitize start adopt
    Exporter.new Telegraf.new warns_of_rate dedup sort_unstable
on_telegraf-probes = refl

main-AreRead_example :
    (target target_name az : Text) × (timeout : Time.Duration) × ((parse pairs to_telegraf).0
      ≡ done (probe target target_name az (from_secs 2) timeout (telegraf_udp (codes "h:1"))))
    × Whole.AreRead numerics little target_name az outage
        (run_loop numerics little (telegraf_udp (codes "h:1")) (from_secs 2) on_telegraf outage).1
    × ((s' : Loop) × ((run_loop numerics little
            (telegraf_udp (codes "h:1"))
            (from_secs 2)
            on_telegraf
            outage).0
          ≡ some s')
        × IsLoop s')
main-AreRead_example =
    main-AreRead numerics linux little pairs numerics-IsNumerics pairs-Converts to_telegraf around
      (codes "h:1") (from_secs 2) on_telegraf outage on_telegraf-probes

same-SameElements : SameElements (addr_b ∷ addr_a ∷ []) (addr_b ∷ addr_a ∷ [])
same-SameElements a = refl

abbrev both_down : Option Loop × List Report
both_down =
    run_loop numerics little (telegraf_udp (codes "h:1")) (from_secs 2) on_telegraf
      (cycles_of both_rounds)

two_addresses : length both_rounds ≡ length (canonical (addr_b ∷ addr_a ∷ []))
unfolding dedup sort_unstable
two_addresses = refl

main_outage_example :
    (front back : List SocketAddr) × (canonical (addr_b ∷ addr_a ∷ []) ≡ front ++ (addr_b ∷ back))
    × (((telegraf_udp (codes "h:1") ≡ collectd_exec) × (both_down.0 ≡ none))
        ⊎ ((s' : Loop) × (both_down.0 ≡ some s')
            × (map (λ r. r.probed) both_down.1 ≡ five_each (addr_b ∷ (back ++ front)))))
main_outage_example =
    main_outage numerics linux little pairs to_telegraf around (telegraf_udp (codes "h:1"))
      (from_secs 2) on_telegraf addr_b (addr_a ∷ []) both_rounds refl
      (down-IsDown, (down-IsDown, tt)) (same-SameElements, (same-SameElements, tt)) two_addresses
      on_telegraf-probes
