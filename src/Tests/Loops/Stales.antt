-- ===== src/Tests/Loops/Stales.antt =====
-- A process that exports to the Unix socket of collectd, with a reconnection that is refused.
use mathlib.Core.Option
use wire_probe.Prelude.{◌≡◌, refl, List, [], ◌∷◌, map, Bytes, Text, codes, some, All, arith}
use wire_probe.Std.Io.{err, os, not_found}
use wire_probe.Std.Strings.{strip_suffix, strip_prefix}
use wire_probe.Std.Sort.{dedup, sort_unstable}
use wire_probe.Std.Numbers.{parse_uint}
use wire_probe.Std.Time
use wire_probe.Std.Time.{from_secs}
use wire_probe.Cli.Types.{probe, collectd_uds}
use wire_probe.Cli.Sanitize.{sanitize}
use wire_probe.Cli.Duration.{parse_duration}
use wire_probe.Cli.Export.{parse_export}
use wire_probe.Cli.Command.{Context, done, ◌>>=◌}
use wire_probe.Cli.Parse.{parse, parse_mode, parse_probe, parse_times, probe_inputs, reject_unknown}
use wire_probe.Exporter
use wire_probe.Exporter.{collectd}
use wire_probe.Exporter.Collectd
use wire_probe.Exporter.Collectd.{uds, wrote, failed_after, build_prefix}
use wire_probe.Exporter.Collectd.Framing.{read_lines}
use wire_probe.Exporter.Collectd.Stale.{Frames, glued, no_frames, frames_of}
use wire_probe.Probe.{little}
use wire_probe.Host.{hostname}
use wire_probe.Resolution.{adopt}
use wire_probe.Agent.{Cycle, Loop, run_loop, interval_secs, warns_of_rate}
use wire_probe.Agent.Start.{start}
use wire_probe.Agent.Socket.{open_stream, Reads, journal}
use wire_probe.Agent.Stale.{IsTorn, item_of, prefix_of}
use wire_probe.Main.{probes, main, dispatch}
use wire_probe.Main.Sockets.{main-frames, main-Reads_socket}
use wire_probe.Tests.Data.{numerics, numerics-IsNumerics, pairs, pairs-Converts, taken}
use wire_probe.Tests.Commands.{given}
use wire_probe.Tests.Rings.{linux}
use wire_probe.Tests.Loops.{refused, connected}
use wire_probe.Tests.Loops.Sockets.{restarted, restarted-IsServed}
use wire_probe.Tests.Loops.Processes.{around, on_exec}

abbrev to_socket : Context (List (Text × Text))
to_socket = record { args = (codes "--export", codes "collectd-uds://s") ∷ given.args; out = [] }

abbrev on_socket : Loop
on_socket = record on_exec {
  exp = collectd (record (Collectd.new_exec numerics (hostname around.name_buf) (codes "db_1") 2) {
    dest = uds (codes "s") [];
  });
}

on_socket-probes :
    main numerics linux pairs to_socket around
    ≡ probes (collectd_uds (codes "s")) (from_secs 2) on_socket
unfolding main dispatch parse ◌>>=◌ taken parse_mode parse_probe probe_inputs parse_times
    parse_duration strip_suffix strip_prefix parse_uint parse_export reject_unknown sanitize start
    adopt Exporter.new Collectd.new_uds Collectd.new_exec warns_of_rate dedup interval_secs
    sort_unstable
on_socket-probes = refl

abbrev prefix : Bytes
prefix = prefix_of on_socket.exp

-- The second write fails inside its line, and the socket is gone.
abbrev interrupted : List Cycle
interrupted =
    connected
    ∷ record refused {
      answers = record refused.answers {
        stream = record refused.answers.stream {
          write = failed_after 3 (os 32);
          connect = err not_found;
        };
      };
    }
    ∷ refused
    ∷ []

interrupted-IsTorn : All (IsTorn numerics little prefix) interrupted
unfolding Collectd.new_exec Collectd.build_prefix
interrupted-IsTorn = (
  record { inside = λ k e h. cc },
  (
    record { inside = λ k e h. let three : k ≡ 3 = cc in omega arith },
    (record { inside = λ k e h. cc }, tt),
  ),
)

abbrev frames : Frames
frames = frames_of (map (item_of numerics little prefix) interrupted) no_frames

main-frames_example :
    (target target_name az : Text) × (timeout : Time.Duration) × (s' : Loop) × (stream : Bytes)
    × ((parse pairs to_socket).0
        ≡ done (probe target target_name az (from_secs 2) timeout (collectd_uds (codes "s"))))
    × (prefix
        ≡ build_prefix numerics
            (hostname around.name_buf)
            target_name
            (interval_secs (from_secs 2)))
    × ((run_loop numerics little (collectd_uds (codes "s")) (from_secs 2) on_socket interrupted).0
        ≡ some s')
    × (open_stream s'.exp ≡ some stream)
    × (read_lines stream ≡ (map glued frames.closed, frames.torn))
main-frames_example =
    main-frames numerics linux little pairs numerics-IsNumerics pairs-Converts to_socket around
      (codes "s") (from_secs 2) on_socket interrupted interrupted-IsTorn on_socket-probes

main-Reads_socket_example :
    (target target_name az : Text) × (timeout : Time.Duration) × ((parse pairs to_socket).0
      ≡ done (probe target target_name az (from_secs 2) timeout (collectd_uds (codes "s"))))
    × (s' : Loop) × (stream : Bytes) × ((run_loop numerics little
          (collectd_uds (codes "s"))
          (from_secs 2)
          on_socket
          restarted).0
        ≡ some s')
    × (open_stream s'.exp ≡ some stream)
    × Reads
        (hostname around.name_buf)
        target_name
        (interval_secs (from_secs 2))
        (map (Option.map numerics.ryu) (journal numerics little [] restarted))
        stream
main-Reads_socket_example =
    main-Reads_socket numerics linux little pairs numerics-IsNumerics pairs-Converts to_socket
      around (codes "s") (from_secs 2) on_socket restarted restarted-IsServed on_socket-probes
