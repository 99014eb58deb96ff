-- ===== src/Main/Sockets.antt =====
-- The whole process of src/main.rs that exports to the Unix socket of collectd.
use mathlib.Core.Option
use wire_probe.Prelude.{[], ◌≡◌, ap, List, Text, Bytes, map, some, All}
use wire_probe.Std.Time
use wire_probe.External.{Numerics, IsNumerics}
use wire_probe.Cli.Types.{probe, collectd_uds}
use wire_probe.Cli.Command.{Context, done}
use wire_probe.Cli.Parse.{Arguments, parse}
use wire_probe.Cli.Parse.Limits.{Converts}
use wire_probe.Cli.Parse.Laws.{parse-IsAccepted}
use wire_probe.Probe.{Endian}
use wire_probe.Exporter.Collectd.{build_prefix}
use wire_probe.Exporter.Collectd.Framing.{read_lines}
use wire_probe.Exporter.Collectd.Stale.{glued, no_frames, frames_of}
use wire_probe.Host.{hostname, hostname-IsLabel}
use wire_probe.Agent.{Cycle, Loop, run_loop, interval_secs}
use wire_probe.Agent.Socket.{IsServed, Reads, journal, open_stream, start-Reads_socket}
use wire_probe.Agent.Stale.{IsTorn, item_of, prefix_of, start-prefix_of, start-frames}
use wire_probe.Server.{Errnos}
use wire_probe.Main.{Surroundings, probes, main}
use wire_probe.Main.Laws.{main-IsProbing}

module _ (n : Numerics) (k : Errnos) (endian : Endian) (A : Arguments) where
  -- A process that comes to the loop of the probe with the socket of collectd as its destination
  -- has parsed that mode from its command line, with an argument parser whose values are converted
  -- from some text. Its lines carry the host name, the target name of the command line and the
  -- announced seconds. It stays in the loop, whatever its cycles meet, where a failed write stops
  -- inside its line. A reader of the open stream finds exactly the frames that the cycles leave,
  -- each the line of a cycle whose write succeeded behind the torn pieces of the failed writes in
  -- front of it, and at the end the pieces that no line closed. A failed write with a reconnection
  -- leaves no frame. The number formatters do what their crates document.
  pub main-frames :
      IsNumerics n
      → Converts A
      → (cx : Context A.S) (w : Surroundings) (path : Text) (interval : Time.Duration) (s : Loop)
      → (cs : List Cycle) → All (IsTorn n endian (prefix_of s.exp)) cs
      → main n k A cx w ≡ probes (collectd_uds path) interval s
      → let f = frames_of (map (item_of n endian (prefix_of s.exp)) cs) no_frames in
        (target target_name az : Text) × (timeout : Time.Duration) × (s' : Loop) × (stream : Bytes)
        × ((parse A cx).0 ≡ done (probe target target_name az interval timeout (collectd_uds path)))
        × (prefix_of s.exp
            ≡ build_prefix n (hostname w.name_buf) target_name (interval_secs interval))
        × ((run_loop n endian (collectd_uds path) interval s cs).0 ≡ some s')
        × (open_stream s'.exp ≡ some stream)
        × (read_lines stream ≡ (map glued f.closed, f.torn))
  main-frames v c cx w path interval s cs all h =
      let p = main-IsProbing n k A cx w (collectd_uds path) interval s h in
      let accepted = parse-IsAccepted A c cx _ _ p.parsed in
      let host = hostname w.name_buf in
      let (s', stream, ends, opens, reads) =
        start-frames n endian v path p.target_name p.az host interval w.resolver w.opening p.warned
          s cs (hostname-IsLabel w.name_buf) accepted.0.0 all p.started in
      (
        p.target,
        p.target_name,
        p.az,
        p.timeout,
        s',
        stream,
        ap (λ r. r.0) p.parsed,
        start-prefix_of n endian path p.target_name p.az host interval w.resolver w.opening p.warned
            s p.started,
        ends,
        opens,
        reads,
      )

  -- A process that comes to the loop of the probe with the socket of collectd as its destination
  -- has parsed that mode from its command line, with an argument parser whose values are converted
  -- from some text, and stays in the loop over cycles in which reconnections succeed. The open
  -- stream implements a journal of the values sent since the last write that failed: a reader of
  -- the documented format finds in it exactly these values, under the host name, the target name of
  -- the command line and the announced seconds of the interval, in order and with nothing else
  -- between or behind them. The number formatters do what their crates document.
  pub main-Reads_socket :
      IsNumerics n
      → Converts A
      → (cx : Context A.S) (w : Surroundings) (path : Text) (interval : Time.Duration) (s : Loop)
      → (cs : List Cycle) → All IsServed cs
      → main n k A cx w ≡ probes (collectd_uds path) interval s
      → (target target_name az : Text) × (timeout : Time.Duration) × ((parse A cx).0
          ≡ done (probe target target_name az interval timeout (collectd_uds path)))
        × (s' : Loop) × (stream : Bytes) × ((run_loop n endian (collectd_uds path) interval s cs).0
            ≡ some s')
        × (open_stream s'.exp ≡ some stream)
        × Reads
            (hostname w.name_buf)
            target_name
            (interval_secs interval)
            (map (Option.map n.ryu) (journal n endian [] cs))
            stream
  main-Reads_socket v c cx w path interval s cs all h =
      let p = main-IsProbing n k A cx w (collectd_uds path) interval s h in
      let accepted = parse-IsAccepted A c cx _ _ p.parsed in
      let (s', stream, ends, opens, reads) =
        start-Reads_socket n endian v path p.target_name p.az (hostname w.name_buf) interval
          w.resolver w.opening p.warned s cs (hostname-IsLabel w.name_buf) accepted.0.0 all
          p.started in
      (
        p.target,
        p.target_name,
        p.az,
        p.timeout,
        ap (λ r. r.0) p.parsed,
        s',
        stream,
        ends,
        opens,
        reads,
      )
