-- ===== src/Main/Laws.antt =====
-- The whole process of src/main.rs, from its command line to its exit code.
use wire_probe.Prelude.{◌≡◌, ◌≢◌, refl, ap, Bool, List, Text, some, All, ◌≤◌}
use wire_probe.Std.Time
use wire_probe.External.{Numerics, IsNumerics}
use wire_probe.Cli.Types.{ExportDst, Mode, server, probe, telegraf_udp, collectd_exec}
use wire_probe.Cli.Command.{Context, Run, done, raised, exited}
use wire_probe.Cli.Parse.{Arguments, parse}
use wire_probe.Cli.Parse.Limits.{Converts}
use wire_probe.Cli.Parse.Laws.{parse-IsAccepted}
use wire_probe.Probe.{Endian}
use wire_probe.Host.{hostname, hostname-IsLabel}
use wire_probe.Agent.{Cycle, Loop, run_loop, interval_secs}
use wire_probe.Agent.Start.{Started, cannot_resolve, no_address, init_error, running, start}
use wire_probe.Agent.Laws.{IsLoop, interval_secs_bounds}
use wire_probe.Agent.Whole
use wire_probe.Agent.Whole.{start-AreRead}
use wire_probe.Agent.Stdout
use wire_probe.Agent.Stdout.{IsTaken, start-AreRead_stdout}
use wire_probe.Server
use wire_probe.Server.{Errnos, Ring, run, bind_failed, ring_failed, blocking, ringed}
use wire_probe.Main.{Surroundings, probes, served, probed, of_run, dispatch, main}

served-ne-probes :
    (st : Server.Started) (export : ExportDst) (interval : Time.Duration) (s : Loop)
    → served st ≢ probes export interval s
served-ne-probes (bind_failed e) export interval s h = cc
served-ne-probes (ring_failed e) export interval s h = cc
served-ne-probes blocking export interval s h = cc
served-ne-probes ringed export interval s h = cc

probed-eq-probes :
    (e export : ExportDst) (i interval : Time.Duration) (st : Started) (s : Loop)
    → probed e i st ≡ probes export interval s
    → (warned : Bool) × (st ≡ running warned s) × (e ≡ export) × (i ≡ interval)
probed-eq-probes e export i interval (cannot_resolve x) s h = cc
probed-eq-probes e export i interval no_address s h = cc
probed-eq-probes e export i interval (init_error warned x) s h = cc
probed-eq-probes e export i interval (running warned s') s h = (warned, cc, cc, cc)

module _ (n : Numerics) (k : Errnos) where
  -- What stands behind a process that probes.
  pub record IsProbing {S : Type 0} (r : Run Mode × Context S) (w : Surroundings)
      (export : ExportDst) (interval : Time.Duration) (s : Loop) : Type 0 where
    pub target : Text
    pub target_name : Text
    pub az : Text
    pub timeout : Time.Duration
    pub warned : Bool
    pub parsed : r ≡ (done (probe target target_name az interval timeout export), r.1)
    pub started :
        start n export target_name az (hostname w.name_buf) interval w.resolver w.opening
        ≡ running warned s

  dispatch-IsProbing :
      {S : Type 0} (mode : Mode) (cx : Context S) (w : Surroundings) (export : ExportDst)
      (interval : Time.Duration) (s : Loop)
      → dispatch n k mode w ≡ probes export interval s
      → IsProbing (done mode, cx) w export interval s
  unfolding dispatch
  dispatch-IsProbing (server bind port) cx w export interval s h =
      absurd (served-ne-probes (run k w.bound w.ring) export interval s h)
  dispatch-IsProbing (probe target target_name az i timeout e) cx w export interval s h =
      let (warned, st, same_e, same_i) = probed-eq-probes e export i interval _ s h in
      record {
        target = target;
        target_name = target_name;
        az = az;
        timeout = timeout;
        warned = warned;
        parsed = rw (same_e, same_i) refl;
        started = rw (← same_e, ← same_i) st;
      }

  of_run-IsProbing :
      {S : Type 0} (r : Run Mode × Context S) (w : Surroundings) (export : ExportDst)
      (interval : Time.Duration) (s : Loop)
      → of_run n k r.0 w ≡ probes export interval s
      → IsProbing r w export interval s
  of_run-IsProbing (done mode, cx) w export interval s h =
      dispatch-IsProbing mode cx w export interval s h
  of_run-IsProbing (raised e, cx) w export interval s h = cc
  of_run-IsProbing (exited code, cx) w export interval s h = cc

  pub main-IsProbing :
      (A : Arguments) (cx : Context A.S) (w : Surroundings) (export : ExportDst)
      (interval : Time.Duration) (s : Loop)
      → main n k A cx w ≡ probes export interval s
      → IsProbing (parse A cx) w export interval s
  unfolding main
  main-IsProbing A cx w export interval s h = of_run-IsProbing (parse A cx) w export interval s h

  module _ (endian : Endian) (A : Arguments) where
    -- A process that comes to the loop of the probe with a Telegraf destination has parsed that
    -- mode from its command line, with an argument parser whose values are converted from some
    -- text. It stays in the loop, whatever its cycles meet, and keeps the invariant of the loop.
    -- Each cycle hands one datagram to the socket, in which a reader of the documented format finds
    -- the target name and the zone of the command line, the measured value as `ryu` writes it or
    -- none after a failed probe, and the time of that cycle, and nothing behind them. The number
    -- formatters do what their crates document.
    pub main-AreRead :
        IsNumerics n
        → Converts A
        → (cx : Context A.S) (w : Surroundings) (addr : Text) (interval : Time.Duration) (s : Loop)
        → (cs : List Cycle) → main n k A cx w ≡ probes (telegraf_udp addr) interval s
        → let (last, rs) = run_loop n endian (telegraf_udp addr) interval s cs in
          (target target_name az : Text) × (timeout : Time.Duration) × ((parse A cx).0
            ≡ done (probe target target_name az interval timeout (telegraf_udp addr)))
          × Whole.AreRead n endian target_name az cs rs
          × ((s' : Loop) × (last ≡ some s') × IsLoop s')
    main-AreRead v c cx w addr interval s cs h =
        let p = main-IsProbing A cx w (telegraf_udp addr) interval s h in
        let accepted = parse-IsAccepted A c cx _ _ p.parsed in
        let run =
          start-AreRead n endian v p.target_name p.az (hostname w.name_buf) addr interval w.resolver
            w.opening p.warned s cs accepted.0.0 accepted.0.1 p.started in
        (p.target, p.target_name, p.az, p.timeout, ap (λ r. r.0) p.parsed, run.0, run.1)

    -- A process that comes to the loop of the probe with stdout as its destination has parsed that
    -- mode from its command line, with an argument parser whose values are converted from some
    -- text. Each cycle writes one PUTVAL line, as long as stdout takes whole lines and their flush.
    -- A reader of the documented format finds in it the host name, the target name of the command
    -- line, the announced seconds and the measured value as `ryu` writes it, or no value after a
    -- failed probe, and nothing behind them. The announced seconds are between 1 and 86400. The
    -- number formatters do what their crates document.
    pub main-AreRead_stdout :
        IsNumerics n
        → Converts A
        → (cx : Context A.S) (w : Surroundings) (interval : Time.Duration) (s : Loop)
        → (cs : List Cycle) → All IsTaken cs
        → main n k A cx w ≡ probes collectd_exec interval s
        → (target target_name az : Text) × (timeout : Time.Duration) × ((parse A cx).0
            ≡ done (probe target target_name az interval timeout collectd_exec))
          × Stdout.AreRead n endian
              (hostname w.name_buf)
              target_name
              (interval_secs interval)
              cs
              (run_loop n endian collectd_exec interval s cs).1
          × (1 ≤ interval_secs interval)
          × (interval_secs interval ≤ 86_400)
    main-AreRead_stdout v c cx w interval s cs all h =
        let p = main-IsProbing A cx w collectd_exec interval s h in
        let accepted = parse-IsAccepted A c cx _ _ p.parsed in
        let bounds = interval_secs_bounds interval p.timeout accepted.0.2 in
        (
          p.target,
          p.target_name,
          p.az,
          p.timeout,
          ap (λ r. r.0) p.parsed,
          start-AreRead_stdout n endian v p.target_name p.az (hostname w.name_buf) interval
              w.resolver w.opening p.warned s cs (hostname-IsLabel w.name_buf) accepted.0.0 all
              p.started,
          bounds.0,
          bounds.1,
        )
