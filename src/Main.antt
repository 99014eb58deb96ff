-- ===== src/Main.antt =====
-- `main` of src/main.rs: the command line chooses between the server and the probe, and what ends
-- either gives the exit code.
pub mod Exit
pub mod Laws
pub mod Sockets
pub mod Down
use mathlib.Core.Option
use wire_probe.Prelude.{ℕ, Bool, List, Bytes, Option, none, some}
use wire_probe.Std.Net.{SocketAddr}
use wire_probe.Std.Io.{IoResult, ok, err}
use wire_probe.Std.Time
use wire_probe.External.{Numerics}
use wire_probe.Cli.Types.{ExportDst, Mode, server, probe}
use wire_probe.Cli.Command.{Context, Run, done, raised, exited}
use wire_probe.Cli.Parse.{Arguments, parse}
use wire_probe.Probe.{Endian}
use wire_probe.Exporter
use wire_probe.Host.{hostname}
use wire_probe.Agent.{Cycle, Loop, run_loop}
use wire_probe.Agent.Start.{Started, cannot_resolve, no_address, init_error, running, start}
use wire_probe.Server
use wire_probe.Server.{Errnos, Ring, run, run_io_uring, bind_failed, ring_failed, blocking, ringed}

-- What the start of the process meets: the answers of `bind` and of `IoUring::new`, the buffer of
-- `gethostname`, the resolver, and the opening of the exporter.
pub record Surroundings : Type 0 where
  pub bound : IoResult (Unit {0})
  pub ring : IoResult (Unit {0})
  pub name_buf : Bytes
  pub resolver : IoResult (List SocketAddr)
  pub opening : Exporter.Opening

-- What the process comes to.
pub data Program : Type 0 where
  exits : (code : ℕ) → Program
  serves_blocking : Program
  serves_ring : Program
  probes : ExportDst → (interval : Time.Duration) → Loop → Program

abbrev served : Server.Started → Program
served (bind_failed e) = exits 1
served (ring_failed e) = exits 1
served blocking = serves_blocking
served ringed = serves_ring

abbrev probed : ExportDst → Time.Duration → Started → Program
probed export interval (cannot_resolve e) = exits 1
probed export interval no_address = exits 1
probed export interval (init_error warned e) = exits 1
probed export interval (running warned s) = probes export interval s

module _ (n : Numerics) (k : Errnos) where
  -- The `match` on the mode, up to the loop of either.
  unfoldable pub dispatch : Mode → Surroundings → Program
  dispatch (server bind port) w = served (run k w.bound w.ring)
  dispatch (probe target target_name az interval timeout export) w =
      probed export interval
        (start n export target_name az (hostname w.name_buf) interval w.resolver w.opening)

  abbrev of_run : Run Mode → Surroundings → Program
  of_run (done mode) w = dispatch mode w
  of_run (raised e) w = exits 1
  of_run (exited code) w = exits code

  unfoldable pub main : (A : Arguments) → Context A.S → Surroundings → Program
  unfolding dispatch
  main A cx w = of_run (parse A cx).0 w

  -- The exit code of a process that has run its cycles, or its turns of the ring, and `none` if it
  -- goes on. A probe that leaves its loop returns from `main`.
  unfoldable pub exit_code :
      (endian : Endian) (close_ok : ℕ → Bool) (ring : Ring) (listener : ℕ) (turns : ℕ) (r : ring.R)
      (cycles : List Cycle)
      → Program
      → Option ℕ
  exit_code endian close_ok ring listener turns r cycles (exits code) = some code
  exit_code endian close_ok ring listener turns r cycles serves_blocking = none
  exit_code endian close_ok ring listener turns r cycles serves_ring =
      elim (run_io_uring k close_ok ring turns listener r).0 [ ok r' ↦ none | err e ↦ some 1 ]
  exit_code endian close_ok ring listener turns r cycles (probes export interval s) =
      elim (run_loop n endian export interval s cycles).0 [ none ↦ some 0 | some s' ↦ none ]
