-- ===== src/Main/Down.antt =====
-- The whole process of src/main.rs whose target is down.
use mathlib.Core.Path.{subst}
use wire_probe.Prelude.{◌≡◌, ◌⊎◌, List, ◌∷◌, ◌++◌, map, none, some, All, length}
use wire_probe.Std.Net.{SocketAddr}
use wire_probe.Std.Io.{ok}
use wire_probe.Std.Time
use wire_probe.External.{Numerics}
use wire_probe.Cli.Types.{ExportDst, collectd_exec}
use wire_probe.Cli.Command.{Context}
use wire_probe.Cli.Parse.{Arguments}
use wire_probe.Probe.{Endian}
use wire_probe.Host.{hostname}
use wire_probe.Resolution.Laws.{canonical}
use wire_probe.Resolution.Rounds.{Shuffles}
use wire_probe.Agent.{Loop, run_loop}
use wire_probe.Agent.Start.{running, start}
use wire_probe.Agent.Outage.{Round, IsDown, cycles_of, five_each}
use wire_probe.Agent.Down.{start_outage}
use wire_probe.Server.{Errnos}
use wire_probe.Main.{Surroundings, probes, main}
use wire_probe.Main.Laws.{main-IsProbing}

module _ (n : Numerics) (k : Errnos) (endian : Endian) (A : Arguments) where
  -- A process that comes to the loop of the probe aims first at the first address that the resolver
  -- gave. While its target is down, with as many rounds of five failed cycles as that answer has
  -- different addresses, each answered by the same addresses in any order: the loop ends, with
  -- stdout as its destination, or it goes on, and then the probe is aimed five times in a row at
  -- this address, then five times at each of the addresses behind it in the canonical order, and
  -- then at each of those in front of it.
  pub main_outage :
      (cx : Context A.S) (w : Surroundings) (export : ExportDst) (interval : Time.Duration)
      (s : Loop) (a : SocketAddr) (rest : List SocketAddr) (rounds : List Round)
      → w.resolver ≡ ok (a ∷ rest)
      → All IsDown rounds
      → Shuffles (a ∷ rest) (map (λ r. r.fresh) rounds)
      → length rounds ≡ length (canonical (a ∷ rest))
      → main n k A cx w ≡ probes export interval s
      → let (last, rs) = run_loop n endian export interval s (cycles_of rounds) in
        (front back : List SocketAddr) × (canonical (a ∷ rest) ≡ front ++ (a ∷ back))
        × (((export ≡ collectd_exec) × (last ≡ none))
            ⊎ ((s' : Loop) × (last ≡ some s')
                × (map (λ r. r.probed) rs ≡ five_each (a ∷ (back ++ front)))))
  main_outage cx w export interval s a rest rounds resolved down all full h =
      let p = main-IsProbing n k A cx w export interval s h in
      let host = hostname w.name_buf in
      let started =
        subst
          (λ r. start n export p.target_name p.az host interval r w.opening ≡ running p.warned s)
          resolved p.started in
      start_outage n endian export interval p.target_name p.az host a rest w.opening p.warned s
        rounds down all full started
