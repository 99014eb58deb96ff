-- ===== src/Agent/Down.antt =====
-- A probe of src/main.rs whose target is down from the start.
use mathlib.Core.Path.{subst}
use wire_probe.Prelude.{
  ◌≡◌, ◌⊎◌, inl, inr, sym, ap, ◌∙◌, List, [], ◌∷◌, ◌++◌, map, none, some, Text, Bool, All, arith,
  length,
}
use wire_probe.Std.Net.{SocketAddr, addr_ord}
use wire_probe.Std.Io.{ok}
use wire_probe.Std.Sort.Position.{contains-append}
use wire_probe.Std.Time
use wire_probe.External.{Numerics}
use wire_probe.Cli.Types.{ExportDst, collectd_exec}
use wire_probe.Probe.{Endian}
use wire_probe.Exporter
use wire_probe.Resolution.{adopt}
use wire_probe.Resolution.Laws.{IsTargets, canonical, canonical-SameElements, adopted-IsTargets}
use wire_probe.Resolution.Rounds.{Shuffles}
use wire_probe.Agent.{Loop, resolve, run_loop}
use wire_probe.Agent.Start.{running, start, start_with}
use wire_probe.Agent.Outage.{Round, IsDown, cycles_of, five_each, run_loop_outage}

canonical-Shuffles :
    (fresh : List SocketAddr) (fs : List (List SocketAddr))
    → Shuffles fresh fs
    → Shuffles (canonical fresh) fs
canonical-Shuffles fresh [] h = tt
canonical-Shuffles fresh (f ∷ fs) h =
    (λ a. h.0 a ∙ sym (canonical-SameElements fresh a), canonical-Shuffles fresh fs h.1)

module _ (n : Numerics) (endian : Endian) (export : ExportDst) (interval : Time.Duration) where
  -- The targets and the countdown with which a probe begins.
  start-first :
      (target az host : Text) (a : SocketAddr) (rest : List SocketAddr) (o : Exporter.Opening)
      (warned : Bool) (s : Loop)
      → start n export target az host interval (ok (a ∷ rest)) o ≡ running warned s
      → (record { addrs = canonical (a ∷ rest); current = a } ≡ s.targets)
        × (s.failures_until_reresolve ≡ 5)
  unfolding start start_with resolve adopt
  start-first target az host a rest o warned s h = (ground arith, ground arith)

  -- From its start, a probe whose target is down goes through all addresses of the first answer.
  pub start_outage :
      (target az host : Text) (a : SocketAddr) (rest : List SocketAddr) (o : Exporter.Opening)
      (warned : Bool) (s : Loop) (rounds : List Round)
      → All IsDown rounds
      → Shuffles (a ∷ rest) (map (λ r. r.fresh) rounds)
      → length rounds ≡ length (canonical (a ∷ rest))
      → start n export target az host interval (ok (a ∷ rest)) o ≡ running warned s
      → let (last, rs) = run_loop n endian export interval s (cycles_of rounds) in
        (front back : List SocketAddr) × (canonical (a ∷ rest) ≡ front ++ (a ∷ back))
        × (((export ≡ collectd_exec) × (last ≡ none))
            ⊎ ((s' : Loop) × (last ≡ some s')
                × (map (λ r. r.probed) rs ≡ five_each (a ∷ (back ++ front)))))
  start_outage target az host a rest o warned s rounds down all full h =
      let (first, counter) = start-first target az host a rest o warned s h in
      let here = adopted-IsTargets a rest in
      let (front, back, split) = contains-append a (canonical (a ∷ rest)) here.listed in
      let shuffled = canonical-Shuffles (a ∷ rest) (map (λ r. r.fresh) rounds) all in
      let addrs = ap (λ t. t.addrs) first in
      let current = ap (λ t. t.current) first in
      let outage =
        run_loop_outage n endian export interval rounds s front back counter
          (subst IsTargets first here) down
          (subst (λ l. Shuffles l (map (λ r. r.fresh) rounds)) addrs shuffled)
          (full ∙ ap length addrs) (sym addrs ∙ (split ∙ ap (λ x. front ++ (x ∷ back)) current)) in
      (
        front,
        back,
        split,
        elim outage [
          | inl ended ↦ inl ended
          | inr (s', goes_on, probes) ↦
              inr (s', goes_on, probes ∙ ap (λ x. five_each (x ∷ (back ++ front))) (sym current))
        ],
      )
