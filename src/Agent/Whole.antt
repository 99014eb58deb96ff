-- ===== src/Agent/Whole.antt =====
-- A whole run of `run_probe` of src/main.rs, from the first resolution to the last cycle.
use mathlib.Core.Option
use mathlib.Core.Path.{subst}
use wire_probe.Prelude.{
  ◌≡◌, refl, sym, Bool, List, [], ◌∷◌, Text, Bytes, some, arith, inl, inr, Option-cases,
}
use wire_probe.Std.Net.{SocketAddr}
use wire_probe.Std.Io.{IoResult}
use wire_probe.Std.Time
use wire_probe.External.{Numerics, IsNumerics}
use wire_probe.Cli.Types.{ExportDst, telegraf_udp}
use wire_probe.Cli.Sanitize.{IsLabel}
use wire_probe.Probe.{Endian}
use wire_probe.Resolution.{adopt}
use wire_probe.Resolution.Laws.{IsTargets, canonical, adopted-IsTargets}
use wire_probe.Exporter
use wire_probe.Exporter.{Emitted, datagram, telegraf}
use wire_probe.Exporter.Telegraf
use wire_probe.Exporter.Telegraf.Reader.{read_point}
use wire_probe.Agent.Start.{running, start, start_with, start-resolved}
use wire_probe.Agent.{Cycle, Loop, Report, timestamp_ns, cycle, run_loop}
use wire_probe.Agent.Laws.{IsLoop, cycle-IsLoop, cycle_returns}
use wire_probe.Agent.Points.{IsTelegraf, value_of, measured, cycle-read_point, cycle-IsTelegraf}

module _ (n : Numerics) (endian : Endian) where
  pub start_with-IsLoop :
      (export : ExportDst) (target az host : Text) (interval : Time.Duration)
      (fresh : List SocketAddr) (o : Exporter.Opening) (warned : Bool) (s : Loop)
      → start_with n export target az host interval (adopt fresh) o ≡ running warned s
      → IsLoop s
  unfolding start_with adopt
  start_with-IsLoop export target az host interval [] o warned s h = cc
  start_with-IsLoop export target az host interval (a ∷ rest) o warned s h =
      let e : record { addrs = canonical (a ∷ rest); current = a } ≡ s.targets = ground arith in
      record {
        targets = subst IsTargets e (adopted-IsTargets a rest);
        counting = ground arith;
        counted = ground arith;
      }

  start_with-IsTelegraf :
      (addr : Text) (target az host : Text) (interval : Time.Duration) (fresh : List SocketAddr)
      (o : Exporter.Opening) (warned : Bool) (s : Loop)
      → start_with n (telegraf_udp addr) target az host interval (adopt fresh) o ≡ running warned s
      → IsTelegraf target az s.exp
  unfolding start_with adopt Exporter.new Telegraf.new
  start_with-IsTelegraf addr target az host interval [] o warned s h = cc
  start_with-IsTelegraf addr target az host interval (a ∷ rest) o warned s h = ground arith

  -- The first cycle of a run, and the later ones, for an exporter that never ends the loop.
  udp_goes_on :
      (addr : Text) (interval : Time.Duration) (s : Loop) (c : Cycle)
      → (s' : Loop) × ((cycle n endian (telegraf_udp addr) interval s c).0 ≡ some s')
  udp_goes_on addr interval s c =
      elim (Option-cases (cycle n endian (telegraf_udp addr) interval s c).0) [
        | inl e ↦ cc ((cycle_returns n endian (telegraf_udp addr) interval s c).0 e).0
        | inr found ↦ found
      ]

  -- What a reader must find in the datagram of a cycle.
  abbrev pub IsRead : (target az : Text) → Cycle → Report → Type 0
  IsRead target az c r =
      (line : Bytes) × (r.emitted ≡ datagram line)
      × (read_point line
          ≡ some (
            record {
              target = target;
              az = az;
              rtt_ms = Option.map n.ryu (value_of (measured n endian c));
              ts_ns = timestamp_ns c.since_epoch;
            },
            [],
          ))

  -- One report for each cycle, each with the datagram of its cycle.
  abbrev pub AreRead : (target az : Text) → List Cycle → List Report → Type 0
  AreRead target az [] [] = Unit
  AreRead target az (c ∷ cs) (r ∷ rs) = IsRead target az c r × AreRead target az cs rs
  AreRead target az [] (r ∷ rs) = ⊥
  AreRead target az (c ∷ cs) [] = ⊥

  run_loop-AreRead :
      IsNumerics n
      → (target az addr : Text) (interval : Time.Duration) (cs : List Cycle) (s : Loop)
      → IsLabel target
      → IsLabel az
      → IsTelegraf target az s.exp
      → IsLoop s
      → let (last, rs) = run_loop n endian (telegraf_udp addr) interval s cs in
        AreRead target az cs rs × ((s' : Loop) × (last ≡ some s') × IsLoop s')
  unfolding run_loop
  run_loop-AreRead v target az addr interval [] s lt lz t l = (tt, (s, refl, l))
  run_loop-AreRead v target az addr interval (c ∷ cs) s lt lz t l =
      let (s1, e) = udp_goes_on addr interval s c in
      let export = telegraf_udp addr in
      let r = (cycle n endian export interval s c).1 in
      let whole : cycle n endian export interval s c ≡ (some s1, r) = ground arith in
      let t1 = cycle-IsTelegraf n endian target az export interval s s1 c r t whole in
      let l1 = cycle-IsLoop n endian export interval s s1 c r l whole in
      let later = run_loop-AreRead v target az addr interval cs s1 lt lz t1 l1 in
      let read = cycle-read_point n endian v target az export interval s c lt lz t in
      let rest = run_loop n endian export interval s1 cs in
      let run : run_loop n endian export interval s (c ∷ cs) ≡ (rest.0, r ∷ rest.1) =
        ground arith in
      subst (λ p. AreRead target az (c ∷ cs) p.1 × ((s' : Loop) × (p.0 ≡ some s') × IsLoop s'))
        (sym run) ((read, later.0), later.1)

  -- A probe that comes to its loop with a Telegraf destination and two labels stays in the loop,
  -- whatever its cycles meet. After them the address in use is on the canonical list and the
  -- countdown is between one and five. Each cycle hands one datagram to the socket, in which a
  -- reader of the documented format finds the two labels, the measured value as `ryu` writes it or
  -- none after a failed probe, and the time of that cycle, and nothing behind them. The number
  -- formatters do what their crates document.
  pub start-AreRead :
      IsNumerics n
      → (target az host addr : Text) (interval : Time.Duration)
      → (answer : IoResult (List SocketAddr)) (o : Exporter.Opening) (warned : Bool) (s : Loop)
      → (cs : List Cycle) → IsLabel target
      → IsLabel az
      → start n (telegraf_udp addr) target az host interval answer o ≡ running warned s
      → let (last, rs) = run_loop n endian (telegraf_udp addr) interval s cs in
        AreRead target az cs rs × ((s' : Loop) × (last ≡ some s') × IsLoop s')
  start-AreRead v target az host addr interval answer o warned s cs lt lz h =
      let (fresh, started) =
        start-resolved n (telegraf_udp addr) target az host interval answer o warned s h in
      run_loop-AreRead v target az addr interval cs s lt lz
        (start_with-IsTelegraf addr target az host interval fresh o warned s started)
        (start_with-IsLoop (telegraf_udp addr) target az host interval fresh o warned s started)
