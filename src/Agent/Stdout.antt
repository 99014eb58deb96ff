-- ===== src/Agent/Stdout.antt =====
-- A whole run of `run_probe` of src/main.rs under the Exec plugin of collectd, where the lines go to
-- stdout.
use mathlib.Core.Option
use mathlib.Core.Path.{subst}
use wire_probe.Prelude.{
  ℕ, ◌≤◌, ◌≡◌, refl, sym, Bool, List, [], ◌∷◌, Text, Option, none, some, arith, All, inl, inr,
  Option-cases,
}
use wire_probe.Std.Net.{SocketAddr}
use wire_probe.Std.Io.{IoResult, ok, err}
use wire_probe.Std.Numbers.{u64_max}
use wire_probe.Std.Time
use wire_probe.External.{Numerics, IsNumerics}
use wire_probe.Cli.Types.{collectd_exec}
use wire_probe.Cli.Sanitize.{IsLabel}
use wire_probe.Probe.{Endian}
use wire_probe.Resolution.{adopt}
use wire_probe.Exporter
use wire_probe.Exporter.{Exporter, flushed, collectd}
use wire_probe.Exporter.Collectd
use wire_probe.Exporter.Collectd.{CollectdExporter, exec, wrote, Flushed}
use wire_probe.Exporter.Collectd.Reader.{read_putval}
use wire_probe.Agent.{
  Cycle, Loop, Report, interval_secs, send_probe, send_measured, conclude, cycle, run_loop,
}
use wire_probe.Agent.Start.{running, start, start_with, start-resolved}
use wire_probe.Agent.Points.{value_of, measured, cycle-read_putval}

-- Stdout takes the whole line, and the flush succeeds.
pub record IsTaken (c : Cycle) : Type 0 where
  pub written : c.answers.stream.write ≡ wrote
  pub flushes : c.answers.stream.flush ≡ ok tt

pub interval_secs-le : (interval : Time.Duration) → interval_secs interval ≤ u64_max
unfolding interval_secs
interval_secs-le interval = ground arith

module _ (n : Numerics) (endian : Endian) where
  -- An exporter to stdout whose lines carry these names.
  pub record IsExec (host target : Text) (k : ℕ) (exp : Exporter) : Type 0 where
    pub exporter : CollectdExporter
    pub is : exp ≡ collectd exporter
    pub to_stdout : exporter.dest ≡ exec
    pub labelled : exporter.prefix ≡ Collectd.build_prefix n host target k

  -- The line of one send, and what the exporter is afterwards.
  send_line-IsExec :
      (host target : Text) (k : ℕ) (e : CollectdExporter) (rtt : Option n.F64)
      (a : Collectd.Answers)
      → e.dest ≡ exec
      → e.prefix ≡ Collectd.build_prefix n host target k
      → a.write ≡ wrote
      → a.flush ≡ ok tt
      → let r = Collectd.send_line n e rtt a in
        (r.0.dest ≡ exec)
        × (r.0.prefix ≡ Collectd.build_prefix n host target k)
        × (r.1.result ≡ ok tt)
  unfolding Collectd.send_line Collectd.flush_line Collectd.format_line
  send_line-IsExec host target k e rtt a d p w f = ground arith

  sent-IsExec :
      (host target : Text) (k : ℕ) (s : Loop) (c : Cycle) (m : IoResult n.F64)
      → IsExec host target k s.exp
      → IsTaken c
      → IsExec host target k (send_measured n endian s c m).exp
        × ((send_measured n endian s c m).result ≡ ok tt)
  unfolding send_measured Exporter.send Exporter.send_failure Collectd.send Collectd.send_failure
  sent-IsExec host target k s c (ok rtt) x t =
      let f =
        send_line-IsExec host target k x.exporter (some rtt) c.answers.stream x.to_stdout x.labelled
          t.written t.flushes in
      rw x.is (record { exporter = _; is = refl; to_stdout = f.0; labelled = f.1 }, f.2)
  sent-IsExec host target k s c (err e) x t =
      let f =
        send_line-IsExec host target k x.exporter none c.answers.stream x.to_stdout x.labelled
          t.written t.flushes in
      rw x.is (record { exporter = _; is = refl; to_stdout = f.0; labelled = f.1 }, f.2)

  -- A cycle of which stdout takes the line goes on, with the same names.
  cycle-IsExec :
      (host target : Text) (k : ℕ) (interval : Time.Duration) (s : Loop) (c : Cycle)
      → IsExec host target k s.exp
      → IsTaken c
      → (s' : Loop) × ((cycle n endian collectd_exec interval s c).0 ≡ some s')
        × IsExec host target k s'.exp
  unfolding cycle conclude send_probe
  cycle-IsExec host target k interval s c x t =
      let sent = sent-IsExec host target k s c (measured n endian c) x t in
      elim (Option-cases (cycle n endian collectd_exec interval s c).0) [
        | inl e ↦ ground (arith, sent.1)
        | inr (s', e) ↦
            let same : (send_measured n endian s c (measured n endian c)).exp ≡ s'.exp =
              ground (arith, sent.1) in
            (s', e, subst (IsExec host target k) same sent.0)
      ]

  -- What a reader must find in the line of a cycle.
  abbrev pub IsRead : (host target : Text) (k : ℕ) → Cycle → Report → Type 0
  IsRead host target k c r =
      (f : Flushed) × (r.emitted ≡ flushed f)
      × (read_putval f.stdout
          ≡ some (
            record {
              host = host;
              target = target;
              interval = k;
              rtt_ms = Option.map n.ryu (value_of (measured n endian c));
            },
            [],
          ))

  -- One report for each cycle, each with the line of its cycle.
  abbrev pub AreRead : (host target : Text) (k : ℕ) → List Cycle → List Report → Type 0
  AreRead host target k [] [] = Unit
  AreRead host target k (c ∷ cs) (r ∷ rs) = IsRead host target k c r × AreRead host target k cs rs
  AreRead host target k [] (r ∷ rs) = ⊥
  AreRead host target k (c ∷ cs) [] = ⊥

  run_loop-AreRead :
      IsNumerics n
      → (host target : Text) (k : ℕ) (interval : Time.Duration) (cs : List Cycle) (s : Loop)
      → IsLabel host
      → IsLabel target
      → k ≤ u64_max
      → IsExec host target k s.exp
      → All IsTaken cs
      → AreRead host target k cs (run_loop n endian collectd_exec interval s cs).1
  unfolding run_loop
  run_loop-AreRead v host target k interval [] s lh lt small x all = tt
  run_loop-AreRead v host target k interval (c ∷ cs) s lh lt small x all =
      let (s1, e, x1) = cycle-IsExec host target k interval s c x all.0 in
      let r = (cycle n endian collectd_exec interval s c).1 in
      let rest = run_loop n endian collectd_exec interval s1 cs in
      let run : (run_loop n endian collectd_exec interval s (c ∷ cs)).1 ≡ r ∷ rest.1 =
        ground arith in
      let read =
        cycle-read_putval n endian v host target k collectd_exec interval s c x.exporter lh lt small
          x.is x.to_stdout x.labelled all.0.written in
      subst (AreRead host target k (c ∷ cs)) (sym run)
        (read, run_loop-AreRead v host target k interval cs s1 lh lt small x1 all.1)

  pub start_with-IsExec :
      (target az host : Text) (interval : Time.Duration) (fresh : List SocketAddr)
      (o : Exporter.Opening) (warned : Bool) (s : Loop)
      → start_with n collectd_exec target az host interval (adopt fresh) o ≡ running warned s
      → IsExec host target (interval_secs interval) s.exp
  unfolding start_with adopt Exporter.new Collectd.new_exec
  start_with-IsExec target az host interval [] o warned s h = cc
  start_with-IsExec target az host interval (a ∷ rest) o warned s h = ground arith

  -- In a probe that comes to its loop with stdout as its destination, under a host and a target
  -- that are labels, each cycle writes one PUTVAL line, as long as stdout takes whole lines and
  -- their flush. A reader of the documented format finds in it the host, the target, the announced
  -- seconds of the interval and the measured value as `ryu` writes it, or no value after a failed
  -- probe, and nothing behind them. The number formatters do what their crates document.
  pub start-AreRead_stdout :
      IsNumerics n
      → (target az host : Text) (interval : Time.Duration)
      → (answer : IoResult (List SocketAddr)) (o : Exporter.Opening) (warned : Bool) (s : Loop)
      → (cs : List Cycle) → IsLabel host
      → IsLabel target
      → All IsTaken cs
      → start n collectd_exec target az host interval answer o ≡ running warned s
      → AreRead host target
          (interval_secs interval)
          cs
          (run_loop n endian collectd_exec interval s cs).1
  start-AreRead_stdout v target az host interval answer o warned s cs lh lt all h =
      let (fresh, started) =
        start-resolved n collectd_exec target az host interval answer o warned s h in
      run_loop-AreRead v host target (interval_secs interval) interval cs s lh lt
        (interval_secs-le interval)
        (start_with-IsExec target az host interval fresh o warned s started) all
