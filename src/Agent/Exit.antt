-- ===== src/Agent/Exit.antt =====
-- How the loop of `run_probe` of src/main.rs ends under the Exec plugin of collectd.
use mathlib.Core.Path.{subst}
use wire_probe.Prelude.{
  ℕ, ◌+◌, ◌≡◌, ◌↔◌, refl, Bool, true, false, ◌||◌, List, [], ◌∷◌, Text, Option, none, some, arith,
  inl, inr, Option-cases, if◌then◌else◌, length,
}
use wire_probe.Std.Net.{SocketAddr}
use wire_probe.Std.Io.{IoResult, ok, err}
use wire_probe.Std.Time
use wire_probe.External.{Numerics}
use wire_probe.Cli.Types.{collectd_exec}
use wire_probe.Probe.{Endian}
use wire_probe.Exporter
use wire_probe.Exporter.{Exporter, collectd}
use wire_probe.Exporter.Collectd
use wire_probe.Exporter.Collectd.{CollectdExporter, exec, wrote, failed_after, Answers}
use wire_probe.Agent.{
  Cycle, Loop, is_broken_pipe, send_probe, send_measured, conclude, cycle, run_loop,
}
use wire_probe.Agent.Start.{running, start, start-resolved}
use wire_probe.Agent.Stdout.{start_with-IsExec}
use wire_probe.Agent.Points.{measured}

-- What a line to stdout comes to.
abbrev pub stdout_result : Answers → IoResult (Unit {0})
stdout_result a = elim a.write [ wrote ↦ a.flush | failed_after k e ↦ err e ]

-- Stdout is found closed, by the write or by the flush.
abbrev pub finds_closed : Cycle → Bool
finds_closed c = elim (stdout_result c.answers.stream) [ ok u ↦ false | err e ↦ is_broken_pipe e ]

abbrev pub any_closed : List Cycle → Bool
any_closed [] = false
any_closed (c ∷ cs) = finds_closed c || any_closed cs

-- The cycles up to and with the first that finds stdout closed.
abbrev pub cycles_run : List Cycle → ℕ
cycles_run [] = 0
cycles_run (c ∷ cs) = if finds_closed c then 1 else cycles_run cs + 1

-- An exporter to stdout.
pub record IsStdout (exp : Exporter) : Type 0 where
  pub exporter : CollectdExporter
  pub is : exp ≡ collectd exporter
  pub to_stdout : exporter.dest ≡ exec

module _ (n : Numerics) (endian : Endian) where
  send_line-stdout :
      (e : CollectdExporter) (v : Option n.F64) (a : Answers)
      → e.dest ≡ exec
      → let r = Collectd.send_line n e v a in (r.0.dest ≡ exec) × (r.1.result ≡ stdout_result a)
  unfolding Collectd.send_line Collectd.flush_line Collectd.format_line
  send_line-stdout e v a d = ground arith

  sent-IsStdout :
      (s : Loop) (c : Cycle) (m : IoResult n.F64)
      → IsStdout s.exp
      → IsStdout (send_measured n endian s c m).exp
        × ((send_measured n endian s c m).result ≡ stdout_result c.answers.stream)
  unfolding send_measured Exporter.send Exporter.send_failure Collectd.send Collectd.send_failure
  sent-IsStdout s c (ok rtt) x =
      let f = send_line-stdout x.exporter (some rtt) c.answers.stream x.to_stdout in
      rw x.is (record { exporter = _; is = refl; to_stdout = f.0 }, f.1)
  sent-IsStdout s c (err e) x =
      let f = send_line-stdout x.exporter none c.answers.stream x.to_stdout in
      rw x.is (record { exporter = _; is = refl; to_stdout = f.0 }, f.1)

  -- A cycle ends the loop exactly if it finds stdout closed.
  cycle_exits :
      (interval : Time.Duration) (s : Loop) (c : Cycle)
      → IsStdout s.exp
      → ((cycle n endian collectd_exec interval s c).0 ≡ none) ↔ (finds_closed c ≡ true)
  unfolding cycle conclude send_probe
  cycle_exits interval s c x =
      let sent = sent-IsStdout s c (measured n endian c) x in
      (λ h. ground (arith, sent.1), λ h. ground (arith, sent.1))

  cycle-IsStdout :
      (interval : Time.Duration) (s s' : Loop) (c : Cycle)
      → IsStdout s.exp
      → (cycle n endian collectd_exec interval s c).0 ≡ some s'
      → IsStdout s'.exp
  unfolding cycle conclude send_probe
  cycle-IsStdout interval s s' c x h =
      let sent = sent-IsStdout s c (measured n endian c) x in
      let same : (send_measured n endian s c (measured n endian c)).exp ≡ s'.exp = ground arith in
      subst IsStdout same sent.0

  run_loop_exits :
      (interval : Time.Duration) (cs : List Cycle) (s : Loop)
      → IsStdout s.exp
      → let (last, rs) = run_loop n endian collectd_exec interval s cs in
        ((last ≡ none) ↔ (any_closed cs ≡ true)) × (length rs ≡ cycles_run cs)
  unfolding run_loop
  run_loop_exits interval [] s x = ((λ h. cc, λ h. cc), refl)
  run_loop_exits interval (c ∷ cs) s x =
      elim (Option-cases (cycle n endian collectd_exec interval s c).0) [
        | inl e ↦
            let closed = (cycle_exits interval s c x).0 e in
            ((λ h. ground arith, λ h. ground arith), ground arith)
        | inr (s1, e) ↦
            let later = run_loop_exits interval cs s1 (cycle-IsStdout interval s s1 c x e) in
            let goes_on : finds_closed c ≡ false = ground (arith, (cycle_exits interval s c x).1) in
            (
              (λ h. ground (arith, later.0.0), λ h. ground (arith, later.0.1)),
              ground (arith, later.1),
            )
      ]

  -- In a probe that comes to its loop with stdout as its destination, the loop has ended exactly if
  -- one of its cycles found stdout closed, by the write or by the flush, and it has run the cycles
  -- up to and with the first that did.
  pub start_exits :
      (target az host : Text) (interval : Time.Duration)
      → (answer : IoResult (List SocketAddr)) (o : Exporter.Opening) (warned : Bool) (s : Loop)
      → (cs : List Cycle)
      → start n collectd_exec target az host interval answer o ≡ running warned s
      → let (last, rs) = run_loop n endian collectd_exec interval s cs in
        ((last ≡ none) ↔ (any_closed cs ≡ true)) × (length rs ≡ cycles_run cs)
  start_exits target az host interval answer o warned s cs h =
      let (fresh, started) =
        start-resolved n collectd_exec target az host interval answer o warned s h in
      let x = start_with-IsExec n endian target az host interval fresh o warned s started in
      run_loop_exits interval cs s
        (record { exporter = x.exporter; is = x.is; to_stdout = x.to_stdout })
