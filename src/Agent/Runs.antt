-- ===== src/Agent/Runs.antt =====
-- Several cycles of `run_probe` of src/main.rs in a row: when the resolver is asked, and how often
-- the overrun is reported.
use mathlib.Core.Path.{ap₂}
use wire_probe.Prelude.{
  ℕ, ◌+◌, ◌%◌, ◌≤◌, ◌≡◌, refl, Bool, ◌&&◌, List, [], ◌∷◌, ◌++◌, map, Option, none, some,
  if◌then◌else◌, ◌==◌, arith, Option-cases, inl, inr,
}
use wire_probe.Std.Net.{SocketAddr}
use wire_probe.Std.Io.{IoResult, ok, err}
use wire_probe.Std.Time
use wire_probe.External.{Numerics}
use wire_probe.Cli.Types.{ExportDst, collectd_exec}
use wire_probe.Probe.{Endian}
use wire_probe.Resolution.{Targets}
use wire_probe.Agent.{
  Cycle, Loop, Report, Log, cycle_overran, now_resolves_to, trying_next, reresolving_failed,
  probe_error, stdout_closed, export_error, export_logs, resolve, rotate_resolved, send_measured,
  send_probe, finish_cycle, conclude, cycle, run_loop, rotate_target,
}
use wire_probe.Agent.Laws.{cycle_returns, failed, moved_targets, send_probe_lem}

-- The failures in a row up to and with a cycle, after `k` before it.
abbrev pub streak_after : ℕ → Cycle → ℕ
streak_after k c = if failed c then k + 1 else 0

-- When the resolver should be asked: at each fifth failure in a row.
abbrev pub expected_asks : ℕ → List Cycle → List Bool
expected_asks k [] = []
expected_asks k (c ∷ cs) =
    (failed c && (streak_after k c % 5 == 0)) ∷ expected_asks (streak_after k c) cs

-- The countdown after `k` failures in a row.
abbrev pub Counts : ℕ → Loop → Type 0
Counts k s = s.failures_until_reresolve + k % 5 ≡ 5

module _ (n : Numerics) (endian : Endian) where
  -- Only the Exec plugin's destination lets the loop end.
  pub run_loop-exec :
      (export : ExportDst) (interval : Time.Duration) (cs : List Cycle) (s : Loop)
      → (run_loop n endian export interval s cs).0 ≡ none
      → export ≡ collectd_exec
  unfolding run_loop
  run_loop-exec export interval [] s h = cc
  run_loop-exec export interval (c ∷ cs) s h =
      elim (Option-cases (cycle n endian export interval s c).0) [
        | inl e ↦ ((cycle_returns n endian export interval s c).0 e).0
        | inr (s1, e) ↦ run_loop-exec export interval cs s1 (ground arith)
      ]

module _ (n : Numerics) (endian : Endian) (export : ExportDst) (interval : Time.Duration) where
  -- A run that goes on past its first cycle.
  pub run_loop_cons :
      (s s' : Loop) (c : Cycle) (cs : List Cycle) (rs : List Report)
      → run_loop n endian export interval s (c ∷ cs) ≡ (some s', rs)
      → (s1 : Loop) × (r : Report) × (rest : List Report) × (cycle n endian export interval s c
          ≡ (some s1, r))
        × (run_loop n endian export interval s1 cs ≡ (some s', rest))
        × (rs ≡ r ∷ rest)
  unfolding run_loop
  run_loop_cons s s' c cs rs h = elim (Option-cases (cycle n endian export interval s c).0) [
    | inl e ↦ ground arith
    | inr (s1, e) ↦
        let r = (cycle n endian export interval s c).1 in
        let rest = (run_loop n endian export interval s1 cs).1 in
        (s1, r, rest, ground arith, ground arith, ground arith)
  ]

  pub cycle_counts :
      (s s' : Loop) (c : Cycle) (r : Report) (k : ℕ)
      → Counts k s
      → cycle n endian export interval s c ≡ (some s', r)
      → Counts (streak_after k c) s'
        × (r.asked ≡ (failed c && (streak_after k c % 5 == 0)))
        × (s'.targets ≡ moved_targets n endian r.asked s.targets c)
  unfolding cycle conclude
  cycle_counts s s' c r k v h = ground (arith, send_probe_lem n endian s c, v)

  -- Over a run that is not left, from a countdown that stands for `k` failures in a row, the
  -- resolver is asked at every fifth failure in a row and at no other cycle, where a success starts
  -- the count anew.
  pub run_loop_asks :
      (cs : List Cycle) (s s' : Loop) (k : ℕ) (rs : List Report)
      → Counts k s
      → run_loop n endian export interval s cs ≡ (some s', rs)
      → map (λ r. r.asked) rs ≡ expected_asks k cs
  unfolding run_loop
  run_loop_asks [] s s' k rs v h = ground arith
  run_loop_asks (c ∷ cs) s s' k rs v h =
      let (s1, r, rest, first, later, whole) = run_loop_cons s s' c cs rs h in
      let counts = cycle_counts s s1 c r k v first in
      rw whole (ap₂ ◌∷◌ counts.1 (run_loop_asks cs s1 s' (streak_after k c) rest counts.0 later))

-- How often the overrun is reported.
abbrev overran_logs : List Log → ℕ
overran_logs [] = 0
overran_logs (cycle_overran e i ∷ logs) = overran_logs logs + 1
overran_logs (now_resolves_to addrs ∷ logs) = overran_logs logs
overran_logs (trying_next a ∷ logs) = overran_logs logs
overran_logs (reresolving_failed e ∷ logs) = overran_logs logs
overran_logs (probe_error e ∷ logs) = overran_logs logs
overran_logs (stdout_closed ∷ logs) = overran_logs logs
overran_logs (export_error e ∷ logs) = overran_logs logs

abbrev pub overran_reports : List Report → ℕ
overran_reports [] = 0
overran_reports (r ∷ rs) = overran_logs r.logs + overran_reports rs

overran_logs-append : (a b : List Log) → overran_logs (a ++ b) ≡ overran_logs a + overran_logs b
overran_logs-append [] b = omega arith
overran_logs-append (cycle_overran e i ∷ a) b = omega (arith, overran_logs-append a b)
overran_logs-append (now_resolves_to addrs ∷ a) b = overran_logs-append a b
overran_logs-append (trying_next x ∷ a) b = overran_logs-append a b
overran_logs-append (reresolving_failed e ∷ a) b = overran_logs-append a b
overran_logs-append (probe_error e ∷ a) b = overran_logs-append a b
overran_logs-append (stdout_closed ∷ a) b = overran_logs-append a b
overran_logs-append (export_error e ∷ a) b = overran_logs-append a b

-- One more report is possible as long as the latch is open.
abbrev pub room : Bool → ℕ
room overran = if overran then 0 else 1

rotate_resolved_silent :
    (t : Targets) (r : IoResult (List SocketAddr)) → overran_logs (rotate_resolved t r).1 ≡ 0
unfolding rotate_resolved
rotate_resolved_silent t (ok fresh) = ground arith
rotate_resolved_silent t (err e) = refl

rotate_target_silent :
    (t : Targets) (answer : IoResult (List SocketAddr))
    → overran_logs (rotate_target t answer).1 ≡ 0
unfolding rotate_target
rotate_target_silent t answer = rotate_resolved_silent t (resolve answer)

export_logs_silent : (r : IoResult (Unit {0})) → overran_logs (export_logs r) ≡ 0
export_logs_silent (ok u) = refl
export_logs_silent (err e) = refl

finish_cycle_latch :
    (interval elapsed : Time.Duration) (overran : Bool)
    → let end = finish_cycle interval elapsed overran in
      overran_logs end.2 + room end.1 ≤ room overran
unfolding finish_cycle
finish_cycle_latch interval elapsed overran = ground arith

module _ (n : Numerics) (endian : Endian) (export : ExportDst) (interval : Time.Duration) where
  send_probe_silent : (s : Loop) (c : Cycle) → overran_logs (send_probe n endian s c).logs ≡ 0
  unfolding send_probe send_measured
  send_probe_silent s c = ground (arith, rotate_target_silent s.targets c.resolver)

  latch_of : Option Loop → ℕ
  latch_of none = 0
  latch_of (some s) = room s.overran

  cycle_latch :
      (s : Loop) (c : Cycle)
      → let (next, r) = cycle n endian export interval s c in
        overran_logs r.logs + latch_of next ≤ room s.overran
  unfolding cycle conclude latch_of
  cycle_latch s c =
      let sent = send_probe n endian s c in
      let end = finish_cycle interval c.elapsed s.overran in
      ground (
        arith,
        send_probe_silent s c,
        overran_logs-append sent.logs (stdout_closed ∷ []),
        overran_logs-append sent.logs (export_logs sent.result ++ end.2),
        overran_logs-append (export_logs sent.result) end.2,
        export_logs_silent sent.result,
        finish_cycle_latch interval c.elapsed s.overran,
      )

  -- However long it runs and however its cycles go, the loop reports at most one overrun, and none
  -- if the latch was set before.
  pub run_loop_reports :
      (cs : List Cycle) (s : Loop)
      → overran_reports (run_loop n endian export interval s cs).1 ≤ room s.overran
  unfolding run_loop latch_of
  run_loop_reports [] s = omega arith
  run_loop_reports (c ∷ cs) s = elim (Option-cases (cycle n endian export interval s c).0) [
    | inl e ↦ ground (arith, cycle_latch s c)
    | inr (s1, e) ↦ ground (arith, cycle_latch s c, run_loop_reports cs s1)
  ]
