-- ===== src/Agent/Laws.antt =====
-- One cycle of `run_probe` of src/main.rs: what it keeps, exports, asks and sleeps.
use mathlib.Core.Path.{subst}
use Prim.Native.Nat.{max}
use wire_probe.Prelude.{
  ◌+◌, ◌*◌, ◌<◌, ◌≤◌, ◌≡◌, ◌↔◌, ◌⊎◌, refl, Bool, true, false, ◌&&◌, List, [], ◌∷◌, none, some,
  if◌then◌else◌, arith, Option-cases, inl, inr,
}
use wire_probe.Std.Net.{SocketAddr}
use wire_probe.Std.Io.{broken_pipe, interrupted, not_found, would_block, os, IoResult, ok, err}
use wire_probe.Std.Time
use wire_probe.Std.Time.{
  as_nanos, as_millis, IsDuration, checked_sub, checked_sub-some, checked_sub-none,
}
use wire_probe.External.{Numerics}
use wire_probe.Cli.Types.{ExportDst, telegraf_udp, collectd_uds, collectd_exec}
use wire_probe.Cli.Parse.Limits.{AreTimes}
use wire_probe.Resolution.{Targets}
use wire_probe.Resolution.Laws.{IsTargets, apply_resolution-IsTargets}
use wire_probe.Probe.{Endian, measure_rtt}
use wire_probe.Agent.{
  Cycle, Loop, Report, count_down, is_fatal, interval_secs, rotate_resolved, rotate_target,
  send_probe, finish_cycle, conclude, cycle,
}

-- For every interval that the command line lets through, the seconds that PUTVAL announces are
-- between 1 and 86400. They are at most half a second below the interval, and at most half a second
-- above it or a whole second.
pub interval_secs_bounds :
    (interval timeout : Time.Duration)
    → AreTimes interval timeout
    → (1 ≤ interval_secs interval)
      × (interval_secs interval ≤ 86_400)
      × (interval_secs interval * 1000 ≤ max (as_millis interval + 500) 1000)
      × (as_millis interval ≤ interval_secs interval * 1000 + 500)
unfolding interval_secs
interval_secs_bounds interval timeout v =
    ground (
      arith, v.interval_min, v.interval_max, v.interval_whole.valid.carried, v.interval_whole.whole,
    )

-- The invariant of the loop.
pub record IsLoop (s : Loop) : Type 0 where
  pub targets : IsTargets s.targets
  pub counting : 1 ≤ s.failures_until_reresolve
  pub counted : s.failures_until_reresolve ≤ 5

-- A measurement fails exactly if the connection does.
abbrev pub failed : Cycle → Bool
failed c = elim c.connected [ ok u ↦ false | err e ↦ true ]

rotate_target-IsTargets :
    (t : Targets) (answer : IoResult (List SocketAddr))
    → IsTargets t
    → IsTargets (rotate_target t answer).0
unfolding rotate_target rotate_resolved
rotate_target-IsTargets t (err e) v = v
rotate_target-IsTargets t (ok []) v = v
rotate_target-IsTargets t (ok (a ∷ rest)) v = apply_resolution-IsTargets t (a ∷ rest) v

is_fatal_iff :
    (export : ExportDst) (result : IoResult (Unit {0}))
    → (is_fatal export result ≡ true) ↔ ((export ≡ collectd_exec) × (result ≡ err broken_pipe))
is_fatal_iff export (ok u) = (λ h. cc, λ h. cc)
is_fatal_iff (telegraf_udp addr) (err e) = (λ h. ground arith, λ h. cc)
is_fatal_iff (collectd_uds path) (err e) = (λ h. ground arith, λ h. cc)
is_fatal_iff collectd_exec (err broken_pipe) = (λ h. (refl, refl), λ h. refl)
is_fatal_iff collectd_exec (err interrupted) = (λ h. cc, λ h. cc)
is_fatal_iff collectd_exec (err not_found) = (λ h. cc, λ h. cc)
is_fatal_iff collectd_exec (err would_block) = (λ h. cc, λ h. cc)
is_fatal_iff collectd_exec (err (os errno)) = (λ h. cc, λ h. cc)

module _ (n : Numerics) (endian : Endian) where
  -- The target and the counter after a cycle that goes on.
  abbrev pub moved_targets : Bool → Targets → Cycle → Targets
  moved_targets asked t c = if asked then (rotate_target t c.resolver).0 else t

  moved_targets-IsTargets :
      (asked : Bool) (t : Targets) (c : Cycle) → IsTargets t → IsTargets (moved_targets asked t c)
  moved_targets-IsTargets true t c v = rotate_target-IsTargets t c.resolver v
  moved_targets-IsTargets false t c v = v

  pub send_probe_lem :
      (s : Loop) (c : Cycle)
      → let sent = send_probe n endian s c in
        (sent.counter ≡ (if failed c then (count_down s.failures_until_reresolve).0 else 5))
        × (sent.asked ≡ (failed c && (count_down s.failures_until_reresolve).1))
        × (sent.targets ≡ moved_targets sent.asked s.targets c)
  unfolding send_probe measure_rtt
  send_probe_lem s c = ground arith

  -- A cycle that goes on keeps the invariant: the address in use is on the canonical list, and the
  -- countdown is between one and five.
  pub cycle-IsLoop :
      (export : ExportDst) (interval : Time.Duration) (s s' : Loop) (c : Cycle) (r : Report)
      → IsLoop s
      → cycle n endian export interval s c ≡ (some s', r)
      → IsLoop s'
  unfolding cycle conclude
  cycle-IsLoop export interval s s' c r v h =
      let sent = send_probe n endian s c in
      let facts = send_probe_lem s c in
      let e : sent.targets ≡ s'.targets = ground arith in
      record {
        targets =
            subst IsTargets e
              (rw facts.2 (moved_targets-IsTargets sent.asked s.targets c v.targets));
        counting = ground (arith, facts.0, v.counting);
        counted = ground (arith, facts.0, v.counted);
      }

  -- The loop is left exactly when the destination is stdout and writing to it found the pipe
  -- closed.
  pub cycle_returns :
      (export : ExportDst) (interval : Time.Duration) (s : Loop) (c : Cycle)
      → ((cycle n endian export interval s c).0 ≡ none)
        ↔ ((export ≡ collectd_exec) × ((send_probe n endian s c).result ≡ err broken_pipe))
  unfolding cycle conclude
  cycle_returns export interval s c =
      let sent = send_probe n endian s c in
      let (to, from) = is_fatal_iff export sent.result in
      (λ h. to (ground arith), λ h. ground (arith, from h))

  -- A cycle that goes on sleeps out its interval exactly and leaves the latch as it was, or does
  -- not sleep if it took longer, and has the latch set. The durations keep the invariant of their
  -- type.
  pub cycle_pacing :
      (export : ExportDst) (interval : Time.Duration) (s s' : Loop) (c : Cycle) (r : Report)
      → IsDuration interval
      → IsDuration c.elapsed
      → cycle n endian export interval s c ≡ (some s', r)
      → ((d : Time.Duration) × (r.slept ≡ some d)
          × (as_nanos c.elapsed + as_nanos d ≡ as_nanos interval)
          × (s'.overran ≡ s.overran))
        ⊎ ((r.slept ≡ none) × (as_nanos interval < as_nanos c.elapsed) × (s'.overran ≡ true))
  unfolding cycle conclude finish_cycle
  cycle_pacing export interval s s' c r vi ve h =
      elim (Option-cases (checked_sub interval c.elapsed)) [
        | inl e ↦ inr (ground arith, (checked_sub-none interval c.elapsed vi ve).0 e, ground arith)
        | inr (d, e) ↦
            let exact = (checked_sub-some interval c.elapsed d vi ve e).1 in
            inl (d, ground arith, omega arith, ground arith)
      ]
