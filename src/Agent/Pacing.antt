-- ===== src/Agent/Pacing.antt =====
-- How long a run of `run_probe` of src/main.rs takes: its cycles and the sleeps between them.
use wire_probe.Prelude.{
  ℕ, suc, ◌+◌, ◌*◌, ◌≤◌, ◌≡◌, ◌∙◌, true, false, List, [], ◌∷◌, Option, none, some, arith, All,
  length, inl, inr,
}
use wire_probe.Std.Time
use wire_probe.Std.Time.{as_nanos, IsDuration}
use wire_probe.External.{Numerics}
use wire_probe.Cli.Types.{ExportDst}
use wire_probe.Probe.{Endian}
use wire_probe.Agent.{Cycle, Loop, Report, run_loop}
use wire_probe.Agent.Laws.{cycle_pacing}
use wire_probe.Agent.Runs.{run_loop_cons}

-- Nanoseconds.
abbrev pub elapsed_time : List Cycle → ℕ
elapsed_time [] = 0
elapsed_time (c ∷ cs) = as_nanos c.elapsed + elapsed_time cs

abbrev slept_nanos : Option Time.Duration → ℕ
slept_nanos none = 0
slept_nanos (some d) = as_nanos d

abbrev pub slept_time : List Report → ℕ
slept_time [] = 0
slept_time (r ∷ rs) = slept_nanos r.slept + slept_time rs

-- One more cycle, of at least one interval or of exactly one.
le_of_eq : (a b : ℕ) → a ≡ b → b ≤ a
le_of_eq a b h = omega arith

longer_lem : (k i e d es ss : ℕ) → k * i ≤ es + ss → i ≤ e + d → suc k * i ≤ (e + es) + (d + ss)
longer_lem k i e d es ss h l = omega arith

exact_lem : (k i e d es ss : ℕ) → es + ss ≡ k * i → e + d ≡ i → (e + es) + (d + ss) ≡ suc k * i
exact_lem k i e d es ss h l = omega arith

module _ (n : Numerics) (endian : Endian) (export : ExportDst) (interval : Time.Duration) where
  -- A run that is not left takes at least as many intervals as it has cycles, its cycles and its
  -- sleeps together, and exactly so many if the latch of the overrun is not set at its end. A latch
  -- that is set stays set. The durations keep the invariant of their type.
  pub run_loop_pacing :
      (cs : List Cycle) (s s' : Loop) (rs : List Report)
      → IsDuration interval
      → All (λ c. IsDuration c.elapsed) cs
      → run_loop n endian export interval s cs ≡ (some s', rs)
      → (length cs * as_nanos interval ≤ elapsed_time cs + slept_time rs)
        × (s.overran ≡ true → s'.overran ≡ true)
        × (s'.overran ≡ false → elapsed_time cs + slept_time rs ≡ length cs * as_nanos interval)
  unfolding run_loop
  run_loop_pacing [] s s' rs v all h = ground arith
  run_loop_pacing (c ∷ cs) s s' rs v all h =
      let (s1, r, rest, first, later, whole) =
        run_loop_cons n endian export interval s s' c cs rs h in
      let ih = run_loop_pacing cs s1 s' rest v all.1 later in
      elim (cycle_pacing n endian export interval s s1 c r v all.0 first) [
        | inl (d, slept, exact, latch) ↦
            rw (whole, slept)
              (
                longer_lem (length cs) _ _ (as_nanos d) _ _ ih.0 (le_of_eq _ _ exact),
                λ o. ih.1 (latch ∙ o),
                λ o. exact_lem (length cs) _ _ (as_nanos d) _ _ (ih.2 o) exact,
              )
        | inr (slept, over, latch) ↦
            rw (whole, slept)
              (
                longer_lem (length cs) _ _ 0 _ _ ih.0 (omega arith),
                λ o. ih.1 latch,
                λ o. cc (ih.1 latch),
              )
      ]
