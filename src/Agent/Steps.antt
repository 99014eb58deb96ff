-- ===== src/Agent/Steps.antt =====
-- The loop of `run_probe` in src/main.rs as a step relation and as a function of its cycles.
use wire_probe.Prelude.{◌≡◌, ◌↔◌, refl, List, [], ◌∷◌, ◌++◌, some, arith, if◌then◌else◌}
use wire_probe.Std.Net.{SocketAddr}
use wire_probe.Std.Time
use wire_probe.External.{Numerics}
use wire_probe.Cli.Types.{ExportDst}
use wire_probe.Probe.{Endian}
use wire_probe.Agent.{Cycle, Loop, Report, cycle, run_loop}
use wire_probe.Agent.Runs.{run_loop_cons}
use wire_probe.Agent.Reach.{Reach, here, next, last_answer}

module _ (n : Numerics) (endian : Endian) (export : ExportDst) (interval : Time.Duration) where
  -- A run that is followed by one more cycle.
  run_loop_snoc :
      (cs : List Cycle) (s s1 s' : Loop) (rs : List Report) (c : Cycle) (r : Report)
      → run_loop n endian export interval s cs ≡ (some s1, rs)
      → cycle n endian export interval s1 c ≡ (some s', r)
      → run_loop n endian export interval s (cs ++ (c ∷ [])) ≡ (some s', rs ++ (r ∷ []))
  unfolding run_loop
  run_loop_snoc [] s s1 s' rs c r h k = ground arith
  run_loop_snoc (d ∷ cs) s s1 s' rs c r h k =
      let (s2, q, rest, first, later, whole) =
        run_loop_cons n endian export interval s s1 d cs rs h in
      let ih = run_loop_snoc cs s2 s1 s' rest c r later k in ground (arith, first, ih, whole)

  Reach-run :
      (s0 : Loop) (first : List SocketAddr) {s : Loop} {known : List SocketAddr}
      → Reach n endian export interval s0 first s known
      → (cs : List Cycle) × (rs : List Report) × (run_loop n endian export interval s0 cs
          ≡ (some s, rs))
  unfolding run_loop
  Reach-run s0 first here = ([], [], refl)
  Reach-run s0 first (next {s} {known} c s' r before h) =
      let (cs, rs, run) = Reach-run s0 first before in
      (cs ++ (c ∷ []), rs ++ (r ∷ []), run_loop_snoc cs s0 s s' rs c r run h)

  run-Reach :
      (cs : List Cycle) (s0 s s' : Loop) (first known : List SocketAddr) (rs : List Report)
      → Reach n endian export interval s0 first s known
      → run_loop n endian export interval s cs ≡ (some s', rs)
      → (known' : List SocketAddr) × Reach n endian export interval s0 first s' known'
  unfolding run_loop
  run-Reach [] s0 s s' first known rs reach h =
      let e : s ≡ s' = ground arith in (known, rw (← e) reach)
  run-Reach (c ∷ cs) s0 s s' first known rs reach h =
      let (s2, q, rest, step, later, whole) =
        run_loop_cons n endian export interval s s' c cs rs h in
      run-Reach cs s0 s2 s' first (if q.asked then last_answer c.resolver known else known) rest
        (next c s2 q reach step) later

  -- The states that the relation reaches are those in which a run of cycles ends.
  pub Reach-run_loop :
      (s0 s : Loop) (first : List SocketAddr)
      → ((known : List SocketAddr) × Reach n endian export interval s0 first s known) ↔ (
          (cs : List Cycle) × (rs : List Report) × (run_loop n endian export interval s0 cs
            ≡ (some s, rs)))
  Reach-run_loop s0 s first =
      (λ h. Reach-run s0 first h.1, λ h. run-Reach h.0 s0 s0 s first first h.1 here h.2)
