-- ===== src/Main/Exit.antt =====
-- When the process of src/main.rs ends well.
use mathlib.Core.Option.{some-injective}
use wire_probe.Prelude.{
  ℕ, ◌≡◌, ◌↔◌, ◌⊎◌, ◌∙◌, refl, sym, ap, Bool, true, List, none, some, arith, inl, inr, Option-cases,
}
use wire_probe.Std.Io.{IoResult-cases}
use wire_probe.Std.Time
use wire_probe.External.{Numerics}
use wire_probe.Cli.Types.{ExportDst, Mode, server, probe, collectd_exec}
use wire_probe.Cli.Command.{Context, Run, done, raised, exited}
use wire_probe.Cli.Parse.{Arguments, parse}
use wire_probe.Cli.Parse.Exits.{parse_exits}
use wire_probe.Probe.{Endian}
use wire_probe.Host.{hostname}
use wire_probe.Agent.{Cycle, Loop, run_loop}
use wire_probe.Agent.Start.{Started, cannot_resolve, no_address, init_error, running}
use wire_probe.Agent.Runs.{run_loop-exec}
use wire_probe.Agent.Exit.{any_closed, start_exits}
use wire_probe.Server
use wire_probe.Server.{Errnos, Ring, run, run_io_uring, bind_failed, ring_failed, blocking, ringed}
use wire_probe.Main.{
  Surroundings, Program, exits, serves_blocking, serves_ring, probes, served, probed, of_run,
  dispatch, main, exit_code,
}
use wire_probe.Main.Laws.{main-IsProbing}

exits_inj : (a c : ℕ) → exits a ≡ exits c → a ≡ c
exits_inj a c h = cc

served_exits : (st : Server.Started) (c : ℕ) → served st ≡ exits c → c ≡ 1
served_exits (bind_failed e) c h = sym (exits_inj 1 c h)
served_exits (ring_failed e) c h = sym (exits_inj 1 c h)
served_exits blocking c h = cc
served_exits ringed c h = cc

probed_exits :
    (export : ExportDst) (interval : Time.Duration) (st : Started) (c : ℕ)
    → probed export interval st ≡ exits c
    → c ≡ 1
probed_exits export interval (cannot_resolve e) c h = sym (exits_inj 1 c h)
probed_exits export interval no_address c h = sym (exits_inj 1 c h)
probed_exits export interval (init_error warned e) c h = sym (exits_inj 1 c h)
probed_exits export interval (running warned s) c h = cc

module _ (n : Numerics) (k : Errnos) where
  dispatch_exits : (mode : Mode) (w : Surroundings) (c : ℕ) → dispatch n k mode w ≡ exits c → c ≡ 1
  unfolding dispatch
  dispatch_exits (server bind port) w c h = served_exits (run k w.bound w.ring) c h
  dispatch_exits (probe target target_name az interval timeout export) w c h =
      probed_exits export interval _ c h

  of_run_exits :
      {S : Type 0} (r : Run Mode × Context S) (w : Surroundings) (c : ℕ)
      → ((code : ℕ) (cx : Context S) → r ≡ (exited code, cx) → code ≡ 0)
      → of_run n k r.0 w ≡ exits c
      → (c ≡ 0) ⊎ (c ≡ 1)
  of_run_exits (done mode, cx) w c f h = inr (dispatch_exits mode w c h)
  of_run_exits (raised e, cx) w c f h = inr (sym (exits_inj 1 c h))
  of_run_exits (exited code, cx) w c f h = inl (sym (exits_inj code c h) ∙ f code cx refl)

  of_run-ok : (r : Run Mode) (w : Surroundings) → of_run n k r w ≡ exits 0 → r ≡ exited 0
  of_run-ok (done mode) w h = absurd (omega (arith, dispatch_exits mode w 0 h))
  of_run-ok (raised e) w h = absurd (omega (arith, exits_inj 1 0 h))
  of_run-ok (exited code) w h = ap exited (exits_inj code 0 h)

module _ (n : Numerics) (k : Errnos) (endian : Endian) (close_ok : ℕ → Bool) (ring : Ring)
    (listener : ℕ) (turns : ℕ) (r : ring.R) where
  exit_code-zero :
      (cycles : List Cycle) (p : Program)
      → exit_code n k endian close_ok ring listener turns r cycles p ≡ some 0
      → (p ≡ exits 0)
        ⊎ ((interval : Time.Duration) × (s : Loop) × (p ≡ probes collectd_exec interval s)
            × ((run_loop n endian collectd_exec interval s cycles).0 ≡ none))
  unfolding exit_code
  exit_code-zero cycles (exits code) h = inl (ap exits (some-injective _ _ h))
  exit_code-zero cycles serves_blocking h = cc
  exit_code-zero cycles serves_ring h =
      elim (IoResult-cases (run_io_uring k close_ok ring turns listener r).0) [
        | inl (a, e) ↦ cc
        | inr (x, e) ↦ absurd (ground arith)
      ]
  exit_code-zero cycles (probes export interval s) h =
      elim (Option-cases (run_loop n endian export interval s cycles).0) [
        | inl e ↦
            let same = run_loop-exec n endian export interval cycles s e in
            inr (
              interval,
              s,
              ap (λ d. probes d interval s) same,
              ap (λ d. (run_loop n endian d interval s cycles).0) (sym same) ∙ e,
            )
        | inr (s1, e) ↦ absurd (ground arith)
      ]

  exit_code_range :
      (cycles : List Cycle) (p : Program) (code : ℕ)
      → ((c : ℕ) → p ≡ exits c → (c ≡ 0) ⊎ (c ≡ 1))
      → exit_code n k endian close_ok ring listener turns r cycles p ≡ some code
      → (code ≡ 0) ⊎ (code ≡ 1)
  unfolding exit_code
  exit_code_range cycles (exits c) code f h = f code (ap exits (some-injective _ _ h))
  exit_code_range cycles serves_blocking code f h = cc
  exit_code_range cycles serves_ring code f h =
      elim (IoResult-cases (run_io_uring k close_ok ring turns listener r).0) [
        | inl (a, e) ↦ cc
        | inr (x, e) ↦ inr (sym (some-injective 1 code (ground arith)))
      ]
  exit_code_range cycles (probes export interval s) code f h =
      elim (Option-cases (run_loop n endian export interval s cycles).0) [
        | inl e ↦ inl (sym (some-injective 0 code (ground arith)))
        | inr (s1, e) ↦ absurd (ground arith)
      ]

  main-exits :
      (A : Arguments) (cx : Context A.S) (w : Surroundings)
      → main n k A cx w ≡ exits 0
      → (parse A cx).0 ≡ exited 0
  unfolding main
  main-exits A cx w h = of_run-ok n k (parse A cx).0 w h

  -- The process has exited with code 0 exactly if the parser did so, or if it probes with stdout as
  -- its destination and one of its cycles found stdout closed.
  pub main_exit_zero :
      (cycles : List Cycle) (A : Arguments) (cx : Context A.S) (w : Surroundings)
      → let p = main n k A cx w in
        (exit_code n k endian close_ok ring listener turns r cycles p ≡ some 0) ↔ (
          ((parse A cx).0 ≡ exited 0)
          ⊎ ((interval : Time.Duration) × (s : Loop) × (p ≡ probes collectd_exec interval s)
              × (any_closed cycles ≡ true)))
  unfolding exit_code main
  main_exit_zero cycles A cx w =
      let found =
        λ (interval : Time.Duration) (s : Loop)
            (h : main n k A cx w ≡ probes collectd_exec interval s).
          let x = main-IsProbing n k A cx w collectd_exec interval s h in
          (start_exits n endian x.target_name x.az (hostname w.name_buf) interval w.resolver
            w.opening x.warned s cycles x.started).0 in
      (
        λ h. elim (exit_code-zero cycles (main n k A cx w) h) [
          | inl e ↦ inl (main-exits A cx w e)
          | inr (interval, s, e, left) ↦ inr (interval, s, e, (found interval s e).0 left)
        ],
        λ h. elim h [
          | inl e ↦
              ap
                (λ r'. exit_code n k endian close_ok ring listener turns r cycles (of_run n k r' w))
                e
          | inr (interval, s, e, closed) ↦
              ap (exit_code n k endian close_ok ring listener turns r cycles) e
              ∙ ap (λ o. elim o [ none ↦ some 0 | some s' ↦ none ]) ((found interval s e).1 closed)
        ],
      )

  -- A process that has exited did so with code 0 or 1.
  pub exit_code-main :
      (cycles : List Cycle) (A : Arguments) (cx : Context A.S) (w : Surroundings) (code : ℕ)
      → exit_code n k endian close_ok ring listener turns r cycles (main n k A cx w) ≡ some code
      → (code ≡ 0) ⊎ (code ≡ 1)
  unfolding main
  exit_code-main cycles A cx w code h =
      exit_code_range cycles (main n k A cx w) code
        (λ c e. of_run_exits n k (parse A cx) w c (λ code' cx'. parse_exits A cx cx' code') e) h
