-- ===== src/Server/Backoff.antt =====
-- The pauses of src/server.rs after errors of `accept`.
use wire_probe.Prelude.{ℕ, Bool, ◌≡◌, refl, sym, List, [], ◌∷◌}
use mathlib.Core.Path.{subst}
use wire_probe.Std.Io.{IoResult, ok, err, os}
use wire_probe.Server.{Errnos, Ring, run_io_uring, run_blocking}
use wire_probe.Server.Fallback.{
  Effect, closes, warns, pauses, effects, accept_answers, taken, run_io_uring-effects,
}

-- Each warning of an accept error has a pause of 50 ms right behind it, and there is no other pause.
abbrev pub IsPaced : List Effect → Type 0
IsPaced [] = Unit
IsPaced (closes fd ∷ l) = IsPaced l
IsPaced (warns ∷ []) = ⊥
IsPaced (warns ∷ pauses ms ∷ l) = (ms ≡ 50) × IsPaced l
IsPaced (warns ∷ closes fd ∷ l) = ⊥
IsPaced (warns ∷ warns ∷ l) = ⊥
IsPaced (pauses ms ∷ l) = ⊥

run_blocking-IsPaced : (answers : List (IoResult ℕ)) → IsPaced (effects (run_blocking answers))
unfolding run_blocking
run_blocking-IsPaced [] = tt
run_blocking-IsPaced (ok fd ∷ later) = run_blocking-IsPaced later
run_blocking-IsPaced (err e ∷ later) = (refl, run_blocking-IsPaced later)

module _ (k : Errnos) (close_ok : ℕ → Bool) (ring : Ring) where
  open ring use {R}

  -- Over any ring and any number of turns of the io_uring loop, and over any answers of the
  -- blocking loop, each warning of an accept error has a pause of 50 ms right behind it, and there
  -- is no other pause.
  pub run_io_uring-IsPaced :
      (rounds fd : ℕ) (r : R) (answers : List (IoResult ℕ))
      → IsPaced (effects (run_io_uring k close_ok ring rounds fd r).1)
        × IsPaced (effects (run_blocking answers))
  run_io_uring-IsPaced rounds fd r answers = (
    subst IsPaced (sym (run_io_uring-effects k os close_ok ring rounds fd r))
        (run_blocking-IsPaced (accept_answers k os (taken k close_ok ring rounds fd r))),
    run_blocking-IsPaced answers,
  )
