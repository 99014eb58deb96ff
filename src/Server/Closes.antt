-- ===== src/Server/Closes.antt =====
-- The descriptors that a whole run of `run_io_uring` of src/server.rs closes.
use wire_probe.Prelude.{
  ℕ, ◌≡◌, refl, sym, ap, ◌∙◌, Bool, true, false, List, [], ◌∷◌, ◌++◌, if◌then◌else◌, ◌==◌, ◌||◌,
  Bool-cases, inl, inr,
}
use wire_probe.Std.Io.{IoError, os}
use wire_probe.Server.{
  ℤ, pos, negsuc, saturating_neg, accept_token, Errnos, Cqe, Ring, Action, close, warn_close,
  warn_accept, sleep_ms, warn_accept_error, run_io_uring, run_blocking,
}
use wire_probe.Server.Laws.{accepted_fds, closed_fds, closed_fds-append}
use wire_probe.Server.Fallback.{
  Effect, closes, warns, pauses, effects, accept_answers, accept_answer, run_blocking-append, taken,
  run_io_uring-effects,
}

abbrev closed_by : List Effect → List ℕ
closed_by [] = []
closed_by (closes fd ∷ l) = fd ∷ closed_by l
closed_by (warns ∷ l) = closed_by l
closed_by (pauses ms ∷ l) = closed_by l

closed_by-effects : (l : List Action) → closed_fds l ≡ closed_by (effects l)
closed_by-effects [] = refl
closed_by-effects (close fd ∷ l) = ap (λ l'. fd ∷ l') (closed_by-effects l)
closed_by-effects (warn_close fd ∷ l) = closed_by-effects l
closed_by-effects (warn_accept errno ∷ l) = closed_by-effects l
closed_by-effects (sleep_ms ms ∷ l) = closed_by-effects l
closed_by-effects (warn_accept_error e ∷ l) = closed_by-effects l

module _ (k : Errnos) (from_raw_os_error : ℕ → IoError) where
  closed_fds-answer :
      (mine : Bool) (z : ℤ) (later : List ℕ)
      → closed_fds (run_blocking (if mine then accept_answer k from_raw_os_error z else []))
          ++ later
        ≡ elim z [ pos fd ↦ if mine then fd ∷ later else later | negsuc m ↦ later ]
  unfolding run_blocking
  closed_fds-answer false (pos fd) later = refl
  closed_fds-answer true (pos fd) later = refl
  closed_fds-answer false (negsuc m) later = refl
  closed_fds-answer true (negsuc m) later =
      elim (Bool-cases ((saturating_neg m == k.eagain) || (saturating_neg m == k.ewouldblock))) [
        | inl e ↦ rw e refl
        | inr e ↦ rw e refl
      ]

  accepted_fds-answers :
      (cs : List Cqe)
      → closed_fds (run_blocking (accept_answers k from_raw_os_error cs)) ≡ accepted_fds cs
  unfolding run_blocking
  accepted_fds-answers [] = refl
  accepted_fds-answers (c ∷ cs) =
      let ih = accepted_fds-answers cs in
      let own =
        if c.user_data == accept_token then accept_answer k from_raw_os_error c.result else [] in
      ap closed_fds (run_blocking-append own (accept_answers k from_raw_os_error cs))
      ∙ closed_fds-append (run_blocking own) (run_blocking (accept_answers k from_raw_os_error cs))
      ∙ closed_fds-answer (c.user_data == accept_token) c.result
          (closed_fds (run_blocking (accept_answers k from_raw_os_error cs)))
      ∙ ap
          (λ l. elim c.result [
            | pos fd ↦ if c.user_data == accept_token then fd ∷ l else l
            | negsuc m ↦ l
          ])
          ih

module _ (k : Errnos) (close_ok : ℕ → Bool) (ring : Ring) where
  open ring use {R}

  -- Over any ring and any number of turns, the descriptors that the io_uring loop closes are
  -- exactly those that the completions of accepts gave, each once and in their order.
  pub run_io_uring_closes :
      (rounds fd : ℕ) (r : R)
      → closed_fds (run_io_uring k close_ok ring rounds fd r).1
        ≡ accepted_fds (taken k close_ok ring rounds fd r)
  run_io_uring_closes rounds fd r =
      closed_by-effects (run_io_uring k close_ok ring rounds fd r).1
      ∙ ap closed_by (run_io_uring-effects k os close_ok ring rounds fd r)
      ∙ sym (
          closed_by-effects
            (run_blocking (accept_answers k os (taken k close_ok ring rounds fd r))))
      ∙ accepted_fds-answers k os (taken k close_ok ring rounds fd r)
