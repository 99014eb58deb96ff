-- ===== src/Server/Fallback.antt =====
-- The two loops of src/server.rs side by side: `run_io_uring` and `run_blocking`.
use mathlib.Core.Path.{ap₂}
use mathlib.Core.List.{append_assoc, append-nil}
use wire_probe.Prelude.{
  ℕ, zero, suc, ◌≡◌, refl, sym, ap, ◌∙◌, Bool, false, ◌||◌, List, [], ◌∷◌, ◌++◌, arith,
  if◌then◌else◌, ◌==◌, Bool-cases, inl, inr,
}
use wire_probe.Std.Io.{IoError, IoResult, ok, err, IoResult-cases}
use wire_probe.Server.{
  ℤ, pos, negsuc, saturating_neg, accept_token, accept_error_backoff, Errnos, Cqe, Ring, Action,
  Next, close, warn_close, warn_accept, sleep_ms, warn_accept_error, handle_result,
  handle_completions, arm, take_completions, turn, is_interrupted, turns, run_io_uring,
  run_blocking,
}

-- What the clients and the log see of the server.
pub data Effect : Type 0 where
  closes : (fd : ℕ) → Effect
  warns : Effect
  pauses : (ms : ℕ) → Effect

-- That a close failed is not seen: a stream that is dropped does not report it.
abbrev pub effects : List Action → List Effect
effects [] = []
effects (close fd ∷ l) = closes fd ∷ effects l
effects (warn_close fd ∷ l) = effects l
effects (warn_accept errno ∷ l) = warns ∷ effects l
effects (sleep_ms ms ∷ l) = pauses ms ∷ effects l
effects (warn_accept_error e ∷ l) = warns ∷ effects l

effects-append : (xs ys : List Action) → effects (xs ++ ys) ≡ effects xs ++ effects ys
effects-append [] ys = refl
effects-append (close fd ∷ l) ys = ap (λ l'. closes fd ∷ l') (effects-append l ys)
effects-append (warn_close fd ∷ l) ys = effects-append l ys
effects-append (warn_accept errno ∷ l) ys = ap (λ l'. warns ∷ l') (effects-append l ys)
effects-append (sleep_ms ms ∷ l) ys = ap (λ l'. pauses ms ∷ l') (effects-append l ys)
effects-append (warn_accept_error e ∷ l) ys = ap (λ l'. warns ∷ l') (effects-append l ys)

pub run_blocking-append :
    (xs ys : List (IoResult ℕ)) → run_blocking (xs ++ ys) ≡ run_blocking xs ++ run_blocking ys
unfolding run_blocking
run_blocking-append [] ys = refl
run_blocking-append (ok fd ∷ xs) ys = ap (λ l. close fd ∷ l) (run_blocking-append xs ys)
run_blocking-append (err e ∷ xs) ys =
    ap (λ l. warn_accept_error e ∷ sleep_ms accept_error_backoff ∷ l) (run_blocking-append xs ys)

module _ (k : Errnos) (close_ok : ℕ → Bool) (ring : Ring) where
  open ring use {R}

  -- The completions that a run takes out of the ring.
  abbrev pub turn_taken : R → List Cqe
  turn_taken r =
      let (waited, r') = ring.submit_and_wait r in
      elim waited [ ok u ↦ (ring.completion r').0 | err e ↦ [] ]

  abbrev pub turns_taken : ℕ → (fd : ℕ) → R → List Cqe
  turns_taken zero fd r = []
  turns_taken (suc rounds) fd r =
      turn_taken r
      ++ elim (turn k close_ok ring fd r).0 [ ok r' ↦ turns_taken rounds fd r' | err e ↦ [] ]

  abbrev pub taken : (rounds fd : ℕ) → R → List Cqe
  taken rounds fd r = elim (arm k close_ok ring fd r) [
    | ok r' ↦ turns_taken rounds fd r'
    | err e ↦ []
  ]

module _ (k : Errnos) (from_raw_os_error : ℕ → IoError) where
  -- What a blocking `accept` would have answered. Where the completion says that there is nothing to
  -- accept, it would not have returned.
  abbrev pub accept_answer : ℤ → List (IoResult ℕ)
  accept_answer (pos fd) = ok fd ∷ []
  accept_answer (negsuc m) =
      let errno = saturating_neg m in
      if (errno == k.eagain) || (errno == k.ewouldblock)
      then []
      else err (from_raw_os_error errno) ∷ []

  abbrev pub accept_answers : List Cqe → List (IoResult ℕ)
  accept_answers [] = []
  accept_answers (c ∷ cs) =
      (if c.user_data == accept_token then accept_answer c.result else []) ++ accept_answers cs

  accept_answers-append :
      (cs ds : List Cqe) → accept_answers (cs ++ ds) ≡ accept_answers cs ++ accept_answers ds
  accept_answers-append [] ds = refl
  accept_answers-append (c ∷ cs) ds =
      ap (λ l. (if c.user_data == accept_token then accept_answer c.result else []) ++ l)
        (accept_answers-append cs ds)
      ∙ sym (append_assoc _ (accept_answers cs) (accept_answers ds))

  effects_answers-append :
      (cs ds : List Cqe)
      → effects (run_blocking (accept_answers (cs ++ ds)))
        ≡ effects (run_blocking (accept_answers cs)) ++ effects (run_blocking (accept_answers ds))
  effects_answers-append cs ds =
      ap (λ l. effects (run_blocking l)) (accept_answers-append cs ds)
      ∙ ap effects (run_blocking-append (accept_answers cs) (accept_answers ds))
      ∙ effects-append (run_blocking (accept_answers cs)) (run_blocking (accept_answers ds))

  module _ (close_ok : ℕ → Bool) where
    handle_result-effects :
        (z : ℤ) → effects (handle_result k close_ok z) ≡ effects (run_blocking (accept_answer z))
    unfolding handle_result run_blocking
    handle_result-effects (pos fd) = ground arith
    handle_result-effects (negsuc m) = elim (Bool-cases (saturating_neg m == k.eagain)) [
      | inl e ↦ ground arith
      | inr e ↦ ground arith
    ]

    handle_completions-effects :
        (cs : List Cqe) (rearm : Bool)
        → effects (handle_completions k close_ok cs rearm).0
          ≡ effects (run_blocking (accept_answers cs))
    unfolding handle_completions run_blocking
    handle_completions-effects [] rearm = refl
    handle_completions-effects (c ∷ cs) rearm =
        let mine = c.user_data == accept_token in
        let own = if mine then handle_result k close_ok c.result else [] in
        let answer = if mine then accept_answer c.result else [] in
        let first : effects own ≡ effects (run_blocking answer) = elim (Bool-cases mine) [
          | inl e ↦ rw e (handle_result-effects c.result)
          | inr e ↦ rw e refl
        ] in
        effects-append own (handle_completions k close_ok cs (rearm || mine)).0
        ∙ ap₂ ◌++◌ first (handle_completions-effects cs (rearm || mine))
        ∙ sym (
            ap effects (run_blocking-append answer (accept_answers cs))
            ∙ effects-append (run_blocking answer) (run_blocking (accept_answers cs)))

    module _ (ring : Ring) where
      open ring use {R}

      waited-effects :
          (fd : ℕ) (waited : IoResult (Unit {0})) (r : R)
          → let next : Next k close_ok ring × List Action = elim waited [
            | ok u ↦ take_completions k close_ok ring fd r
            | err e ↦ if is_interrupted k close_ok ring e then (ok r, []) else (err e, [])
          ] in
            effects next.1
            ≡ effects (
                run_blocking
                  (accept_answers (elim waited [ ok u ↦ (ring.completion r).0 | err e ↦ [] ])))
      unfolding take_completions run_blocking
      waited-effects fd (ok u) r = handle_completions-effects (ring.completion r).0 false
      waited-effects fd (err e) r = ground arith

      turn-effects :
          (fd : ℕ) (r : R)
          → effects (turn k close_ok ring fd r).1
            ≡ effects (run_blocking (accept_answers (turn_taken k close_ok ring r)))
      unfolding turn
      turn-effects fd r = waited-effects fd (ring.submit_and_wait r).0 (ring.submit_and_wait r).1

      turns_goes_on :
          (rounds fd : ℕ) (r r' : R)
          → (turn k close_ok ring fd r).0 ≡ ok r'
          → (turns k close_ok ring (suc rounds) fd r).1
            ≡ (turn k close_ok ring fd r).1 ++ (turns k close_ok ring rounds fd r').1
      unfolding turns
      turns_goes_on rounds fd r r' e = ground (arith, e)

      turns_ends :
          (rounds fd : ℕ) (r : R) (x : IoError)
          → (turn k close_ok ring fd r).0 ≡ err x
          → (turns k close_ok ring (suc rounds) fd r).1 ≡ (turn k close_ok ring fd r).1
      unfolding turns
      turns_ends rounds fd r x e = ground (arith, e)

      turns-effects :
          (rounds fd : ℕ) (r : R)
          → effects (turns k close_ok ring rounds fd r).1
            ≡ effects (run_blocking (accept_answers (turns_taken k close_ok ring rounds fd r)))
      unfolding turns run_blocking
      turns-effects zero fd r = refl
      turns-effects (suc rounds) fd r =
          let now = turn-effects fd r in
          elim (IoResult-cases (turn k close_ok ring fd r).0) [
            | inl (r', e) ↦
                let later = turns-effects rounds fd r' in
                ap effects (turns_goes_on rounds fd r r' e)
                ∙ (rw e (
                    effects-append (turn k close_ok ring fd r).1
                      (turns k close_ok ring rounds fd r').1
                    ∙ ap₂ ◌++◌ now later
                    ∙ sym (
                        effects_answers-append (turn_taken k close_ok ring r)
                          (turns_taken k close_ok ring rounds fd r'))))
            | inr (x, e) ↦
                ap effects (turns_ends rounds fd r x e)
                ∙ rw e (
                    now
                    ∙ ap (λ l. effects (run_blocking (accept_answers l)))
                        (sym (append-nil (turn_taken k close_ok ring r))))
          ]

      armed-effects :
          (rounds fd : ℕ) (armed : Next k close_ok ring)
          → let next : Next k close_ok ring × List Action = elim armed [
            | ok r' ↦ turns k close_ok ring rounds fd r'
            | err e ↦ (err e, [])
          ] in
            effects next.1
            ≡ effects (
                run_blocking (
                  accept_answers
                    (elim armed [ ok r' ↦ turns_taken k close_ok ring rounds fd r' | err e ↦ [] ])))
      unfolding run_blocking
      armed-effects rounds fd (ok r') = turns-effects rounds fd r'
      armed-effects rounds fd (err e) = refl

      -- Over any ring and any number of turns, the io_uring loop closes the same descriptors, warns
      -- and pauses in the same order as the blocking loop does on the answers that the completions
      -- of accepts stand for. A completion that says that there is nothing to accept stands for no
      -- answer, and whether a close fails is left aside.
      pub run_io_uring-effects :
          (rounds fd : ℕ) (r : R)
          → effects (run_io_uring k close_ok ring rounds fd r).1
            ≡ effects (run_blocking (accept_answers (taken k close_ok ring rounds fd r)))
      unfolding run_io_uring
      run_io_uring-effects rounds fd r = armed-effects rounds fd (arm k close_ok ring fd r)
