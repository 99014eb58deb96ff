-- ===== src/Server/Laws.antt =====
-- The io_uring loop of src/server.rs: its outstanding accepts and the descriptors that it closes.
use mathlib.Core.Path.{subst}
use wire_probe.Prelude.{
  ℕ, zero, suc, ◌+◌, ◌<◌, ◌≡◌, ◌≢◌, ◌⊎◌, refl, ap, Bool, true, false, ◌||◌, List, [], ◌∷◌, ◌++◌,
  some, if◌then◌else◌, ◌==◌, arith, Bool-cases, inl, inr,
}
use wire_probe.Std.Io.{
  IoError, broken_pipe, not_found, os, interrupted, would_block, IoResult, ok, err, IoResult-cases,
}
use wire_probe.Server.{
  pos, negsuc, Errnos, Sqe, Cqe, Ring, Action, close, warn_close, warn_accept, sleep_ms,
  warn_accept_error, accept_token, handle_result, handle_completions, push_accept, submit_armed,
  arm, take_completions, turn, turns, run_io_uring,
}

result-cases : (r : IoResult (Unit {0})) → (r ≡ ok tt) ⊎ ((e : IoError) × (r ≡ err e))
result-cases (ok _) = inl refl
result-cases (err e) = inr (e, refl)

-- The completions of an accept.
abbrev pub accepts : List Cqe → ℕ
accepts [] = 0
accepts (c ∷ cs) = (if c.user_data == accept_token then 1 else 0) + accepts cs

-- The descriptors that the accepts gave.
abbrev pub accepted_fds : List Cqe → List ℕ
accepted_fds [] = []
accepted_fds (c ∷ cs) = elim c.result [
  | pos fd ↦ if c.user_data == accept_token then fd ∷ accepted_fds cs else accepted_fds cs
  | negsuc m ↦ accepted_fds cs
]

-- The descriptors that were closed.
abbrev pub closed_fds : List Action → List ℕ
closed_fds [] = []
closed_fds (close fd ∷ later) = fd ∷ closed_fds later
closed_fds (warn_close fd ∷ later) = closed_fds later
closed_fds (warn_accept errno ∷ later) = closed_fds later
closed_fds (sleep_ms ms ∷ later) = closed_fds later
closed_fds (warn_accept_error e ∷ later) = closed_fds later

pub closed_fds-append : (a b : List Action) → closed_fds (a ++ b) ≡ closed_fds a ++ closed_fds b
closed_fds-append [] b = refl
closed_fds-append (close fd ∷ a) b = ap (λ l. fd ∷ l) (closed_fds-append a b)
closed_fds-append (warn_close fd ∷ a) b = closed_fds-append a b
closed_fds-append (warn_accept errno ∷ a) b = closed_fds-append a b
closed_fds-append (sleep_ms ms ∷ a) b = closed_fds-append a b
closed_fds-append (warn_accept_error e ∷ a) b = closed_fds-append a b

abbrev pub some_accept : List Cqe → Bool
some_accept cs = elim (accepts cs) [ zero ↦ false | suc n ↦ true ]

module _ (k : Errnos) (close_ok : ℕ → Bool) where
  handle_result_closes :
      (c : Cqe)
      → closed_fds (handle_result k close_ok c.result)
        ≡ elim c.result [ pos fd ↦ fd ∷ [] | negsuc m ↦ [] ]
  unfolding handle_result
  handle_result_closes c = ground arith

  -- Of the completions that are taken out at once, exactly the descriptors that accepts gave are
  -- closed, each once and in order. The accept is armed again exactly if one of them was an accept,
  -- or if it was to be before.
  pub handle_completions_closes :
      (cqes : List Cqe) (rearm : Bool)
      → let (actions, again) = handle_completions k close_ok cqes rearm in
        (closed_fds actions ≡ accepted_fds cqes) × (again ≡ (rearm || some_accept cqes))
  unfolding handle_completions
  handle_completions_closes [] rearm = ground arith
  handle_completions_closes (c ∷ cs) rearm =
      let mine = c.user_data == accept_token in
      let rest = (handle_completions k close_ok cs (rearm || mine)).0 in
      ground (
        arith,
        handle_result_closes c,
        closed_fds-append (handle_result k close_ok c.result) rest,
        handle_completions_closes cs (rearm || mine),
      )

  module _ (ring : Ring) where
    open ring use {R}

    -- The accepts that wait in the submission queue, and those that the kernel holds.
    pub record Counts : Type 0 where
      pub queued : R → ℕ
      pub armed : R → ℕ

    -- What io_uring documents of its queue of 256 entries: a push succeeds while there is room, a
    -- submission that succeeds hands the queue to the kernel, a wait loses no entry, and an accept
    -- completes once.
    pub record IsRing (c : Counts) : Type 0 where
      pub push_fits :
          (s : Sqe) (r : R)
          → c.queued r < 256
          → (r' : R) × (ring.push s r ≡ some r')
            × (c.queued r' ≡ c.queued r + 1)
            × (c.armed r' ≡ c.armed r)
      pub submit_total :
          (r : R) → let r' = (ring.submit r).1 in c.queued r' + c.armed r' ≡ c.queued r + c.armed r
      pub wait_total :
          (r : R)
          → let r' = (ring.submit_and_wait r).1 in c.queued r' + c.armed r' ≡ c.queued r + c.armed r
      pub completed :
          (r : R)
          → let (cqes, r') = ring.completion r in
            accepts cqes + (c.queued r' + c.armed r') ≡ c.queued r + c.armed r

    abbrev pub outstanding : Counts → R → ℕ
    outstanding c r = c.queued r + c.armed r

    -- An error that a submission gave, or a wait that was not interrupted.
    abbrev pub IsCause : IoError → Type 0
    IsCause e =
        ((r : R) × ((ring.submit r).0 ≡ err e))
        ⊎ ((r : R) × ((ring.submit_and_wait r).0 ≡ err e) × (e ≢ interrupted))

    -- The loop goes on with one accept outstanding, or ends with an error of the ring.
    abbrev pub IsServed : Counts → IoResult R → Type 0
    IsServed c (ok r) = outstanding c r ≡ 1
    IsServed c (err e) = IsCause e

    arm-IsServed :
        (c : Counts)
        → IsRing c
        → (fd : ℕ) (r : R) → outstanding c r ≡ 0
        → IsServed c (arm k close_ok ring fd r)
    unfolding arm push_accept submit_armed
    arm-IsServed c v fd r h =
        let s : Sqe = record { fd = fd; flags = k.sock_cloexec; user_data = accept_token } in
        let (r1, pushed, q, a) = v.push_fits s r (omega arith) in
        rw (pushed, IsServed)
          (elim (result-cases (ring.submit r1).0) [
            | inl e ↦ rw (e, IsServed) (omega (arith, v.submit_total r1))
            | inr (x, e) ↦ rw (e, IsServed) (inl (r1, e))
          ])

    take_completions-IsServed :
        (c : Counts)
        → IsRing c
        → (fd : ℕ) (r : R) → outstanding c r ≡ 1
        → IsServed c (take_completions k close_ok ring fd r).0
    unfolding take_completions
    take_completions-IsServed c v fd r h =
        let cqes = (ring.completion r).0 in
        let r' = (ring.completion r).1 in
        let again = (handle_completions_closes cqes false).1 in
        elim (Bool-cases (some_accept cqes)) [
          | inl e ↦ rw (again, e) (arm-IsServed c v fd r' (ground (arith, v.completed r)))
          | inr e ↦ rw (again, e) (ground (arith, v.completed r))
        ]

    turn-IsServed :
        (c : Counts)
        → IsRing c
        → (fd : ℕ) (r : R) → outstanding c r ≡ 1
        → IsServed c (turn k close_ok ring fd r).0
    unfolding turn
    turn-IsServed c v fd r h = elim (result-cases (ring.submit_and_wait r).0) [
      | inl e ↦
          rw (e, IsServed) (take_completions-IsServed c v fd _ (omega (arith, v.wait_total r)))
      | inr (interrupted, e) ↦ rw (e, IsServed) (omega (arith, v.wait_total r))
      | inr (broken_pipe, e) ↦ rw (e, IsServed) (inr (r, e, λ i. cc))
      | inr (not_found, e) ↦ rw (e, IsServed) (inr (r, e, λ i. cc))
      | inr (would_block, e) ↦ rw (e, IsServed) (inr (r, e, λ i. cc))
      | inr (os errno, e) ↦ rw (e, IsServed) (inr (r, e, λ i. cc))
    ]

    turns-IsServed :
        (c : Counts)
        → IsRing c
        → (rounds fd : ℕ) (r : R) → outstanding c r ≡ 1
        → IsServed c (turns k close_ok ring rounds fd r).0
    unfolding turns
    turns-IsServed c v zero fd r h = h
    turns-IsServed c v (suc rounds) fd r h = elim (IoResult-cases (turn k close_ok ring fd r).0) [
      | inl (r', e) ↦
          let one : outstanding c r' ≡ 1 = subst (IsServed c) e (turn-IsServed c v fd r h) in
          rw (e, IsServed) (turns-IsServed c v rounds fd r' one)
      | inr (x, e) ↦ rw (e, IsServed) (subst (IsServed c) e (turn-IsServed c v fd r h))
    ]

    -- Over any number of turns of a ring that starts empty and keeps what io_uring documents, one
    -- accept is outstanding at the end of a server that goes on. The server ends only with an error
    -- of a submission, or of a wait that was not interrupted.
    pub run_io_uring-IsServed :
        (c : Counts)
        → IsRing c
        → (rounds fd : ℕ) (r : R) → outstanding c r ≡ 0
        → IsServed c (run_io_uring k close_ok ring rounds fd r).0
    unfolding run_io_uring
    run_io_uring-IsServed c v rounds fd r h = elim (IoResult-cases (arm k close_ok ring fd r)) [
      | inl (r', e) ↦
          rw (e, IsServed)
            (turns-IsServed c v rounds fd r' (subst (IsServed c) e (arm-IsServed c v fd r h)))
      | inr (x, e) ↦ rw (e, IsServed) (subst (IsServed c) e (arm-IsServed c v fd r h))
    ]
