-- ===== src/Tests/Rings.antt =====
-- A ring that completes one accept at each wait, and a host name: the tests of both.
use wire_probe.Prelude.{
  arith, ℕ, zero, suc, ◌+◌, ◌≡◌, ◌≢◌, refl, true, List, [], ◌∷◌, ◌++◌, codes, All, some, none,
  if◌then◌else◌, ltb,
}
use wire_probe.Std.Io.{ok, err, os}
use wire_probe.Std.Strings.Laws.{IsAscii}
use wire_probe.Cli.Sanitize.{sanitize}
use wire_probe.Host.{hostname, hostname_lem}
use wire_probe.Server
use wire_probe.Server.{
  pos, negsuc, Errnos, Cqe, Ring, accept_token, handle_completions, run, run_io_uring, run_blocking,
}
use wire_probe.Server.Fallback.{effects, accept_answers, taken, run_io_uring-effects}
use wire_probe.Server.Backoff.{IsPaced, run_io_uring-IsPaced}
use wire_probe.Server.Banner.{Announces, notices, run-notices}
use wire_probe.Server.Closes.{run_io_uring_closes}
use wire_probe.Server.Laws.{
  accepted_fds, closed_fds, Counts, IsRing, IsServed, run_io_uring-IsServed,
}

abbrev pub linux : Errnos
linux = record {
  eagain = 11;
  ewouldblock = 11;
  enosys = 38;
  eperm = 1;
  eacces = 13;
  eopnotsupp = 95;
  sock_cloexec = 0x80000;
}

abbrev completed_one : ℕ × ℕ → List Cqe × (ℕ × ℕ)
completed_one (q, zero) = ([], (q, zero))
completed_one (q, suc a) = (record { user_data = accept_token; result = pos 7 } ∷ [], (q, a))

-- The numbers of entries that are queued and that the kernel holds.
abbrev pub busy : Ring
busy = record {
  R = ℕ × ℕ;
  push = λ s r. if ltb r.0 256 then some (r.0 + 1, r.1) else none;
  submit = λ r. (ok tt, (0, r.0 + r.1));
  submit_and_wait = λ r. (ok tt, (0, r.0 + r.1));
  completion = completed_one;
}

abbrev entries : Counts linux (λ fd. true) busy
entries = record { queued = λ r. r.0; armed = λ r. r.1 }

busy-IsRing : IsRing linux (λ fd. true) busy entries
busy-IsRing = record {
  push_fits = λ s r h. ((r.0 + 1, r.1), ground arith, refl, refl);
  submit_total = λ r. omega arith;
  wait_total = λ r. omega arith;
  completed = λ r. ground arith;
}

run_io_uring-IsServed_example :
    IsServed linux (λ fd. true) busy entries (run_io_uring linux (λ fd. true) busy 3 5 (0, 0)).0
run_io_uring-IsServed_example =
    run_io_uring-IsServed linux (λ fd. true) busy entries busy-IsRing 3 5 (0, 0) refl

run_io_uring-effects_example :
    effects (run_io_uring linux (λ fd. true) busy 3 5 (0, 0)).1
    ≡ effects (run_blocking (accept_answers linux os (taken linux (λ fd. true) busy 3 5 (0, 0))))
run_io_uring-effects_example = run_io_uring-effects linux os (λ fd. true) busy 3 5 (0, 0)

closed_three : closed_fds (run_io_uring linux (λ fd. true) busy 3 5 (0, 0)).1 ≡ 7 ∷ 7 ∷ 7 ∷ []
unfolding run_io_uring Server.arm Server.turn Server.take_completions handle_completions
closed_three = refl

run_io_uring_closes_example :
    closed_fds (run_io_uring linux (λ fd. true) busy 3 5 (0, 0)).1
    ≡ accepted_fds (taken linux (λ fd. true) busy 3 5 (0, 0))
run_io_uring_closes_example = run_io_uring_closes linux (λ fd. true) busy 3 5 (0, 0)

-- A ring whose accepts find no descriptor left.
abbrev exhausted_one : ℕ × ℕ → List Cqe × (ℕ × ℕ)
exhausted_one (q, zero) = ([], (q, zero))
exhausted_one (q, suc a) = (record { user_data = accept_token; result = negsuc 23 } ∷ [], (q, a))

abbrev exhausted : Ring
exhausted = record busy { completion = exhausted_one }

run_io_uring-IsPaced_example :
    IsPaced (effects (run_io_uring linux (λ fd. true) exhausted 3 5 (0, 0)).1)
    × IsPaced (effects (run_blocking (ok 7 ∷ err (os 24) ∷ [])))
run_io_uring-IsPaced_example =
    run_io_uring-IsPaced linux (λ fd. true) exhausted 3 5 (0, 0) (ok 7 ∷ err (os 24) ∷ [])

run-notices_example :
    Announces linux
      (ok tt)
      (err (os 38))
      17
      (codes "::")
      9999
      (run linux (ok tt) (err (os 38)))
      (notices linux (ok tt) (err (os 38)) 17 (codes "::") 9999)
run-notices_example = run-notices linux (ok tt) (err (os 38)) 17 (codes "::") 9999

name-IsAscii : IsAscii (codes "a_b")
name-IsAscii = (omega arith, (omega arith, (omega arith, tt)))

name_nonzero : All (λ b. b ≢ 0) (codes "a_b")
name_nonzero = ((λ e. cc), ((λ e. cc), ((λ e. cc), tt)))

hostname_lem_example : hostname (codes "a_b" ++ (0 ∷ 200 ∷ [])) ≡ sanitize (codes "a_b")
hostname_lem_example = hostname_lem (codes "a_b") (200 ∷ []) name-IsAscii name_nonzero
