-- ===== src/Server.antt =====
-- The accept/drop server: src/server.rs. The `io_uring` crate is an interface; the numbers of
-- `libc` and what `bind`, `accept` and `close` answer are arguments.
pub mod Backoff
pub mod Banner
pub mod Closes
pub mod Fallback
pub mod Laws
use Prim.Native.Nat.{min}
use wire_probe.Prelude.{
  ℕ, zero, suc, ◌+◌, Bool, true, false, ◌&&◌, ◌||◌, not, List, [], ◌∷◌, ◌++◌, Option, none, some,
  if◌then◌else◌, ◌==◌,
}
use wire_probe.Std.Io.{
  IoError, interrupted, would_block, not_found, broken_pipe, os, IoResult, ok, err,
}

abbrev pub accept_token : ℕ
accept_token = 1

-- Milliseconds.
abbrev pub accept_error_backoff : ℕ
accept_error_backoff = 50

-- `i32`: `negsuc n` is -(n + 1).
pub data ℤ : Type 0 where
  pos : ℕ → ℤ
  negsuc : ℕ → ℤ

-- `i32::saturating_neg` of a negative number.
abbrev pub saturating_neg : ℕ → ℕ
saturating_neg n = min (n + 1) 0x7FFF_FFFF

-- The constants of `libc` that the server names.
pub record Errnos : Type 0 where
  pub eagain : ℕ
  pub ewouldblock : ℕ
  pub enosys : ℕ
  pub eperm : ℕ
  pub eacces : ℕ
  pub eopnotsupp : ℕ
  pub sock_cloexec : ℕ

-- An accept entry, with null pointers for the address, and a completion.
pub record Sqe : Type 0 where
  pub fd : ℕ
  pub flags : ℕ
  pub user_data : ℕ

pub record Cqe : Type 0 where
  pub user_data : ℕ
  pub result : ℤ

-- `IoUring`: the submission queue, the two calls, and the completions that are taken out.
pub record Ring : Type 1 where
  pub R : Type 0
  pub push : Sqe → R → Option R
  pub submit : R → IoResult (Unit {0}) × R
  pub submit_and_wait : R → IoResult (Unit {0}) × R
  pub completion : R → List Cqe × R

-- What the server does to the outside.
pub data Action : Type 0 where
  close : (fd : ℕ) → Action
  warn_close : (fd : ℕ) → Action
  warn_accept : (errno : ℕ) → Action
  sleep_ms : ℕ → Action
  warn_accept_error : IoError → Action

-- How the start of the server chose its loop.
pub data Started : Type 0 where
  bind_failed : IoError → Started
  ring_failed : IoError → Started
  blocking : Started
  ringed : Started

-- `raw_os_error`: the kinds that the program names come from numbers of their own.
module _ (k : Errnos) where
  abbrev pub is_unavailable : IoError → Bool
  is_unavailable (os errno) =
      (errno == k.enosys)
      || ((errno == k.eperm) || ((errno == k.eacces) || (errno == k.eopnotsupp)))
  is_unavailable broken_pipe = false
  is_unavailable interrupted = false
  is_unavailable not_found = false
  is_unavailable would_block = false

  -- `run`, as far as the choice of its loop, from what `bind` and `IoUring::new` answer.
  unfoldable pub run : (bound ring : IoResult (Unit {0})) → Started
  run (err e) ring = bind_failed e
  run (ok _) (ok _) = ringed
  run (ok _) (err e) = if is_unavailable e then blocking else ring_failed e

  module _ (close_ok : ℕ → Bool) where
    -- The body of the loop over completions: the actions, and whether to arm again.
    unfoldable pub handle_result : ℤ → List Action
    handle_result (pos fd) = if close_ok fd then close fd ∷ [] else close fd ∷ warn_close fd ∷ []
    handle_result (negsuc m) =
        let errno = saturating_neg m in
        if not (errno == k.eagain) && not (errno == k.ewouldblock)
        then warn_accept errno ∷ sleep_ms accept_error_backoff ∷ []
        else []

    unfoldable pub handle_completions : List Cqe → (rearm : Bool) → List Action × Bool
    unfolding handle_result
    handle_completions [] rearm = ([], rearm)
    handle_completions (c ∷ cs) rearm =
        let mine = c.user_data == accept_token in
        let (later, last) = handle_completions cs (rearm || mine) in
        ((if mine then handle_result c.result else []) ++ later, last)

    module _ (ring : Ring) where
      open ring use {R}

      -- The ring, or the error that ends the server.
      abbrev pub Next : Type 0
      Next = IoResult R

      unfoldable pub push_accept : (fd : ℕ) → R → Next
      push_accept fd r =
          elim (ring.push (record { fd = fd; flags = k.sock_cloexec; user_data = accept_token })
            r) [ some r' ↦ ok r' | none ↦ err would_block ]

      submit_armed : R → Next
      submit_armed r =
          let (result, r') = ring.submit r in elim result [ ok u ↦ ok r' | err e ↦ err e ]

      -- `push_accept` and `submit`, each with its `?`.
      unfoldable pub arm : (fd : ℕ) → R → Next
      unfolding push_accept submit_armed
      arm fd r = elim (push_accept fd r) [ ok r' ↦ submit_armed r' | err e ↦ err e ]

      -- After the wait: the completions are handled, and the accept is armed again if one was seen.
      unfoldable pub take_completions : (fd : ℕ) → R → Next × List Action
      take_completions fd r =
          let (cqes, r') = ring.completion r in
          let (actions, rearm) = handle_completions cqes false in
          (if rearm then arm fd r' else ok r', actions)

      abbrev pub is_interrupted : IoError → Bool
      is_interrupted interrupted = true
      is_interrupted _ = false

      -- One turn of the `loop` of `run_io_uring`.
      unfoldable pub turn : (fd : ℕ) → R → Next × List Action
      turn fd r =
          let (waited, r') = ring.submit_and_wait r in
          elim waited [
            | ok u ↦ take_completions fd r'
            | err e ↦ if is_interrupted e then (ok r', []) else (err e, [])
          ]

      -- As many turns, unless an error ends the server before.
      unfoldable pub turns : ℕ → (fd : ℕ) → R → Next × List Action
      turns zero fd r = (ok r, [])
      turns (suc rounds) fd r =
          let (next, actions) = turn fd r in
          elim next [
            | err e ↦ (err e, actions)
            | ok r' ↦ let (last, later) = turns rounds fd r' in (last, actions ++ later)
          ]

      unfoldable pub run_io_uring : (rounds fd : ℕ) → R → Next × List Action
      unfolding turns
      run_io_uring rounds fd r = elim (arm fd r) [
        | ok r' ↦ turns rounds fd r'
        | err e ↦ (err e, [])
      ]

-- The blocking loop, over what its calls of `accept` answer: the descriptor of a stream, or an error.
-- Each stream is dropped at once, which closes its descriptor.
unfoldable pub run_blocking : List (IoResult ℕ) → List Action
run_blocking [] = []
run_blocking (ok fd ∷ later) = close fd ∷ run_blocking later
run_blocking (err e ∷ later) =
    warn_accept_error e ∷ sleep_ms accept_error_backoff ∷ run_blocking later
