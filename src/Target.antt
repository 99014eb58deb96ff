-- ===== src/Target.antt =====
-- `resolve` and `rotate_target` of src/main.rs, and what the probe writes to stderr.
use wire_probe.Prelude.{ℕ, Bool, true, false, List, [], ◌∷◌, ◌++◌}
use wire_probe.Std.Net.{SocketAddr}
use wire_probe.Std.Io.{IoError, not_found, IoResult, ok, err}
use wire_probe.Resolution.{Targets, apply_resolution}

-- `resolve`: the addresses in the resolver's order, and an error if there are none.
unfoldable pub resolve : IoResult (List SocketAddr) → IoResult (List SocketAddr)
resolve (err e) = err e
resolve (ok []) = err not_found
resolve (ok (a ∷ rest)) = ok (a ∷ rest)

-- What is written to stderr.
pub data Log : Type 0 where
  now_resolves_to : List SocketAddr → Log
  trying_next : SocketAddr → Log
  reresolving_failed : IoError → Log
  probe_error : IoError → Log
  stdout_closed : Log
  export_error : IoError → Log
  cycle_overran : (elapsed_ms interval_ms : ℕ) → Log

abbrev pub log_if : Bool → Log → List Log
log_if true l = l ∷ []
log_if false l = []

unfoldable pub rotate_resolved : Targets → IoResult (List SocketAddr) → Targets × List Log
rotate_resolved t (ok fresh) =
    let (t', outcome) = apply_resolution t fresh in
    (
      t',
      log_if outcome.list_changed (now_resolves_to t'.addrs)
          ++ log_if outcome.moved (trying_next t'.current),
    )
rotate_resolved t (err e) = (t, reresolving_failed e ∷ [])

unfoldable pub rotate_target : Targets → IoResult (List SocketAddr) → Targets × List Log
unfolding rotate_resolved resolve
rotate_target t answer = rotate_resolved t (resolve answer)
