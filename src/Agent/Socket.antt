-- ===== src/Agent/Socket.antt =====
-- A whole run of `run_probe` of src/main.rs that exports to the Unix socket of collectd, and the
-- abstract record of what the open stream holds.
use mathlib.Core.Option
use mathlib.Core.Path.{subst}
use mathlib.Core.List.{append_assoc, append-nil}
use wire_probe.Prelude.{
  ℕ, ◌≤◌, ◌≡◌, refl, sym, Bool, true, false, List, [], ◌∷◌, ◌++◌, map, Text, Bytes, Option, none,
  some, arith, All, inl, inr, Option-cases, if◌then◌else◌,
}
use wire_probe.Std.Net.{SocketAddr}
use wire_probe.Std.Io.{IoResult, ok, err}
use wire_probe.Std.Numbers.{u64_max}
use wire_probe.Std.Time
use wire_probe.External.{Numerics, IsNumerics}
use wire_probe.Cli.Types.{collectd_uds}
use wire_probe.Cli.Sanitize.{IsLabel}
use wire_probe.Probe.{Endian}
use wire_probe.Resolution.{adopt}
use wire_probe.Exporter
use wire_probe.Exporter.{Exporter, telegraf, collectd}
use wire_probe.Exporter.Collectd
use wire_probe.Exporter.Collectd.{CollectdExporter, exec, uds, Write, wrote, failed_after}
use wire_probe.Exporter.Collectd.Laws.{putval, format_line-putval}
use wire_probe.Exporter.Collectd.Reader.{read_putval, read_putval-putval}
use wire_probe.Exporter.Collectd.Framing.{flatten, Reconnects}
use wire_probe.Agent.{
  Cycle, Loop, interval_secs, send_probe, send_measured, conclude, cycle, run_loop,
}
use wire_probe.Agent.Start.{running, start, start_with, start-resolved}
use wire_probe.Agent.Laws.{cycle_returns}
use wire_probe.Agent.Points.{value_of, measured}
use wire_probe.Agent.Stdout.{interval_secs-le}

abbrev pub is_written : Write → Bool
is_written wrote = true
is_written (failed_after k e) = false

-- If a write fails in the cycle, the socket is there to reconnect to.
abbrev pub IsServed : Cycle → Type 0
IsServed c = Reconnects c.answers.stream

-- The open stream of an exporter, and nothing for stdout and UDP.
abbrev pub open_stream : Exporter → Option Bytes
open_stream (telegraf e) = none
open_stream (collectd e) = elim e.dest [ exec ↦ none | uds path stream ↦ some stream ]

-- A reader of the documented format finds these values in the bytes, under these names, and nothing
-- else.
abbrev pub Reads : (host target : Bytes) (k : ℕ) → List (Option Bytes) → Bytes → Type 0
Reads host target k [] s = s ≡ []
Reads host target k (v ∷ vs) s =
    (rest : Bytes) × (read_putval s
      ≡ some (record { host = host; target = target; interval = k; rtt_ms = v }, rest))
    × Reads host target k vs rest

module _ (n : Numerics) (endian : Endian) where
  -- The values sent since the stream was opened: a failed write begins a new stream.
  abbrev pub journal : List (Option n.F64) → List Cycle → List (Option n.F64)
  journal acc [] = acc
  journal acc (c ∷ cs) =
      journal
        (if is_written c.answers.stream.write
          then acc ++ (value_of (measured n endian c) ∷ [])
          else [])
        cs

  abbrev pub lines : Bytes → List (Option n.F64) → Bytes
  lines prefix vs = flatten (map (putval n prefix) vs)

  lines-snoc :
      (prefix : Bytes) (vs : List (Option n.F64)) (v : Option n.F64)
      → lines prefix (vs ++ (v ∷ [])) ≡ lines prefix vs ++ putval n prefix v
  lines-snoc prefix [] v = append-nil _
  lines-snoc prefix (w ∷ vs) v =
      rw (lines-snoc prefix vs v) (sym (append_assoc (putval n prefix w) (lines prefix vs) _))

  lines-Reads :
      IsNumerics n
      → (host target : Text) (k : ℕ) (vs : List (Option n.F64)) → IsLabel host
      → IsLabel target
      → k ≤ u64_max
      → Reads host target k
          (map (Option.map n.ryu) vs)
          (lines (Collectd.build_prefix n host target k) vs)
  lines-Reads v host target k [] lh lt small = refl
  lines-Reads v host target k (x ∷ vs) lh lt small =
      let prefix = Collectd.build_prefix n host target k in
      (
        lines prefix vs,
        read_putval-putval n v host target k x (lines prefix vs) lh lt small,
        lines-Reads v host target k vs lh lt small,
      )

  -- An exporter to the socket whose stream holds the lines of these values.
  pub record IsSocket (path : Text) (prefix : Bytes) (vs : List (Option n.F64)) (exp : Exporter)
      : Type 0 where
    pub exporter : CollectdExporter
    pub is : exp ≡ collectd exporter
    pub labelled : exporter.prefix ≡ prefix
    pub holds : exporter.dest ≡ uds path (lines prefix vs)

  pub IsSocket-open_stream :
      (path : Text) (prefix : Bytes) (vs : List (Option n.F64)) (exp : Exporter)
      → IsSocket path prefix vs exp
      → open_stream exp ≡ some (lines prefix vs)
  IsSocket-open_stream path prefix vs exp x = ground arith

  send_line-IsSocket :
      (path : Text) (prefix : Bytes) (vs : List (Option n.F64)) (e : CollectdExporter)
      (v : Option n.F64) (a : Collectd.Answers)
      → e.prefix ≡ prefix
      → e.dest ≡ uds path (lines prefix vs)
      → Reconnects a
      → let e' = (Collectd.send_line n e v a).0 in
        (e'.prefix ≡ prefix)
        × (e'.dest ≡ uds path (lines prefix (if is_written a.write then vs ++ (v ∷ []) else [])))
  unfolding Collectd.send_line Collectd.flush_line Collectd.format_line
  send_line-IsSocket path prefix vs e v a p d r =
      ground (arith, format_line-putval n e v, lines-snoc prefix vs v)

  abbrev next_journal : List (Option n.F64) → Cycle → List (Option n.F64)
  next_journal vs c =
      if is_written c.answers.stream.write then vs ++ (value_of (measured n endian c) ∷ []) else []

  sent-IsSocket :
      (path : Text) (prefix : Bytes) (vs : List (Option n.F64)) (s : Loop) (c : Cycle)
      (m : IoResult n.F64)
      → IsSocket path prefix vs s.exp
      → IsServed c
      → IsSocket path prefix
          (if is_written c.answers.stream.write then vs ++ (value_of m ∷ []) else [])
          (send_measured n endian s c m).exp
  unfolding send_measured Exporter.send Exporter.send_failure Collectd.send Collectd.send_failure
  sent-IsSocket path prefix vs s c (ok rtt) x r =
      let f =
        send_line-IsSocket path prefix vs x.exporter (some rtt) c.answers.stream x.labelled x.holds
          r in
      rw x.is (record { exporter = _; is = refl; labelled = f.0; holds = f.1 })
  sent-IsSocket path prefix vs s c (err e) x r =
      let f =
        send_line-IsSocket path prefix vs x.exporter none c.answers.stream x.labelled x.holds r in
      rw x.is (record { exporter = _; is = refl; labelled = f.0; holds = f.1 })

  cycle-IsSocket :
      (path : Text) (prefix : Bytes) (vs : List (Option n.F64)) (interval : Time.Duration)
      (s : Loop) (c : Cycle)
      → IsSocket path prefix vs s.exp
      → IsServed c
      → (s' : Loop) × ((cycle n endian (collectd_uds path) interval s c).0 ≡ some s')
        × IsSocket path prefix (next_journal vs c) s'.exp
  unfolding cycle conclude send_probe
  cycle-IsSocket path prefix vs interval s c x r =
      let sent = sent-IsSocket path prefix vs s c (measured n endian c) x r in
      elim (Option-cases (cycle n endian (collectd_uds path) interval s c).0) [
        | inl e ↦ cc ((cycle_returns n endian (collectd_uds path) interval s c).0 e).0
        | inr (s', e) ↦
            let same : (send_measured n endian s c (measured n endian c)).exp ≡ s'.exp =
              ground arith in
            (s', e, subst (IsSocket path prefix (next_journal vs c)) same sent)
      ]

  run_loop-IsSocket :
      (path : Text) (prefix : Bytes) (interval : Time.Duration) (cs : List Cycle)
      (vs : List (Option n.F64)) (s : Loop)
      → IsSocket path prefix vs s.exp
      → All IsServed cs
      → (s' : Loop) × ((run_loop n endian (collectd_uds path) interval s cs).0 ≡ some s')
        × IsSocket path prefix (journal vs cs) s'.exp
  unfolding run_loop
  run_loop-IsSocket path prefix interval [] vs s x all = (s, refl, x)
  run_loop-IsSocket path prefix interval (c ∷ cs) vs s x all =
      let (s1, e, x1) = cycle-IsSocket path prefix vs interval s c x all.0 in
      let (s', last, x') =
        run_loop-IsSocket path prefix interval cs (next_journal vs c) s1 x1 all.1 in
      (s', ground arith, x')

  pub start_with-IsSocket :
      (path target az host : Text) (interval : Time.Duration) (fresh : List SocketAddr)
      (o : Exporter.Opening) (warned : Bool) (s : Loop)
      → start_with n (collectd_uds path) target az host interval (adopt fresh) o ≡ running warned s
      → IsSocket path (Collectd.build_prefix n host target (interval_secs interval)) [] s.exp
  unfolding start_with adopt Exporter.new Collectd.new_uds
  start_with-IsSocket path target az host interval [] o warned s h = cc
  start_with-IsSocket path target az host interval (a ∷ rest) o warned s h = ground arith

  -- A probe that comes to its loop with the socket of collectd as its destination, under a host and
  -- a target that are labels, stays in the loop over cycles in which reconnections succeed. The
  -- open stream implements a journal of the values sent since the last write that failed: a reader
  -- of the documented format finds in it exactly these values, under the host, the target and the
  -- announced seconds of the interval, in order and with nothing else between or behind them. The
  -- number formatters do what their crates document.
  pub start-Reads_socket :
      IsNumerics n
      → (path target az host : Text) (interval : Time.Duration)
      → (answer : IoResult (List SocketAddr)) (o : Exporter.Opening) (warned : Bool) (s : Loop)
      → (cs : List Cycle) → IsLabel host
      → IsLabel target
      → All IsServed cs
      → start n (collectd_uds path) target az host interval answer o ≡ running warned s
      → (s' : Loop) × (stream : Bytes) × ((run_loop n endian (collectd_uds path) interval s cs).0
          ≡ some s')
        × (open_stream s'.exp ≡ some stream)
        × Reads host target (interval_secs interval) (map (Option.map n.ryu) (journal [] cs)) stream
  start-Reads_socket v path target az host interval answer o warned s cs lh lt all h =
      let prefix = Collectd.build_prefix n host target (interval_secs interval) in
      let (fresh, started) =
        start-resolved n (collectd_uds path) target az host interval answer o warned s h in
      let x = start_with-IsSocket path target az host interval fresh o warned s started in
      let (s', last, x') = run_loop-IsSocket path prefix interval cs [] s x all in
      (
        s',
        lines prefix (journal [] cs),
        last,
        IsSocket-open_stream path prefix (journal [] cs) s'.exp x',
        lines-Reads v host target (interval_secs interval) (journal [] cs) lh lt
            (interval_secs-le interval),
      )
