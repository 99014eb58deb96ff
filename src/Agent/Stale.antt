-- ===== src/Agent/Stale.antt =====
-- A whole run of `run_probe` of src/main.rs that exports to the Unix socket of collectd, where
-- reconnections may be refused.
use mathlib.Core.Path.{subst}
use wire_probe.Prelude.{
  ℕ, ◌<◌, ◌≡◌, refl, ap, ◌∙◌, Bool, List, [], ◌∷◌, ◌++◌, take, map, Text, Bytes, Option, none, some,
  arith, All, inl, inr, Option-cases, length,
}
use wire_probe.Std.Net.{SocketAddr}
use wire_probe.Std.Io.{IoError, IoResult, ok, err}
use wire_probe.Std.Time
use wire_probe.External.{Numerics, IsNumerics}
use wire_probe.Cli.Types.{collectd_uds}
use wire_probe.Cli.Sanitize.{IsLabel}
use wire_probe.Probe.{Endian}
use wire_probe.Exporter
use wire_probe.Exporter.{Exporter, telegraf, collectd}
use wire_probe.Exporter.Collectd
use wire_probe.Exporter.Collectd.{
  CollectdExporter, uds, Write, wrote, failed_after, Answers, connect_uds, reconnect, flush_line,
}
use wire_probe.Exporter.Collectd.Laws.{putval, format_line-dest, format_line-putval}
use wire_probe.Exporter.Collectd.Lines.{putval-IsLine}
use wire_probe.Exporter.Collectd.Framing.{
  stream_of, read_lines, Session, deliver, deliver_all, opened,
}
use wire_probe.Exporter.Collectd.Stale.{glued, no_frames, frames_of, IsSent, deliver_all-frames}
use wire_probe.Agent.{
  Cycle, Loop, interval_secs, send_probe, send_measured, conclude, cycle, run_loop,
}
use wire_probe.Agent.Start.{running, start, start-resolved}
use wire_probe.Agent.Laws.{cycle_returns}
use wire_probe.Agent.Points.{value_of, measured}
use wire_probe.Agent.Socket.{open_stream, start_with-IsSocket}

reconnect-uds :
    (path : Text) (stream : Bytes) (e : IoError) (r : IoResult Bytes)
    → (reconnect path stream e r).dest ≡ uds path (stream_of (reconnect path stream e r).dest)
unfolding reconnect
reconnect-uds path stream e (ok fresh) = refl
reconnect-uds path stream e (err x) = refl

abbrev pub prefix_of : Exporter → Bytes
prefix_of (telegraf e) = e.prefix
prefix_of (collectd e) = e.prefix

flush_line-uds :
    (path : Text) (stream line : Bytes) (w : Write) (a : Answers)
    → (flush_line (uds path stream) line w a).dest
      ≡ uds path (stream_of (flush_line (uds path stream) line w a).dest)
unfolding flush_line
flush_line-uds path stream line wrote a = refl
flush_line-uds path stream line (failed_after k e) a =
    reconnect-uds path (stream ++ take k line) e (connect_uds a.connect a.set_write_timeout)

module _ (n : Numerics) (endian : Endian) where
  -- The line of a cycle, with the answers that it meets.
  abbrev pub item_of : (prefix : Bytes) → Cycle → Bytes × Answers
  item_of prefix c = (putval n prefix (value_of (measured n endian c)), c.answers.stream)

  -- `write_all` fails only in front of a byte of the cycle's line that it has not written.
  pub record IsTorn (prefix : Bytes) (c : Cycle) : Type 0 where
    pub inside :
        (k : ℕ) (e : IoError)
        → c.answers.stream.write ≡ failed_after k e
        → k < length (putval n prefix (value_of (measured n endian c)))

  -- An exporter to the socket, whose stream is that of a session.
  record IsStream (path : Text) (prefix : Bytes) (o : Session) (exp : Exporter) : Type 0 where
    exporter : CollectdExporter
    is : exp ≡ collectd exporter
    labelled : exporter.prefix ≡ prefix
    holds : exporter.dest ≡ uds path o.stream

  start-IsStream :
      (path target az host : Text) (interval : Time.Duration)
      → (answer : IoResult (List SocketAddr)) (o : Exporter.Opening) (warned : Bool) (s : Loop)
      → start n (collectd_uds path) target az host interval answer o ≡ running warned s
      → IsStream path (Collectd.build_prefix n host target (interval_secs interval)) opened s.exp
  start-IsStream path target az host interval answer o warned s h =
      let (fresh, started) =
        start-resolved n (collectd_uds path) target az host interval answer o warned s h in
      let y = start_with-IsSocket n endian path target az host interval fresh o warned s started in
      record { exporter = y.exporter; is = y.is; labelled = y.labelled; holds = y.holds }

  -- The prefix of an exporter is the one that it was labelled with.
  pub start-prefix_of :
      (path target az host : Text) (interval : Time.Duration)
      → (answer : IoResult (List SocketAddr)) (o : Exporter.Opening) (warned : Bool) (s : Loop)
      → start n (collectd_uds path) target az host interval answer o ≡ running warned s
      → prefix_of s.exp ≡ Collectd.build_prefix n host target (interval_secs interval)
  start-prefix_of path target az host interval answer o warned s h =
      let x = start-IsStream path target az host interval answer o warned s h in
      ap prefix_of x.is ∙ x.labelled

  send_line-IsStream :
      (path : Text) (prefix : Bytes) (o : Session) (e : CollectdExporter) (v : Option n.F64)
      (a : Answers)
      → e.prefix ≡ prefix
      → e.dest ≡ uds path o.stream
      → let e' = (Collectd.send_line n e v a).0 in
        (e'.prefix ≡ prefix) × (e'.dest ≡ uds path (deliver path o (putval n prefix v, a)).stream)
  unfolding Collectd.send_line deliver
  send_line-IsStream path prefix o e v a p d = (
    unfold Collectd.format_line in p,
    rw (format_line-putval n e v, format_line-dest n e v, p, d)
        (flush_line-uds path o.stream (putval n prefix v) a.write a),
  )

  sent-IsStream :
      (path : Text) (prefix : Bytes) (o : Session) (s : Loop) (c : Cycle) (m : IoResult n.F64)
      → IsStream path prefix o s.exp
      → IsStream path prefix
          (deliver path o (putval n prefix (value_of m), c.answers.stream))
          (send_measured n endian s c m).exp
  unfolding send_measured Exporter.send Exporter.send_failure Collectd.send Collectd.send_failure
  sent-IsStream path prefix o s c (ok rtt) x =
      let f =
        send_line-IsStream path prefix o x.exporter (some rtt) c.answers.stream x.labelled
          x.holds in
      rw x.is (record { exporter = _; is = refl; labelled = f.0; holds = f.1 })
  sent-IsStream path prefix o s c (err e) x =
      let f =
        send_line-IsStream path prefix o x.exporter none c.answers.stream x.labelled x.holds in
      rw x.is (record { exporter = _; is = refl; labelled = f.0; holds = f.1 })

  cycle-IsStream :
      (path : Text) (prefix : Bytes) (o : Session) (interval : Time.Duration) (s : Loop) (c : Cycle)
      → IsStream path prefix o s.exp
      → (s' : Loop) × ((cycle n endian (collectd_uds path) interval s c).0 ≡ some s')
        × IsStream path prefix (deliver path o (item_of prefix c)) s'.exp
  unfolding cycle conclude send_probe
  cycle-IsStream path prefix o interval s c x =
      let sent = sent-IsStream path prefix o s c (measured n endian c) x in
      elim (Option-cases (cycle n endian (collectd_uds path) interval s c).0) [
        | inl e ↦ cc ((cycle_returns n endian (collectd_uds path) interval s c).0 e).0
        | inr (s', e) ↦
            let same : (send_measured n endian s c (measured n endian c)).exp ≡ s'.exp =
              ground arith in
            (s', e, subst (IsStream path prefix (deliver path o (item_of prefix c))) same sent)
      ]

  run_loop-IsStream :
      (path : Text) (prefix : Bytes) (interval : Time.Duration) (cs : List Cycle) (o : Session)
      (s : Loop)
      → IsStream path prefix o s.exp
      → (s' : Loop) × ((run_loop n endian (collectd_uds path) interval s cs).0 ≡ some s')
        × IsStream path prefix (deliver_all path (map (item_of prefix) cs) o) s'.exp
  unfolding run_loop deliver_all
  run_loop-IsStream path prefix interval [] o s x = (s, refl, x)
  run_loop-IsStream path prefix interval (c ∷ cs) o s x =
      let (s1, e, x1) = cycle-IsStream path prefix o interval s c x in
      let (s', last, x') =
        run_loop-IsStream path prefix interval cs (deliver path o (item_of prefix c)) s1 x1 in
      (s', ground arith, x')

  items-AreSent :
      IsNumerics n
      → (host target : Text) (k : ℕ) (cs : List Cycle) → IsLabel host
      → IsLabel target
      → let prefix = Collectd.build_prefix n host target k in
        All (IsTorn prefix) cs → All IsSent (map (item_of prefix) cs)
  items-AreSent v host target k [] lh lt all = tt
  items-AreSent v host target k (c ∷ cs) lh lt all = (
    record {
      whole = putval-IsLine n v host target k (value_of (measured n endian c)) lh lt;
      torn = all.0.inside;
    },
    items-AreSent v host target k cs lh lt all.1,
  )

  pub start-frames :
      IsNumerics n
      → (path target az host : Text) (interval : Time.Duration)
      → (answer : IoResult (List SocketAddr)) (o : Exporter.Opening) (warned : Bool) (s : Loop)
      → (cs : List Cycle) → IsLabel host
      → IsLabel target
      → All (IsTorn (prefix_of s.exp)) cs
      → start n (collectd_uds path) target az host interval answer o ≡ running warned s
      → let f = frames_of (map (item_of (prefix_of s.exp)) cs) no_frames in
        (s' : Loop) × (stream : Bytes) × ((run_loop n endian (collectd_uds path) interval s cs).0
          ≡ some s')
        × (open_stream s'.exp ≡ some stream)
        × (read_lines stream ≡ (map glued f.closed, f.torn))
  start-frames v path target az host interval answer o warned s cs lh lt all h =
      let k = interval_secs interval in
      let prefix = Collectd.build_prefix n host target k in
      let labelled = start-prefix_of path target az host interval answer o warned s h in
      let x = start-IsStream path target az host interval answer o warned s h in
      let (s', last, x') = run_loop-IsStream path prefix interval cs opened s x in
      let session = deliver_all path (map (item_of prefix) cs) opened in
      let sent =
        items-AreSent v host target k cs lh lt (subst (λ p. All (IsTorn p) cs) labelled all) in
      (
        s',
        session.stream,
        last,
        (let is = x'.is in let holds = x'.holds in ground arith),
        rw labelled (deliver_all-frames path (map (item_of prefix) cs) sent).0,
      )
