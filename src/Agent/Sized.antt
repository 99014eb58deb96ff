-- ===== src/Agent/Sized.antt =====
-- The buffer of a line over the life of the loop of `run_probe` in src/main.rs.
use mathlib.Core.Path.{subst}
use wire_probe.Prelude.{
  Bool, ℕ, ◌≡◌, refl, sym, ◌∙◌, List, [], ◌∷◌, Text, Option, none, some, arith, inl, inr,
}
use wire_probe.Std.Net.{SocketAddr}
use wire_probe.Std.Io.{IoResult, ok, err, IoResult-cases}
use wire_probe.Std.Time
use wire_probe.External.{Numerics, IsNumerics}
use wire_probe.Cli.Types.{ExportDst, telegraf_udp, collectd_uds, collectd_exec}
use wire_probe.Probe.{Endian}
use wire_probe.Resolution.{adopt}
use wire_probe.Exporter
use wire_probe.Exporter.{Exporter, telegraf, collectd}
use wire_probe.Exporter.Telegraf
use wire_probe.Exporter.Telegraf.{TelegrafExporter}
use wire_probe.Exporter.Telegraf.Laws as TelegrafLaws
use wire_probe.Exporter.Collectd
use wire_probe.Exporter.Collectd.{CollectdExporter, Answers}
use wire_probe.Exporter.Collectd.Laws as CollectdLaws
use wire_probe.Agent.Start.{running, start, start_with, start-resolved}
use wire_probe.Agent.{
  Cycle, Loop, Report, timestamp_ns, interval_secs, send_measured, send_probe, conclude, cycle,
}
use wire_probe.Agent.Points.{measured, timestamp_ns-le}
use wire_probe.Agent.Reach.{Reach, here, next}

abbrev pub capacity_of : Exporter → ℕ
capacity_of (telegraf e) = e.buf.capacity
capacity_of (collectd e) = e.buf.capacity

abbrev IsSized : Exporter → Type 0
IsSized (telegraf e) = TelegrafLaws.IsSized e
IsSized (collectd e) = CollectdLaws.IsSized e

-- Sized for every line, and with this capacity.
record Fits (c : ℕ) (exp : Exporter) : Type 0 where
  fits : IsSized exp
  kept : capacity_of exp ≡ c

module _ (n : Numerics) where
  line-Fits :
      IsNumerics n
      → (e : CollectdExporter) (rtt : Option n.F64) (a : Answers) → CollectdLaws.IsSized e
      → Fits e.buf.capacity (collectd (Collectd.send_line n e rtt a).0)
  unfolding Collectd.send_line Collectd.format_line
  line-Fits v e rtt a s =
      let after = CollectdLaws.send_line-IsSized n v e rtt a s in
      record { fits = after; kept = after.sized ∙ sym s.sized }

  send-Fits :
      IsNumerics n
      → (exp : Exporter) (rtt : n.F64) (since : Option Time.Duration) (a : Exporter.SendAnswers)
        (c : ℕ)
      → Fits c exp
      → Fits c (Exporter.send n exp rtt (timestamp_ns since) a).0
        × Fits c (Exporter.send_failure n exp (timestamp_ns since) a).0
  unfolding Exporter.send Exporter.send_failure Telegraf.send Telegraf.send_failure Collectd.send
      Collectd.send_failure
  send-Fits v (telegraf e) rtt since a c h =
      let after =
        TelegrafLaws.send-IsSized n v e rtt (timestamp_ns since) a.datagram h.fits
          (timestamp_ns-le since) in
      (
        record { fits = after.0; kept = after.0.sized ∙ (sym h.fits.sized ∙ h.kept) },
        record { fits = after.1; kept = after.1.sized ∙ (sym h.fits.sized ∙ h.kept) },
      )
  send-Fits v (collectd e) rtt since a c h =
      let one = line-Fits v e (some rtt) a.stream h.fits in
      let two = line-Fits v e none a.stream h.fits in
      (
        record { fits = one.fits; kept = one.kept ∙ h.kept },
        record { fits = two.fits; kept = two.kept ∙ h.kept },
      )

  new-Fits :
      (export : ExportDst) (target az host : Text) (k : ℕ) (o : Exporter.Opening) {exp : Exporter}
      → Exporter.new n export target az host k o ≡ ok exp
      → Fits (capacity_of exp) exp
  unfolding Exporter.new Collectd.new_exec
  new-Fits (telegraf_udp addr) target az host k o {exp} h =
      elim (IoResult-cases (Telegraf.new o.udp_bind o.udp_connect target az)) [
        | inl (e, found) ↦
            let is : telegraf e ≡ exp = ground arith in
            subst (λ x. Fits (capacity_of x) x) is
              (record {
                fits = TelegrafLaws.new-IsSized o.udp_bind o.udp_connect target az found;
                kept = refl;
              })
        | inr (e, failed) ↦ ground arith
      ]
  new-Fits (collectd_uds path) target az host k o {exp} h =
      elim (IoResult-cases (Collectd.new_uds n path host target k o.uds_connect o.uds_timeout)) [
        | inl (e, found) ↦
            let is : collectd e ≡ exp = ground arith in
            subst (λ x. Fits (capacity_of x) x) is
              (record {
                fits =
                    (CollectdLaws.new-IsSized n path host target k o.uds_connect o.uds_timeout
                      found).1;
                kept = refl;
              })
        | inr (e, failed) ↦ ground arith
      ]
  new-Fits collectd_exec target az host k o {exp} h =
      let e = Collectd.new_exec n host target k in
      let is : collectd e ≡ exp = ground arith in
      subst (λ x. Fits (capacity_of x) x) is
        (record { fits = record { sized = refl }; kept = refl })

  start-Fits :
      (export : ExportDst) (target az host : Text) (interval : Time.Duration)
      (fresh : List SocketAddr) (o : Exporter.Opening) (warned : Bool) (s : Loop)
      → start_with n export target az host interval (adopt fresh) o ≡ running warned s
      → Fits (capacity_of s.exp) s.exp
  unfolding start_with adopt
  start-Fits export target az host interval [] o warned s h = cc
  start-Fits export target az host interval (a ∷ rest) o warned s h =
      elim (IoResult-cases (Exporter.new n export target az host (interval_secs interval) o)) [
        | inl (exp, found) ↦
            let is : exp ≡ s.exp = ground arith in
            subst (λ x. Fits (capacity_of x) x) is (new-Fits export target az host _ o found)
        | inr (e, failed) ↦ ground arith
      ]

module _ (n : Numerics) (endian : Endian) where
  sent-Fits :
      IsNumerics n
      → (s : Loop) (c : Cycle) (m : IoResult n.F64) (k : ℕ) → Fits k s.exp
      → Fits k (send_measured n endian s c m).exp
  unfolding send_measured
  sent-Fits v s c (ok rtt) k h = (send-Fits n v s.exp rtt c.since_epoch c.answers k h).0
  sent-Fits v s c (err e) k h = (send-Fits n v s.exp (n.to_f64 0) c.since_epoch c.answers k h).1

  cycle-Fits :
      IsNumerics n
      → (export : ExportDst) (interval : Time.Duration) (s s' : Loop) (c : Cycle) (r : Report)
        (k : ℕ)
      → Fits k s.exp
      → cycle n endian export interval s c ≡ (some s', r)
      → Fits k s'.exp
  unfolding cycle conclude send_probe
  cycle-Fits v export interval s s' c r k f h =
      let e : (send_measured n endian s c (measured n endian c)).exp ≡ s'.exp = ground arith in
      subst (Fits k) e (sent-Fits v s c (measured n endian c) k f)

  Reach-Fits :
      IsNumerics n
      → (export : ExportDst) (interval : Time.Duration) (s0 : Loop) (first : List SocketAddr)
        (k : ℕ)
      → Fits k s0.exp
      → {s : Loop} {known : List SocketAddr} → Reach n endian export interval s0 first s known
      → Fits k s.exp
  Reach-Fits v export interval s0 first k f here = f
  Reach-Fits v export interval s0 first k f (next {s} {known} c s' r before h) =
      cycle-Fits v export interval s s' c r k (Reach-Fits v export interval s0 first k f before) h

  -- From the start of a probe with any destination, whatever its cycles meet, the buffer of a line
  -- has in every state that its loop reaches the capacity that it has at the start, so that no line
  -- makes it grow. The number formatters keep the lengths that their crates document.
  pub start-capacity_of :
      IsNumerics n
      → (export : ExportDst) (target az host : Text) (interval : Time.Duration)
      → (answer : IoResult (List SocketAddr)) (o : Exporter.Opening) (warned : Bool) (s0 s : Loop)
      → (first known : List SocketAddr)
      → start n export target az host interval answer o ≡ running warned s0
      → Reach n endian export interval s0 first s known
      → capacity_of s.exp ≡ capacity_of s0.exp
  start-capacity_of v export target az host interval answer o warned s0 s first known h reach =
      let (fresh, started) = start-resolved n export target az host interval answer o warned s0 h in
      (Reach-Fits v export interval s0 first (capacity_of s0.exp)
        (start-Fits n export target az host interval fresh o warned s0 started) reach).kept
