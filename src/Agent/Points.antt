-- ===== src/Agent/Points.antt =====
-- What a consumer reads of a cycle of `run_probe` in src/main.rs: the measurement, through
-- src/exporter/mod.rs and the exporter, to the line that leaves the process.
use mathlib.Core.Option
use mathlib.Core.Path.{subst}
use wire_probe.Prelude.{
  ℕ, ◌≤◌, ◌≡◌, refl, sym, ap, ◌∙◌, [], ◌++◌, Text, Bytes, Option, none, some, arith,
}
use mathlib.Core.List.{append-nil}
use wire_probe.Std.Io.{IoResult, ok, err}
use wire_probe.Std.Numbers.{u64_max}
use wire_probe.Std.Time
use wire_probe.Std.Time.{as_nanos}
use wire_probe.External.{Numerics, IsNumerics}
use wire_probe.Cli.Types.{ExportDst}
use wire_probe.Cli.Sanitize.{IsLabel}
use wire_probe.Probe.{Endian, measure_rtt}
use wire_probe.Exporter
use wire_probe.Exporter.{Exporter, Emitted, telegraf, collectd, datagram, flushed}
use wire_probe.Exporter.Telegraf
use wire_probe.Exporter.Telegraf.{TelegrafExporter}
use wire_probe.Exporter.Telegraf.Laws.{point, format_line-point}
use wire_probe.Exporter.Telegraf.Reader.{read_point, read_point-point}
use wire_probe.Exporter.Collectd
use wire_probe.Exporter.Collectd.{CollectdExporter, Dest, exec, wrote, Flushed}
use wire_probe.Exporter.Collectd.Laws.{putval, send_line-exec}
use wire_probe.Exporter.Collectd.Reader.{read_putval, read_putval-putval}
use wire_probe.Agent.{Cycle, Loop, Report, timestamp_ns, send_probe, send_measured, conclude, cycle}

-- The value of a measurement, and none of a failure.
abbrev pub value_of {ℓ} : {A : Type ℓ} → IoResult A → Option A
value_of (ok a) = some a
value_of (err e) = none

pub timestamp_ns-le : (since : Option Time.Duration) → timestamp_ns since ≤ u64_max
timestamp_ns-le none = omega arith
timestamp_ns-le (some d) = omega arith

-- An exporter whose lines carry these labels.
pub record IsTelegraf (target az : Text) (exp : Exporter) : Type 0 where
  pub exporter : TelegrafExporter
  pub is : exp ≡ telegraf exporter
  pub labelled : exporter.prefix ≡ Telegraf.build_prefix target az

module _ (n : Numerics) (endian : Endian) where
  abbrev pub measured : Cycle → IoResult n.F64
  measured c = measure_rtt n endian c.connected c.connect_time c.sockopt

  -- What both arms hand to a Telegraf exporter.
  sent_point :
      (s : Loop) (c : Cycle) (e : TelegrafExporter) (m : IoResult n.F64)
      → s.exp ≡ telegraf e
      → (send_measured n endian s c m).emitted
        ≡ datagram (point n e.prefix (value_of m) (timestamp_ns c.since_epoch))
  unfolding send_measured Exporter.send Exporter.send_failure Telegraf.send Telegraf.send_failure
  sent_point s c e (ok rtt) is =
      ground (arith, format_line-point n e.prefix (some rtt) (timestamp_ns c.since_epoch) e.buf)
  sent_point s c e (err x) is =
      ground (arith, format_line-point n e.prefix none (timestamp_ns c.since_epoch) e.buf)

  cycle-emitted :
      (export : ExportDst) (interval : Time.Duration) (s : Loop) (c : Cycle)
      → (cycle n endian export interval s c).1.emitted
        ≡ (send_measured n endian s c (measured c)).emitted
  unfolding cycle conclude send_probe
  cycle-emitted export interval s c = ground arith

  sent-IsTelegraf :
      (target az : Text) (s : Loop) (c : Cycle) (m : IoResult n.F64)
      → IsTelegraf target az s.exp
      → IsTelegraf target az (send_measured n endian s c m).exp
  unfolding send_measured Exporter.send Exporter.send_failure Telegraf.send Telegraf.send_failure
  sent-IsTelegraf target az s c (ok rtt) t =
      rw t.is (record { exporter = _; is = refl; labelled = t.labelled })
  sent-IsTelegraf target az s c (err x) t =
      rw t.is (record { exporter = _; is = refl; labelled = t.labelled })

  -- Every cycle of a probe that exports to Telegraf hands one datagram to the socket. A reader of
  -- the documented format finds in it the labels, the measured value as `ryu` writes it or no value
  -- after a failed probe, and the time of the cycle, and nothing behind them.
  pub cycle-read_point :
      IsNumerics n
      → (target az : Text) (export : ExportDst) (interval : Time.Duration) (s : Loop) (c : Cycle)
      → IsLabel target
      → IsLabel az
      → IsTelegraf target az s.exp
      → (line : Bytes) × ((cycle n endian export interval s c).1.emitted ≡ datagram line)
        × (read_point line
            ≡ some (
              record {
                target = target;
                az = az;
                rtt_ms = Option.map n.ryu (value_of (measured c));
                ts_ns = timestamp_ns c.since_epoch;
              },
              [],
            ))
  cycle-read_point v target az export interval s c lt lz t =
      let ts = timestamp_ns c.since_epoch in
      (
        point n (Telegraf.build_prefix target az) (value_of (measured c)) ts,
        cycle-emitted export interval s c
            ∙ (sent_point s c t.exporter (measured c) t.is
                ∙ ap (λ p. datagram (point n p (value_of (measured c)) ts)) t.labelled),
        read_point-point n v target az (value_of (measured c)) ts lt lz
            (timestamp_ns-le c.since_epoch),
      )

  -- The labels stay for the life of the process.
  pub cycle-IsTelegraf :
      (target az : Text) (export : ExportDst) (interval : Time.Duration) (s s' : Loop) (c : Cycle)
      (r : Report)
      → IsTelegraf target az s.exp
      → cycle n endian export interval s c ≡ (some s', r)
      → IsTelegraf target az s'.exp
  unfolding cycle conclude send_probe
  cycle-IsTelegraf target az export interval s s' c r t h =
      let e : (send_measured n endian s c (measured c)).exp ≡ s'.exp = ground arith in
      subst (IsTelegraf target az) e (sent-IsTelegraf target az s c (measured c) t)

  -- The same for collectd, over stdout.
  sent_line :
      (s : Loop) (c : Cycle) (e : CollectdExporter) (m : IoResult n.F64)
      → s.exp ≡ collectd e
      → e.dest ≡ exec
      → c.answers.stream.write ≡ wrote
      → (f : Flushed) × ((send_measured n endian s c m).emitted ≡ flushed f)
        × (f.stdout ≡ putval n e.prefix (value_of m))
  unfolding send_measured Exporter.send Exporter.send_failure Collectd.send Collectd.send_failure
  sent_line s c e (ok rtt) is d w = (
    (Collectd.send_line n e (some rtt) c.answers.stream).1,
    rw is refl,
    send_line-exec n e (some rtt) c.answers.stream d w,
  )
  sent_line s c e (err x) is d w = (
    (Collectd.send_line n e none c.answers.stream).1,
    rw is refl,
    send_line-exec n e none c.answers.stream d w,
  )

  -- A cycle of a probe that exports to collectd over stdout writes one PUTVAL line there, if the
  -- write succeeds. A reader of the documented format finds in it the host, the target, the
  -- interval and the measured value as `ryu` writes it, or no value after a failed probe, and
  -- nothing behind them. The host and the target are labels, and the exporter has the prefix that
  -- is built of them and the interval.
  pub cycle-read_putval :
      IsNumerics n
      → (host target : Text) (k : ℕ) (export : ExportDst) (interval : Time.Duration) (s : Loop)
        (c : Cycle) (e : CollectdExporter)
      → IsLabel host
      → IsLabel target
      → k ≤ u64_max
      → s.exp ≡ collectd e
      → e.dest ≡ exec
      → e.prefix ≡ Collectd.build_prefix n host target k
      → c.answers.stream.write ≡ wrote
      → (f : Flushed) × ((cycle n endian export interval s c).1.emitted ≡ flushed f)
        × (read_putval f.stdout
            ≡ some (
              record {
                host = host;
                target = target;
                interval = k;
                rtt_ms = Option.map n.ryu (value_of (measured c));
              },
              [],
            ))
  cycle-read_putval v host target k export interval s c e lh lt small is d labelled w =
      let (f, emits, line) = sent_line s c e (measured c) is d w in
      let whole : f.stdout
          ≡ putval n (Collectd.build_prefix n host target k) (value_of (measured c)) ++ [] =
        line ∙ ap (λ p. putval n p (value_of (measured c))) labelled ∙ sym (append-nil _) in
      (
        f,
        cycle-emitted export interval s c ∙ emits,
        ap read_putval whole
            ∙ read_putval-putval n v host target k (value_of (measured c)) [] lh lt small,
      )
