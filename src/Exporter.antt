-- ===== src/Exporter.antt =====
-- `Exporter` of src/exporter/mod.rs: the choice between the two exporters.
pub mod Scan
pub mod Telegraf
pub mod Collectd
use wire_probe.Prelude.{ℕ, Text, Bytes, Option, none, some}
use wire_probe.Std.Io.{IoError, IoResult, ok, err}
use wire_probe.External.{Numerics}
use wire_probe.Cli.Types.{ExportDst, telegraf_udp, collectd_uds, collectd_exec}
use wire_probe.Exporter.Telegraf
use wire_probe.Exporter.Telegraf.{TelegrafExporter}
use wire_probe.Exporter.Collectd
use wire_probe.Exporter.Collectd.{CollectdExporter, Answers, Flushed}

pub data Exporter : Type 0 where
  telegraf : TelegrafExporter → Exporter
  collectd : CollectdExporter → Exporter

-- The answers that opening an exporter may meet.
pub record Opening : Type 0 where
  pub udp_bind : IoResult (Unit {0})
  pub udp_connect : IoResult (Unit {0})
  pub uds_connect : IoResult (Unit {0})
  pub uds_timeout : IoResult (Unit {0})

-- The answers that one send may meet: of the UDP socket, and of a stream.
pub record SendAnswers : Type 0 where
  pub datagram : IoResult (Unit {0})
  pub stream : Answers

-- What a send shows: a datagram, or what a flush did.
pub data Emitted : Type 0 where
  datagram : Bytes → Emitted
  flushed : Flushed → Emitted

abbrev map_result {ℓ κ} : {A : Type ℓ} {B : Type κ} → (A → B) → IoResult A → IoResult B
map_result f (ok a) = ok (f a)
map_result f (err e) = err e

module _ (n : Numerics) where
  unfoldable pub new :
      ExportDst → (target_name az hostname : Text) (interval_secs : ℕ) → Opening → IoResult Exporter
  new (telegraf_udp addr) target_name az hostname interval_secs o =
      map_result telegraf (Telegraf.new o.udp_bind o.udp_connect target_name az)
  new (collectd_uds path) target_name az hostname interval_secs o =
      map_result collectd
        (Collectd.new_uds n path hostname target_name interval_secs o.uds_connect o.uds_timeout)
  new collectd_exec target_name az hostname interval_secs o =
      ok (collectd (Collectd.new_exec n hostname target_name interval_secs))

  abbrev pub Outcome : Type 0
  Outcome = Exporter × Emitted × IoResult (Unit {0})

  abbrev of_telegraf : TelegrafExporter × Bytes × IoResult (Unit {0}) → Outcome
  of_telegraf (e, line, result) = (telegraf e, datagram line, result)

  abbrev of_collectd : CollectdExporter × Flushed → Outcome
  of_collectd (e, f) = (collectd e, flushed f, f.result)

  unfoldable pub send : Exporter → n.F64 → (ts_ns : ℕ) → SendAnswers → Outcome
  send (telegraf e) rtt_ms ts_ns a = of_telegraf (Telegraf.send n e rtt_ms ts_ns a.datagram)
  send (collectd e) rtt_ms ts_ns a = of_collectd (Collectd.send n e rtt_ms a.stream)

  unfoldable pub send_failure : Exporter → (ts_ns : ℕ) → SendAnswers → Outcome
  send_failure (telegraf e) ts_ns a = of_telegraf (Telegraf.send_failure n e ts_ns a.datagram)
  send_failure (collectd e) ts_ns a = of_collectd (Collectd.send_failure n e a.stream)
