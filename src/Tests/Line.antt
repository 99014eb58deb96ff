-- ===== src/Tests/Line.antt =====
-- Lines and buffers: the tests of the exporters and of the measurement.
use mathlib.Core.Option
use wire_probe.Prelude.{
  map, arith, ◌+◌, ◌≡◌, refl, true, List, [], ◌∷◌, ◌++◌, Text, Bytes, codes, length, replicate,
  some, none,
}
use wire_probe.Std.Io.{broken_pipe, not_found, ok, err}
use wire_probe.Std.Time.{from_millis}
use wire_probe.Cli.Sanitize.{IsLabel}
use wire_probe.Exporter.Telegraf
use wire_probe.Exporter.Telegraf.{TelegrafExporter}
use wire_probe.Exporter.Telegraf.Reader.{read_point, read_point-format_line}
use wire_probe.Exporter.Collectd
use wire_probe.Exporter.Collectd.{CollectdExporter, exec, uds, Answers, wrote, failed_after}
use wire_probe.Exporter.Collectd.Reader.{read_putval, read_putval-format_line}
use wire_probe.Exporter.Collectd.Framing.{
  IsLine, read_lines, deliver, deliver_all, opened, Reconnects, deliver_all-read_lines,
}
use wire_probe.Exporter.Collectd.Stale.{IsSent, glued, no_frames, frames_of, deliver_all-frames}
use wire_probe.Exporter.Collectd.Torn.{refused-glues}
use wire_probe.Probe.{little, big, rtt_us_from_blob, measure_rtt}
use wire_probe.Probe.Laws.{
  TcpInfo, IsTcpInfo, blob, kernel_ms, wall_clock_ms, rtt_us_from_blob-accepted_rtt,
  measure_rtt-accepted_rtt,
}
use wire_probe.Tests.Data.{numerics, numerics-IsNumerics}

abbrev label : Text
label = codes "web"

label-IsLabel : IsLabel label
label-IsLabel = (refl, (refl, (refl, tt)))

abbrev udp : TelegrafExporter
udp = record {
  prefix = Telegraf.build_prefix label label;
  buf = record { bytes = []; capacity = length (Telegraf.build_prefix label label) + 64 };
}

send-IsSized_example :
    Telegraf.Laws.IsSized (Telegraf.send numerics udp 4 17 (ok tt)).0
    × Telegraf.Laws.IsSized (Telegraf.send_failure numerics udp 17 (ok tt)).0
send-IsSized_example =
    Telegraf.Laws.send-IsSized numerics numerics-IsNumerics udp 4 17 (ok tt)
      (record { sized = refl }) (omega arith)

read_point-format_line_example :
    read_point
      (Telegraf.format_line numerics (Telegraf.build_prefix label label) (some 4) 17 udp.buf).bytes
    ≡ some (record { target = label; az = label; rtt_ms = some (numerics.ryu 4); ts_ns = 17 }, [])
read_point-format_line_example =
    read_point-format_line numerics numerics-IsNumerics label label (some 4) 17 udp.buf
      label-IsLabel label-IsLabel (omega arith)

abbrev to_stdout : CollectdExporter
to_stdout = Collectd.new_exec numerics label label 60

read_putval-format_line_example :
    read_putval ((Collectd.format_line numerics to_stdout none).buf.bytes ++ codes "P")
    ≡ some (record { host = label; target = label; interval = 60; rtt_ms = none }, codes "P")
unfolding Collectd.new_exec
read_putval-format_line_example =
    read_putval-format_line numerics numerics-IsNumerics label label 60 to_stdout none (codes "P")
      label-IsLabel label-IsLabel (omega arith) refl

abbrev torn_write : Answers
torn_write = record {
  write = failed_after 2 broken_pipe;
  flush = ok tt;
  connect = ok tt;
  set_write_timeout = ok tt;
}

abbrev refused : Answers
refused = record torn_write { connect = err not_found }

abbrev whole_write : Answers
whole_write = record torn_write { write = wrote }

abbrev line : Bytes
line = codes "N:4\n"

line-IsLine : IsLine line
line-IsLine = record {
  body = codes "N:4";
  ended = refl;
  single = ((λ e. cc), ((λ e. cc), ((λ e. cc), tt)));
}

abbrev sends : List (Bytes × Answers)
sends = (line, whole_write) ∷ (line, torn_write) ∷ (line, whole_write) ∷ []

sends_stream : (deliver_all label sends opened).stream ≡ line
unfolding deliver_all Collectd.flush_line
sends_stream = refl

deliver_all-read_lines_example :
    read_lines (deliver_all label sends opened).stream
    ≡ ((deliver_all label sends opened).acked, [])
deliver_all-read_lines_example =
    let connects : Reconnects whole_write = record { connects = refl; bounded = refl } in
    let again : Reconnects torn_write = record { connects = refl; bounded = refl } in
    deliver_all-read_lines label sends
      ((line-IsLine, connects), ((line-IsLine, again), ((line-IsLine, connects), tt)))

abbrev torn_sends : List (Bytes × Answers)
torn_sends = (line, whole_write) ∷ (line, refused) ∷ (line, whole_write) ∷ []

written-IsSent : IsSent (line, whole_write)
written-IsSent = record { whole = line-IsLine; torn = λ k e h. cc }

refused-IsSent : IsSent (line, refused)
refused-IsSent = record { whole = line-IsLine; torn = λ k e h. let two : k ≡ 2 = cc in omega arith }

deliver_all-frames_example :
    let s = deliver_all label torn_sends opened in
    let f = frames_of torn_sends no_frames in
    (read_lines s.stream ≡ (map glued f.closed, f.torn)) × (s.acked ≡ map (λ x. x.line) f.closed)
deliver_all-frames_example =
    deliver_all-frames label torn_sends (written-IsSent, (refused-IsSent, (written-IsSent, tt)))

refused-glues_example :
    (read_lines (deliver label (deliver label opened (line, refused)) (line, whole_write)).stream
      ≡ (codes "N:N:4\n" ∷ [], []))
    × ((deliver label (deliver label opened (line, refused)) (line, whole_write)).acked ≡ line ∷ [])
refused-glues_example =
    refused-glues label opened line line refused whole_write 2 broken_pipe not_found
      (record { framed = refl; lines = tt }) line-IsLine line-IsLine (omega arith) refl refl refl

-- An established connection with a sample of 1500 microseconds.
abbrev established : TcpInfo
established = record {
  state = 1;
  before_rtt = replicate 67 0;
  rtt = 1500;
  before_retrans = replicate 28 0;
  total_retrans = 0;
  later = [];
}

established-IsTcpInfo : IsTcpInfo established
established-IsTcpInfo = record {
  at_68 = refl;
  at_100 = refl;
  rtt_u32 = omega arith;
  retrans_u32 = omega arith;
}

rtt_us_from_blob-accepted_rtt_example : rtt_us_from_blob big (blob big established) ≡ some 1500
rtt_us_from_blob-accepted_rtt_example =
    rtt_us_from_blob-accepted_rtt big established established-IsTcpInfo

measure_rtt-accepted_rtt_example :
    measure_rtt numerics little (ok tt) (from_millis 3) (record {
      ok_rc = true;
      buf = blob little established;
      len = length (blob little established);
    })
    ≡ ok (
        Option.get_or
          (Option.map (kernel_ms numerics little) (some 1500))
          (wall_clock_ms numerics little (from_millis 3)))
measure_rtt-accepted_rtt_example =
    measure_rtt-accepted_rtt numerics little established (from_millis 3) established-IsTcpInfo
