-- ===== src/Tests/Suite/Putval.antt =====
-- The tests of src/exporter/collectd.rs. What the peer of a socket does enters as the answers of
-- the calls on it.
use wire_probe.Prelude.{
  replicate, ◌+◌, Bool, true, false, ◌&&◌, not, ◌≡◌, refl, List, [], ◌∷◌, Bytes, codes, length, leb,
  some, none,
}
use wire_probe.Std.Strings.{text_eq, as_bytes}
use wire_probe.Std.Io.{broken_pipe, extend_from_slice, IoResult, ok, err}
use wire_probe.Std.Numbers.{decimal}
use wire_probe.Exporter.Collectd.{
  CollectdExporter, Answers, wrote, failed_after, build_prefix, format_line, flush_line,
  connect_uds, reconnect, new_exec, new_uds, send, send_line, send_failure,
}
use wire_probe.Exporter.Collectd.Framing.{read_lines, stream_of}
use wire_probe.Tests.Suite.{thousandths, ends_with, succeeds}

abbrev prefix_matches_the_putval_wire_format : Bool
prefix_matches_the_putval_wire_format =
    text_eq (build_prefix thousandths (codes "obs01") (codes "mdb_primary") 10)
      (codes "PUTVAL obs01/wire-probe-tcp/latency-mdb_primary interval=10 N:")

abbrev format_line_renders_value_and_undefined_marker : Bool
format_line_renders_value_and_undefined_marker =
    let e = new_exec thousandths (codes "obs01") (codes "mdb_primary") 10 in
    let e1 = format_line thousandths e (some 4_125) in
    let e2 = format_line thousandths e1 none in
    text_eq e1.buf.bytes
      (codes "PUTVAL obs01/wire-probe-tcp/latency-mdb_primary interval=10 N:4.125\n")
    && text_eq e2.buf.bytes
        (codes "PUTVAL obs01/wire-probe-tcp/latency-mdb_primary interval=10 N:U\n")

-- A peer that reads, and one that has gone away while a new one listens at the path.
abbrev reads : Answers
reads = record { write = wrote; flush = ok tt; connect = ok tt; set_write_timeout = ok tt }

abbrev gone : Answers
gone = record {
  write = failed_after 0 broken_pipe;
  flush = ok tt;
  connect = ok tt;
  set_write_timeout = ok tt;
}

-- What two calls of `read_line` give.
abbrev two_lines_hold : (Bytes → Bool) → (Bytes → Bool) → List Bytes → Bool
two_lines_hold p q [] = false
two_lines_hold p q (l ∷ []) = false
two_lines_hold p q (l ∷ k ∷ ls) = p l && q k

abbrev holds_of_exporter : (CollectdExporter → Bool) → IoResult CollectdExporter → Bool
holds_of_exporter p (ok e) = p e
holds_of_exporter p (err x) = false

abbrev sends_two_lines : CollectdExporter → Bool
sends_two_lines e =
    let (e1, f1) = send thousandths e 4_125 reads in
    let (e2, f2) = send_failure thousandths e1 reads in
    succeeds f1.result
    && (succeeds f2.result
        && two_lines_hold
            (text_eq
              (codes "PUTVAL obs01/wire-probe-tcp/latency-mdb_primary interval=10 N:4.125\n"))
            (text_eq (codes "PUTVAL obs01/wire-probe-tcp/latency-mdb_primary interval=10 N:U\n"))
            (read_lines (stream_of e2.dest)).0)

abbrev uds_send_writes_the_line_a_reader_can_parse : Bool
uds_send_writes_the_line_a_reader_can_parse = holds_of_exporter sends_two_lines (
    new_uds thousandths (codes "collectd.sock") (codes "obs01") (codes "mdb_primary") 10 (ok tt)
      (ok tt))

abbrev sends_after_the_peer_went : CollectdExporter → Bool
sends_after_the_peer_went e =
    let (e1, f1) = send thousandths e 1_000 gone in
    let (e2, f2) = send thousandths e1 2_000 reads in
    let (e3, f3) = send thousandths e2 4_125 reads in
    not (succeeds f1.result)
    && (succeeds f2.result
        && (succeeds f3.result
            && two_lines_hold (ends_with (codes "N:2.0\n")) (ends_with (codes "N:4.125\n"))
                (read_lines (stream_of e3.dest)).0))

abbrev uds_reconnects_after_the_consumer_goes_away : Bool
uds_reconnects_after_the_consumer_goes_away =
    holds_of_exporter sends_after_the_peer_went
      (new_uds thousandths (codes "collectd.sock") (codes "obs01") (codes "t") 1 (ok tt) (ok tt))

abbrev buffer_capacity_absorbs_a_long_identifier_without_growing : Bool
buffer_capacity_absorbs_a_long_identifier_without_growing =
    let e = new_exec thousandths (replicate 200 b'a') (codes "target-with-a-long-name") 1 in
    leb (length e.prefix + 25) e.buf.capacity

putvals_pass :
    (prefix_matches_the_putval_wire_format ≡ true)
    × (format_line_renders_value_and_undefined_marker ≡ true)
    × (uds_send_writes_the_line_a_reader_can_parse ≡ true)
    × (uds_reconnects_after_the_consumer_goes_away ≡ true)
    × (buffer_capacity_absorbs_a_long_identifier_without_growing ≡ true)
unfolding format_line build_prefix as_bytes decimal extend_from_slice text_eq new_exec new_uds
    connect_uds flush_line reconnect send send_failure send_line read_lines ends_with
putvals_pass = (refl, refl, refl, refl, refl)
