-- ===== src/Tests/Suite/Lines.antt =====
-- The tests of src/exporter/telegraf.rs.
use wire_probe.Prelude.{
  Bool, true, false, ◌&&◌, not, ◌≡◌, refl, [], Bytes, codes, length, ltb, take, ◌-◌, some, none,
}
use wire_probe.Std.Strings.{text_eq, as_bytes}
use wire_probe.Std.Io.{Buffer, extend_from_slice, IoResult, ok, err}
use wire_probe.Std.Numbers.{decimal}
use wire_probe.Exporter.Telegraf.{
  TelegrafExporter, build_prefix, format_fields, format_line, new, send,
}
use wire_probe.Tests.Suite.{thousandths, ends_with, starts_with, contains}

abbrev prefix : Bytes
prefix = build_prefix (codes "mdb_primary") (codes "eu-west")

-- `Vec::new()`
abbrev empty : Buffer
empty = record { bytes = []; capacity = 0 }

abbrev success_line_carries_rtt_and_success_flag : Bool
success_line_carries_rtt_and_success_flag =
    let out = format_line thousandths prefix (some 4_125) 1_686_561_230_000_000_000 empty in
    text_eq out.bytes (
      codes
        "tcp_latency,target=mdb_primary,az=eu-west rtt_ms=4.125,success=1i 1686561230000000000\n")

abbrev failure_line_omits_rtt_so_averages_stay_clean : Bool
failure_line_omits_rtt_so_averages_stay_clean =
    let out = format_line thousandths prefix none 1_686_561_231_000_000_000 empty in
    text_eq out.bytes
      (codes "tcp_latency,target=mdb_primary,az=eu-west success=0i 1686561231000000000\n")
    && not (contains (codes "rtt_ms") out.bytes)

abbrev every_line_is_newline_terminated : Bool
every_line_is_newline_terminated =
    let out = format_line thousandths prefix (some 1_000) 1 empty in
    let out' = format_line thousandths prefix none 2 out in
    ends_with (codes "\n") out.bytes && ends_with (codes "\n") out'.bytes

abbrev the_buffer_is_reused_across_lines : Bool
the_buffer_is_reused_across_lines =
    let out = format_line thousandths prefix (some 123_456) 1 empty in
    let out' = format_line thousandths prefix none 2 out in
    ltb (length out'.bytes) (length out.bytes)
    && not (contains (codes "\n") (take (length out'.bytes - 1) out'.bytes))

abbrev datagram_is : Bytes → IoResult TelegrafExporter → Bool
datagram_is line (err e) = false
datagram_is line (ok e) =
    let (e', datagram, result) = send thousandths e 4_125 1_686_561_230_000_000_000 (ok tt) in
    text_eq datagram line

-- The socket takes the datagram.
abbrev send_reaches_a_udp_listener : Bool
send_reaches_a_udp_listener =
    datagram_is
      (codes
        "tcp_latency,target=mdb_primary,az=eu-west rtt_ms=4.125,success=1i 1686561230000000000\n")
      (new (ok tt) (ok tt) (codes "mdb_primary") (codes "eu-west"))

lines_pass :
    (success_line_carries_rtt_and_success_flag ≡ true)
    × (failure_line_omits_rtt_so_averages_stay_clean ≡ true)
    × (every_line_is_newline_terminated ≡ true)
    × (the_buffer_is_reused_across_lines ≡ true)
    × (send_reaches_a_udp_listener ≡ true)
unfolding format_line build_prefix format_fields as_bytes decimal extend_from_slice text_eq new send
    ends_with contains starts_with
lines_pass = (refl, refl, refl, refl, refl)
