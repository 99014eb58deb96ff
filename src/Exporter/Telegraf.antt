-- ===== src/Exporter/Telegraf.antt =====
-- `TelegrafExporter` of src/exporter/telegraf.rs. The UDP socket is outside: what a call on it
-- returns enters as an argument, and the datagram that was handed to it is a result.
pub mod Laws
pub mod Reader
use wire_probe.Prelude.{ℕ, ◌+◌, List, [], ◌∷◌, ◌++◌, Text, Bytes, codes, length, Option, none, some}
use wire_probe.Std.Strings.{as_bytes}
use wire_probe.Std.Io.{Buffer, with_capacity, clear, extend_from_slice, push, IoResult, ok, err}
use wire_probe.External.{Numerics}

abbrev pub value_headroom : ℕ
value_headroom = 64

pub record TelegrafExporter : Type 0 where
  pub prefix : Bytes
  pub buf : Buffer

-- `tcp_latency,target=<name>,az=<az> `
unfoldable pub build_prefix : (target_name az : Text) → Bytes
build_prefix target_name az =
    codes "tcp_latency,target="
    ++ (as_bytes target_name ++ (codes ",az=" ++ (as_bytes az ++ (b' ' ∷ []))))

-- `bind` and `connect` return before anything is built.
unfoldable pub new :
    (bind connect : IoResult (Unit {0})) (target_name az : Text) → IoResult TelegrafExporter
new (err e) connect target_name az = err e
new (ok _) (err e) target_name az = err e
new (ok _) (ok _) target_name az =
    let prefix = build_prefix target_name az in
    ok (record { prefix = prefix; buf = with_capacity (length prefix + value_headroom) })

module _ (n : Numerics) where
  -- The fields of a line, for a value or for a failure.
  unfoldable pub format_fields : Option n.F64 → Buffer → Buffer
  format_fields (some rtt) out =
      extend_from_slice (extend_from_slice (extend_from_slice out (codes "rtt_ms=")) (n.ryu rtt))
        (codes ",success=1i")
  format_fields none out = extend_from_slice out (codes "success=0i")

  unfoldable pub format_line : (prefix : Bytes) → Option n.F64 → (ts_ns : ℕ) → Buffer → Buffer
  unfolding format_fields
  format_line prefix rtt_ms ts_ns out =
      let fields = format_fields rtt_ms (extend_from_slice (clear out) prefix) in
      push (extend_from_slice (push fields b' ') (n.itoa ts_ns)) b'\n'

  -- What a call leaves and gives: the exporter, the datagram, and the result of the socket.
  abbrev pub Sent : Type 0
  Sent = TelegrafExporter × Bytes × IoResult (Unit {0})

  abbrev send_line : TelegrafExporter → Option n.F64 → ℕ → IoResult (Unit {0}) → Sent
  send_line e rtt ts_ns outcome =
      let buf = format_line e.prefix rtt ts_ns e.buf in (record e { buf = buf }, buf.bytes, outcome)

  unfoldable pub send : TelegrafExporter → n.F64 → (ts_ns : ℕ) → IoResult (Unit {0}) → Sent
  send e rtt_ms ts_ns outcome = send_line e (some rtt_ms) ts_ns outcome

  unfoldable pub send_failure : TelegrafExporter → (ts_ns : ℕ) → IoResult (Unit {0}) → Sent
  send_failure e ts_ns outcome = send_line e none ts_ns outcome
