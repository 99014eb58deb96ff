-- ===== src/Exporter/Collectd.antt =====
-- `CollectdExporter` of src/exporter/collectd.rs. What the operating system answers to a call
-- enters as an argument. A Unix stream is the bytes that were pushed into it since it was opened.
pub mod Laws
pub mod Reader
pub mod Framing
pub mod Torn
pub mod Stale
pub mod Lines
use wire_probe.Prelude.{
  ℕ, ◌+◌, Bool, true, false, List, [], ◌∷◌, ◌++◌, Text, Bytes, codes, length, take, Option, none,
  some,
}
use wire_probe.Std.Strings.{as_bytes}
use wire_probe.Std.Io.{
  Buffer, with_capacity, clear, extend_from_slice, push, IoError, IoResult, ok, err,
}
use wire_probe.External.{Numerics}

abbrev pub value_headroom : ℕ
value_headroom = 32

pub data Dest : Type 0 where
  exec : Dest
  uds : (path : Text) (stream : Bytes) → Dest

pub record CollectdExporter : Type 0 where
  pub dest : Dest
  pub prefix : Bytes
  pub buf : Buffer

-- What `write_all` came to: all was written, or an error after the first `n` bytes.
pub data Write : Type 0 where
  wrote : Write
  failed_after : (n : ℕ) (e : IoError) → Write

-- The answers that one flush may meet.
pub record Answers : Type 0 where
  pub write : Write
  pub flush : IoResult (Unit {0})
  pub connect : IoResult (Unit {0})
  pub set_write_timeout : IoResult (Unit {0})

-- A fresh stream, with its write timeout set, or the first error.
unfoldable pub connect_uds : (connect set_write_timeout : IoResult (Unit {0})) → IoResult Bytes
connect_uds (err e) timeout = err e
connect_uds (ok _) (err e) = err e
connect_uds (ok _) (ok _) = ok []

module _ (n : Numerics) where
  -- `PUTVAL <host>/wire-probe-tcp/latency-<target> interval=<n> N:`
  unfoldable pub build_prefix : (hostname target_name : Text) (interval_secs : ℕ) → Bytes
  build_prefix hostname target_name interval_secs =
      codes "PUTVAL "
      ++ (as_bytes hostname
          ++ (codes "/wire-probe-tcp/latency-"
              ++ (as_bytes target_name
                  ++ (codes " interval=" ++ (n.itoa interval_secs ++ codes " N:")))))

  abbrev sized_for : Dest → Bytes → CollectdExporter
  sized_for dest prefix = record {
    dest = dest;
    prefix = prefix;
    buf = with_capacity (length prefix + value_headroom);
  }

  unfoldable pub new_exec : (hostname target_name : Text) (interval_secs : ℕ) → CollectdExporter
  new_exec hostname target_name interval_secs =
      sized_for exec (build_prefix hostname target_name interval_secs)

  unfoldable pub new_uds :
      (path hostname target_name : Text) (interval_secs : ℕ)
      → (connect set_write_timeout : IoResult (Unit {0})) → IoResult CollectdExporter
  unfolding connect_uds
  new_uds path hostname target_name interval_secs connect timeout =
      elim (connect_uds connect timeout) [
        | ok stream ↦
            ok (sized_for (uds path stream) (build_prefix hostname target_name interval_secs))
        | err e ↦ err e
      ]

  abbrev value_bytes : Option n.F64 → Bytes
  value_bytes (some rtt) = n.ryu rtt
  value_bytes none = b'U' ∷ []

  unfoldable pub format_line : CollectdExporter → Option n.F64 → CollectdExporter
  format_line e rtt_ms =
      let out = extend_from_slice (clear e.buf) e.prefix in
      record e { buf = push (extend_from_slice out (value_bytes rtt_ms)) b'\n' }

-- What a flush leaves and shows: the destination, the bytes that reached stdout, the stream that
-- was given up, whether the failed write was logged, and the result.
pub record Flushed : Type 0 where
  pub dest : Dest
  pub stdout : Bytes
  pub dropped : Option Bytes
  pub logged : Bool
  pub result : IoResult (Unit {0})

abbrev quiet : Dest → Bytes → IoResult (Unit {0}) → Flushed
quiet dest stdout result = record {
  dest = dest;
  stdout = stdout;
  dropped = none;
  logged = false;
  result = result;
}

-- After a write error `e`: the stream is replaced by a fresh one, or stays if there is none.
unfoldable pub reconnect : (path : Text) (stream : Bytes) → IoError → IoResult Bytes → Flushed
reconnect path stream e (ok fresh) = record {
  dest = uds path fresh;
  stdout = [];
  dropped = some stream;
  logged = false;
  result = err e;
}
reconnect path stream e (err reconnect_err) = record {
  dest = uds path stream;
  stdout = [];
  dropped = none;
  logged = true;
  result = err reconnect_err;
}

unfoldable pub flush_line : Dest → (line : Bytes) → Write → Answers → Flushed
unfolding reconnect connect_uds
flush_line exec line wrote a = quiet exec line a.flush
flush_line exec line (failed_after n e) a = quiet exec (take n line) (err e)
flush_line (uds path stream) line wrote a = quiet (uds path (stream ++ line)) [] (ok tt)
flush_line (uds path stream) line (failed_after n e) a =
    reconnect path (stream ++ take n line) e (connect_uds a.connect a.set_write_timeout)

module _ (n : Numerics) where
  -- `send` and `send_failure`, for a value and for none.
  unfoldable pub send_line : CollectdExporter → Option n.F64 → Answers → CollectdExporter × Flushed
  send_line e rtt_ms a =
      let ready = format_line n e rtt_ms in
      let f = flush_line ready.dest ready.buf.bytes a.write a in (record ready { dest = f.dest }, f)

  unfoldable pub send : CollectdExporter → n.F64 → Answers → CollectdExporter × Flushed
  unfolding send_line
  send e rtt_ms a = send_line e (some rtt_ms) a

  unfoldable pub send_failure : CollectdExporter → Answers → CollectdExporter × Flushed
  unfolding send_line
  send_failure e a = send_line e none a
