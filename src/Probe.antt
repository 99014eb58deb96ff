-- ===== src/Probe.antt =====
-- The measurement: src/probe.rs. The connection, the clock and `getsockopt` are outside and enter
-- as what they return.
pub mod Laws
use mathlib.Core.Option
use wire_probe.Prelude.{
  ℕ, zero, suc, ◌+◌, ◌*◌, Bool, true, false, ◌||◌, List, [], ◌∷◌, Bytes, length, take, drop,
  get_elem?, Option, none, some, if◌then◌else◌, ltb, leb, ◌==◌,
}
use wire_probe.Std.Io.{IoResult, ok, err}
use wire_probe.Std.Time.{Duration, as_nanos}
use wire_probe.External.{Numerics}

abbrev pub tcp_info_rtt_offset : ℕ
tcp_info_rtt_offset = 68

abbrev pub tcp_info_retrans_offset : ℕ
tcp_info_retrans_offset = 100

abbrev pub tcp_info_buf_len : ℕ
tcp_info_buf_len = 104

abbrev pub tcp_syn_sent : ℕ
tcp_syn_sent = 2

abbrev pub tcp_syn_recv : ℕ
tcp_syn_recv = 3

-- The byte order of the machine.
pub data Endian : Type 0 where
  little big : Endian

-- `buf.get(start..start + len)`
unfoldable pub get_range : Bytes → (start len : ℕ) → Option Bytes
get_range buf start len =
    if leb (start + len) (length buf) then some (take len (drop start buf)) else none

-- `u32::from_ne_bytes(s.try_into().ok()?)`: four bytes or nothing.
unfoldable pub u32_from_ne_bytes : Endian → Bytes → Option ℕ
u32_from_ne_bytes little (a ∷ b ∷ c ∷ d ∷ []) = some (a + b * 0x100 + c * 0x10000 + d * 0x1000000)
u32_from_ne_bytes big (a ∷ b ∷ c ∷ d ∷ []) = some (a * 0x1000000 + b * 0x10000 + c * 0x100 + d)
u32_from_ne_bytes _ _ = none

unfoldable pub read_u32 : Endian → Bytes → (offset : ℕ) → Option ℕ
unfolding get_range u32_from_ne_bytes
read_u32 e buf offset = Option.bind (get_range buf offset 4) (u32_from_ne_bytes e)

-- The value in microseconds that `rtt_from_blob` divides by a thousand.
unfoldable pub rtt_us_from_blob : Endian → Bytes → Option ℕ
rtt_us_from_blob e buf =
    if ltb (length buf) (tcp_info_retrans_offset + 4)
    then none
    else (Option.bind (get_elem? buf 0) λ state.
        if (state == tcp_syn_sent) || (state == tcp_syn_recv)
        then none
        else (Option.bind (read_u32 e buf tcp_info_retrans_offset) λ retrans.
            if retrans == 0
            then (Option.bind (read_u32 e buf tcp_info_rtt_offset)
                λ rtt_us. if rtt_us == 0 then none else some rtt_us)
            else none))

-- What `getsockopt` leaves: its return code, the buffer, and the length that it wrote back.
pub record SockoptAnswer : Type 0 where
  pub ok_rc : Bool
  pub buf : Bytes
  pub len : ℕ

module _ (n : Numerics) (e : Endian) where
  unfoldable pub rtt_from_blob : Bytes → Option n.F64
  rtt_from_blob buf =
      Option.map (λ rtt_us. n.div (n.to_f64 rtt_us) (n.to_f64 1000)) (rtt_us_from_blob e buf)

  unfoldable pub kernel_rtt_ms : SockoptAnswer → Option n.F64
  kernel_rtt_ms a = if a.ok_rc then Option.bind (get_range a.buf 0 a.len) rtt_from_blob else none

  -- The connection attempt, the wall clock around it, and the answer about the socket.
  unfoldable pub measure_rtt :
      (connected : IoResult (Unit {0})) (elapsed : Duration) → SockoptAnswer → IoResult n.F64
  measure_rtt (err e') elapsed a = err e'
  measure_rtt (ok _) elapsed a =
      let elapsed_ms = n.div (n.to_f64 (as_nanos elapsed)) (n.to_f64 1_000_000) in
      ok (Option.get_or (kernel_rtt_ms a) elapsed_ms)
