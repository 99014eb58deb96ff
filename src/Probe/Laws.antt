-- ===== src/Probe/Laws.antt =====
-- The acceptance rules of src/probe.rs against the layout of `struct tcp_info`.
use mathlib.Core.Path.{subst, subst₂}
use mathlib.Core.Option
use mathlib.Core.List.{append_assoc, append-nil}
use wire_probe.Prelude.{
  ℕ, zero, suc, ◌/◌, ◌%◌, ◌^◌, ◌<◌, ◌≤◌, ◌≡◌, refl, ap, true, ◌||◌, not, [], ◌∷◌, ◌++◌, Bytes,
  length, length-append, take, drop, get_elem?, Option, none, some, if◌then◌else◌, ◌==◌, arith,
}
use wire_probe.Std.Io.{ok}
use wire_probe.Std.Time.{Duration, as_nanos}
use wire_probe.External.{Numerics}
use wire_probe.Probe.{
  Endian, little, big, get_range, u32_from_ne_bytes, read_u32, rtt_us_from_blob, rtt_from_blob,
  kernel_rtt_ms, measure_rtt,
}

-- `u32::to_ne_bytes`
abbrev pub u32_to_ne_bytes : Endian → ℕ → Bytes
u32_to_ne_bytes little v =
    (v % 256) ∷ (v / 0x100 % 256) ∷ (v / 0x10000 % 256) ∷ (v / 0x1000000 % 256) ∷ []
u32_to_ne_bytes big v =
    (v / 0x1000000 % 256) ∷ (v / 0x10000 % 256) ∷ (v / 0x100 % 256) ∷ (v % 256) ∷ []

u32_from_ne_bytes-u32_to_ne_bytes :
    (e : Endian) (v : ℕ) → v < 2 ^ 32 → u32_from_ne_bytes e (u32_to_ne_bytes e v) ≡ some v
unfolding u32_from_ne_bytes
u32_from_ne_bytes-u32_to_ne_bytes little v h = ap some (omega arith)
u32_from_ne_bytes-u32_to_ne_bytes big v h = ap some (omega arith)

length-u32_to_ne_bytes : (e : Endian) (v : ℕ) → length (u32_to_ne_bytes e v) ≡ 4
length-u32_to_ne_bytes little v = refl
length-u32_to_ne_bytes big v = refl

length-take-le : (k : ℕ) (s : Bytes) → length (take k s) ≤ k
length-take-le zero s = omega arith
length-take-le (suc k) [] = omega arith
length-take-le (suc k) (c ∷ s) = omega (arith, length-take-le k s)

drop-append : (a b : Bytes) → drop (length a) (a ++ b) ≡ b
drop-append [] b = refl
drop-append (x ∷ a) b = drop-append a b

take-append : (a b : Bytes) → take (length a) (a ++ b) ≡ a
take-append [] b = refl
take-append (x ∷ a) b = rw (take-append a b)

get_range-append :
    (front field rest : Bytes)
    → get_range (front ++ (field ++ rest)) (length front) (length field) ≡ some field
unfolding get_range
get_range-append front field rest =
    let size = length-append front (field ++ rest) in
    let inner = length-append field rest in
    rw (drop-append front (field ++ rest), take-append field rest) (ground (arith, size, inner))

-- A field that stands at its offset is read back.
read_u32-append :
    (e : Endian) (front rest : Bytes) (v offset : ℕ)
    → length front ≡ offset
    → v < 2 ^ 32
    → read_u32 e (front ++ (u32_to_ne_bytes e v ++ rest)) offset ≡ some v
unfolding read_u32 Option.bind
read_u32-append e front rest v offset at small =
    let field = u32_to_ne_bytes e v in
    let range : get_range (front ++ (field ++ rest)) offset 4 ≡ some field =
      subst₂ (λ o l. get_range (front ++ (field ++ rest)) o l ≡ some field) at
        (length-u32_to_ne_bytes e v) (get_range-append front field rest) in
    ground (arith, range, u32_from_ne_bytes-u32_to_ne_bytes e v small)

-- `struct tcp_info` with the fields that the probe reads, at their offsets 0, 68 and 100.
pub record TcpInfo : Type 0 where
  pub state : ℕ
  pub before_rtt : Bytes
  pub rtt : ℕ
  pub before_retrans : Bytes
  pub total_retrans : ℕ
  pub later : Bytes

pub record IsTcpInfo (t : TcpInfo) : Type 0 where
  pub at_68 : length t.before_rtt ≡ 67
  pub at_100 : length t.before_retrans ≡ 28
  pub rtt_u32 : t.rtt < 2 ^ 32
  pub retrans_u32 : t.total_retrans < 2 ^ 32

abbrev pub blob : Endian → TcpInfo → Bytes
blob e t =
    t.state
    ∷ (t.before_rtt
        ++ (u32_to_ne_bytes e t.rtt
            ++ (t.before_retrans ++ (u32_to_ne_bytes e t.total_retrans ++ t.later))))

blob-rtt : (e : Endian) (t : TcpInfo) → IsTcpInfo t → read_u32 e (blob e t) 68 ≡ some t.rtt
blob-rtt e t v =
    read_u32-append e (t.state ∷ t.before_rtt) _ t.rtt 68 (omega (arith, v.at_68)) v.rtt_u32

blob_retrans_parts :
    (e : Endian) (t : TcpInfo)
    → blob e t
      ≡ (t.state ∷ (t.before_rtt ++ (u32_to_ne_bytes e t.rtt ++ t.before_retrans)))
        ++ (u32_to_ne_bytes e t.total_retrans ++ t.later)
blob_retrans_parts e t = simp append_assoc

blob-retrans :
    (e : Endian) (t : TcpInfo) → IsTcpInfo t → read_u32 e (blob e t) 100 ≡ some t.total_retrans
blob-retrans e t v =
    let a = length-append t.before_rtt (u32_to_ne_bytes e t.rtt ++ t.before_retrans) in
    let b = length-append (u32_to_ne_bytes e t.rtt) t.before_retrans in
    rw (blob_retrans_parts e t) (
      read_u32-append e (t.state ∷ (t.before_rtt ++ (u32_to_ne_bytes e t.rtt ++ t.before_retrans)))
        t.later t.total_retrans 100
        (omega (arith, a, b, length-u32_to_ne_bytes e t.rtt, v.at_68, v.at_100)) v.retrans_u32)

blob-length : (e : Endian) (t : TcpInfo) → IsTcpInfo t → 104 ≤ length (blob e t)
blob-length e t v =
    let c = length-append (u32_to_ne_bytes e t.total_retrans) t.later in
    let d = length-append t.before_retrans (u32_to_ne_bytes e t.total_retrans ++ t.later) in
    let f =
      length-append (u32_to_ne_bytes e t.rtt)
        (t.before_retrans ++ (u32_to_ne_bytes e t.total_retrans ++ t.later)) in
    let g = length-append t.before_rtt (
      u32_to_ne_bytes e t.rtt
      ++ (t.before_retrans ++ (u32_to_ne_bytes e t.total_retrans ++ t.later))) in
    let four = length-u32_to_ne_bytes e in
    omega (arith, c, d, f, g, four t.rtt, four t.total_retrans, v.at_68, v.at_100)

-- The microseconds that the rules accept: none before the handshake is complete, none after a
-- retransmission, and none without a sample.
abbrev accepted : (state retrans rtt : ℕ) → Option ℕ
accepted state retrans rtt =
    if (state == 2) || ((state == 3) || (not (retrans == 0) || (rtt == 0))) then none else some rtt

abbrev pub accepted_rtt : TcpInfo → Option ℕ
accepted_rtt t = accepted t.state t.total_retrans t.rtt

rtt_us_of_fields :
    (e : Endian) (buf : Bytes) (state retrans rtt : ℕ)
    → 104 ≤ length buf
    → get_elem? buf 0 ≡ some state
    → read_u32 e buf 100 ≡ some retrans
    → read_u32 e buf 68 ≡ some rtt
    → rtt_us_from_blob e buf ≡ accepted state retrans rtt
unfolding rtt_us_from_blob Option.bind
rtt_us_of_fields e buf state retrans rtt long s r t = ground arith

-- Of every `tcp_info` that holds the fields at their offsets, in either byte order, the rules
-- accept the RTT unless the handshake is not complete, a SYN was retransmitted or there is no
-- sample.
pub rtt_us_from_blob-accepted_rtt :
    (e : Endian) (t : TcpInfo) → IsTcpInfo t → rtt_us_from_blob e (blob e t) ≡ accepted_rtt t
rtt_us_from_blob-accepted_rtt e t v =
    rtt_us_of_fields e (blob e t) t.state t.total_retrans t.rtt (blob-length e t v) refl
      (blob-retrans e t v) (blob-rtt e t v)

get_range-whole : (buf : Bytes) → get_range buf 0 (length buf) ≡ some buf
get_range-whole buf =
    subst (λ b. get_range b 0 (length buf) ≡ some buf) (append-nil buf) (get_range-append [] buf [])

-- Reading fewer bytes than the last field needs.
get_range-length :
    (buf : Bytes) (len : ℕ) {s : Bytes} → get_range buf 0 len ≡ some s → length s ≤ len
unfolding get_range
get_range-length buf len {s} h = ground (arith, length-take-le len buf)

module _ (n : Numerics) (e : Endian) where
  -- The two values that a probe may report, in milliseconds.
  abbrev pub wall_clock_ms : Duration → n.F64
  wall_clock_ms elapsed = n.div (n.to_f64 (as_nanos elapsed)) (n.to_f64 1_000_000)

  abbrev pub kernel_ms : ℕ → n.F64
  kernel_ms rtt_us = n.div (n.to_f64 rtt_us) (n.to_f64 1000)

  -- A connection whose `tcp_info` is read whole reports the kernel's value where the rules accept
  -- it, and the wall clock where they do not.
  pub measure_rtt-accepted_rtt :
      (t : TcpInfo) (elapsed : Duration)
      → IsTcpInfo t
      → measure_rtt n e
          (ok tt)
          elapsed
          (record { ok_rc = true; buf = blob e t; len = length (blob e t) })
        ≡ ok (Option.get_or (Option.map kernel_ms (accepted_rtt t)) (wall_clock_ms elapsed))
  unfolding measure_rtt kernel_rtt_ms rtt_from_blob Option.bind
  measure_rtt-accepted_rtt t elapsed v =
      rw (get_range-whole (blob e t), rtt_us_from_blob-accepted_rtt e t v) refl
