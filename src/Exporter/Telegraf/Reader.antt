-- ===== src/Exporter/Telegraf/Reader.antt =====
-- A reader of the line that src/exporter/telegraf.rs documents, written from that documentation:
-- `tcp_latency,target=x,az=y rtt_ms=4.12,success=1i <ts>` or `tcp_latency,target=x,az=y success=0i <ts>`.
use mathlib.Core.Option
use wire_probe.Prelude.{
  ℕ, ◌≤◌, ◌≡◌, refl, inr, [], ◌∷◌, ◌++◌, Text, Bytes, codes, Option, none, some, arith,
}
use mathlib.Core.List.{append_assoc}
use wire_probe.Std.Numbers.{parsed, failed, u64_max, parse_uint}
use wire_probe.Std.Strings.{strip_prefix}
use wire_probe.Std.Strings.Laws.{as_bytes-ascii, strip_prefix-append}
use wire_probe.Std.Io.{Buffer}
use wire_probe.External.{Numerics, IsNumerics}
use wire_probe.Cli.Sanitize.{IsLabel, IsLabel-IsAscii}
use wire_probe.Exporter.Scan.{until, until-append, IsLabel-Lacks, IsDigit-Lacks}
use wire_probe.Exporter.Telegraf.{build_prefix, format_line}
use wire_probe.Exporter.Telegraf.Laws.{field_bytes, point, format_line-point}

pub record Point : Type 0 where
  pub target : Bytes
  pub az : Bytes
  -- `none` for a failed probe
  pub rtt_ms : Option Bytes
  pub ts_ns : ℕ

read_value : Bytes → Option (Option Bytes × Bytes)
read_value s = elim (strip_prefix (codes "rtt_ms=") s) [
  | none ↦ Option.map (λ rest. (none, rest)) (strip_prefix (codes "success=0i ") s)
  | some value ↦
      Option.bind (until b',' value)
        λ r. Option.map (λ rest. (some r.0, rest)) (strip_prefix (codes "success=1i ") r.1)
]

read_time : Bytes → Bytes → Option Bytes → Bytes → Option (Point × Bytes)
read_time target az rtt s = Option.bind (until b'\n' s) λ r. elim (parse_uint u64_max r.0) [
  | parsed ts ↦ some (record { target = target; az = az; rtt_ms = rtt; ts_ns = ts }, r.1)
  | failed e ↦ none
]

-- The point of a line, and what follows the line.
unfoldable pub read_point : Bytes → Option (Point × Bytes)
unfolding read_value read_time
read_point s = Option.bind (strip_prefix (codes "tcp_latency,target=") s) λ s1.
    Option.bind (until b',' s1) λ t. Option.bind (strip_prefix (codes "az=") t.1) λ s2.
      Option.bind (until b' ' s2) λ z. Option.bind (read_value z.1) λ v. read_time t.0 z.0 v.0 v.1

-- The tags of a line, and the rest of the reading.
read_tags :
    (t z s : Bytes)
    → IsLabel t
    → IsLabel z
    → read_point (codes "tcp_latency,target=" ++ (t ++ (b',' ∷ (codes "az=" ++ (z ++ (b' ' ∷ s))))))
      ≡ Option.bind (read_value s) (λ v. read_time t z v.0 v.1)
unfolding read_point Option.bind
read_tags t z s lt lz =
    let s2 = z ++ (b' ' ∷ s) in
    let s1 = t ++ (b',' ∷ (codes "az=" ++ s2)) in
    ground (
      arith,
      strip_prefix-append (codes "tcp_latency,target=") s1,
      until-append b',' t (codes "az=" ++ s2) (IsLabel-Lacks b',' t (λ e. cc) lt),
      strip_prefix-append (codes "az=") s2,
      until-append b' ' z s (IsLabel-Lacks b' ' z (λ e. cc) lz),
    )

module _ (n : Numerics) (v : IsNumerics n) where
  abbrev written_value : Option n.F64 → Option Bytes
  written_value = Option.map n.ryu

  read_time-itoa :
      (t z : Bytes) (r : Option Bytes) (ts : ℕ) (rest : Bytes)
      → ts ≤ u64_max
      → read_time t z r (n.itoa ts ++ (b'\n' ∷ rest))
        ≡ some (record { target = t; az = z; rtt_ms = r; ts_ns = ts }, rest)
  unfolding read_time Option.bind
  read_time-itoa t z r ts rest h = ground (
    arith,
    until-append b'\n' (n.itoa ts) rest
        (IsDigit-Lacks b'\n' _ (inr (omega arith)) (v.itoa-IsDigit ts)),
    v.parse_uint-itoa ts h,
  )

  not-value : (s : Bytes) → strip_prefix (codes "rtt_ms=") (codes "success=0i " ++ s) ≡ none
  unfolding strip_prefix
  not-value s = refl

  read_value-field_bytes :
      (rtt : Option n.F64) (s : Bytes)
      → read_value (field_bytes n rtt ++ (b' ' ∷ s)) ≡ some (written_value rtt, s)
  unfolding read_value Option.bind
  read_value-field_bytes none s =
      ground (arith, not-value s, strip_prefix-append (codes "success=0i ") s)
  read_value-field_bytes (some x) s =
      let end = codes ",success=1i" ++ (b' ' ∷ s) in
      rw (append_assoc (n.ryu x) (codes ",success=1i") (b' ' ∷ s)) (
        ground (
          arith,
          strip_prefix-append (codes "rtt_ms=") (n.ryu x ++ end),
          until-append b',' (n.ryu x) (codes "success=1i " ++ s)
              (IsLabel-Lacks b',' _ (λ e. cc) (v.ryu-IsLabel x)),
          strip_prefix-append (codes "success=1i ") s,
        ))

  -- The line with its parts bracketed to the right.
  point_parts :
      (target az : Text) (rtt : Option n.F64) (ts : ℕ)
      → IsLabel target
      → IsLabel az
      → point n (build_prefix target az) rtt ts
        ≡ codes "tcp_latency,target="
          ++ (target
              ++ (b','
                  ∷ (codes "az="
                      ++ (az
                          ++ (b' '
                              ∷ (field_bytes n rtt ++ (b' ' ∷ (n.itoa ts ++ (b'\n' ∷ [])))))))))
  unfolding build_prefix
  point_parts target az rtt ts lt lz =
      rw
        (
          as_bytes-ascii target (IsLabel-IsAscii target lt),
          as_bytes-ascii az (IsLabel-IsAscii az lz),
        )
        (simp append_assoc)

  -- The line with its parts is read back.
  pub read_point-point :
      (target az : Text) (rtt : Option n.F64) (ts : ℕ)
      → IsLabel target
      → IsLabel az
      → ts ≤ u64_max
      → read_point (point n (build_prefix target az) rtt ts)
        ≡ some (record { target = target; az = az; rtt_ms = written_value rtt; ts_ns = ts }, [])
  unfolding Option.bind
  read_point-point target az rtt ts lt lz h =
      rw (point_parts target az rtt ts lt lz, read_tags target az _ lt lz, read_value-field_bytes)
        (read_time-itoa target az (written_value rtt) ts [] h)

  -- Whatever the labels, the value, the time of 64 bits and the old content of the buffer, the line
  -- that is formatted reads back as exactly those, with number formatters that do what their crates
  -- document.
  pub read_point-format_line :
      (target az : Text) (rtt : Option n.F64) (ts : ℕ) (out : Buffer)
      → IsLabel target
      → IsLabel az
      → ts ≤ u64_max
      → read_point (format_line n (build_prefix target az) rtt ts out).bytes
        ≡ some (record { target = target; az = az; rtt_ms = written_value rtt; ts_ns = ts }, [])
  read_point-format_line target az rtt ts out lt lz h =
      rw (format_line-point n (build_prefix target az) rtt ts out)
        (read_point-point target az rtt ts lt lz h)
