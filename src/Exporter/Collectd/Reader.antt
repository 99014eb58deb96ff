-- ===== src/Exporter/Collectd/Reader.antt =====
-- A reader of the line that src/exporter/collectd.rs documents, written from that documentation:
-- `PUTVAL <host>/wire-probe-tcp/latency-<target> interval=<n> N:<rtt_ms>`, with `U` for a failure.
use mathlib.Core.Option
use wire_probe.Prelude.{
  ℕ, ◌≤◌, ◌≡◌, refl, inr, ◌∷◌, ◌++◌, Text, Bytes, codes, Option, none, some, arith, if◌then◌else◌,
}
use mathlib.Core.List.{append_assoc}
use wire_probe.Std.Numbers.{parsed, failed, u64_max, parse_uint}
use wire_probe.Std.Strings.{strip_prefix, text_eq}
use wire_probe.Std.Strings.Laws.{as_bytes-ascii, strip_prefix-append, text_eq_iff}
use wire_probe.External.{Numerics, IsNumerics}
use wire_probe.Cli.Sanitize.{IsLabel, IsLabel-IsAscii}
use wire_probe.Exporter.Scan.{until, until-append, IsLabel-Lacks, IsDigit-Lacks}
use wire_probe.Exporter.Collectd.{CollectdExporter, build_prefix, format_line, value_bytes}
use wire_probe.Exporter.Collectd.Laws.{putval, format_line-putval}

pub record Value : Type 0 where
  pub host : Bytes
  pub target : Bytes
  pub interval : ℕ
  -- `none` for an undefined value
  pub rtt_ms : Option Bytes

read_data : (host target : Bytes) (interval : ℕ) → Bytes → Option (Value × Bytes)
read_data host target interval s = Option.bind (until b'\n' s) λ v. some (
  record {
    host = host;
    target = target;
    interval = interval;
    rtt_ms = if text_eq v.0 (codes "U") then none else some v.0;
  },
  v.1,
)

read_interval : (host target : Bytes) → Bytes → Option (Value × Bytes)
unfolding read_data
read_interval host target s = Option.bind (until b' ' s) λ i.
    Option.bind (strip_prefix (codes "N:") i.1) λ s2. elim (parse_uint u64_max i.0) [
      | parsed k ↦ read_data host target k s2
      | failed e ↦ none
    ]

-- The value of a line, and what follows the line.
unfoldable pub read_putval : Bytes → Option (Value × Bytes)
unfolding read_interval
read_putval s = Option.bind (strip_prefix (codes "PUTVAL ") s) λ s1.
    Option.bind (until b'/' s1) λ h.
      Option.bind (strip_prefix (codes "wire-probe-tcp/latency-") h.1) λ s2.
        Option.bind (until b' ' s2)
          λ t. Option.bind (strip_prefix (codes "interval=") t.1) λ s3. read_interval h.0 t.0 s3

read_names :
    (h t s : Bytes)
    → IsLabel h
    → IsLabel t
    → read_putval (
        codes "PUTVAL "
        ++ (h
            ++ (b'/'
                ∷ (codes "wire-probe-tcp/latency-" ++ (t ++ (b' ' ∷ (codes "interval=" ++ s)))))))
      ≡ read_interval h t s
unfolding read_putval Option.bind
read_names h t s lh lt =
    let s2 = t ++ (b' ' ∷ (codes "interval=" ++ s)) in
    let s1 = h ++ (b'/' ∷ (codes "wire-probe-tcp/latency-" ++ s2)) in
    ground (
      arith,
      strip_prefix-append (codes "PUTVAL ") s1,
      until-append b'/' h (codes "wire-probe-tcp/latency-" ++ s2)
          (IsLabel-Lacks b'/' h (λ e. cc) lh),
      strip_prefix-append (codes "wire-probe-tcp/latency-") s2,
      until-append b' ' t (codes "interval=" ++ s) (IsLabel-Lacks b' ' t (λ e. cc) lt),
      strip_prefix-append (codes "interval=") s,
    )

module _ (n : Numerics) (v : IsNumerics n) where
  pub value-IsLabel : (rtt : Option n.F64) → IsLabel (value_bytes n rtt)
  value-IsLabel none = (refl, tt)
  value-IsLabel (some x) = v.ryu-IsLabel x

  read_data-value_bytes :
      (h t : Bytes) (k : ℕ) (rtt : Option n.F64) (rest : Bytes)
      → read_data h t k (value_bytes n rtt ++ (b'\n' ∷ rest))
        ≡ some (record { host = h; target = t; interval = k; rtt_ms = Option.map n.ryu rtt }, rest)
  unfolding read_data Option.bind
  read_data-value_bytes h t k none rest = unfold until text_eq in refl
  read_data-value_bytes h t k (some x) rest = ground (
    arith,
    until-append b'\n' (n.ryu x) rest (IsLabel-Lacks b'\n' _ (λ e. cc) (v.ryu-IsLabel x)),
    text_eq_iff (n.ryu x) (codes "U"),
    v.ryu-ne-undefined x,
  )

  read_interval-itoa :
      (h t s : Bytes) (k : ℕ)
      → k ≤ u64_max
      → read_interval h t (n.itoa k ++ (b' ' ∷ (codes "N:" ++ s))) ≡ read_data h t k s
  unfolding read_interval Option.bind
  read_interval-itoa h t s k small = ground (
    arith,
    until-append b' ' (n.itoa k) (codes "N:" ++ s)
        (IsDigit-Lacks b' ' _ (inr (omega arith)) (v.itoa-IsDigit k)),
    strip_prefix-append (codes "N:") s,
    v.parse_uint-itoa k small,
  )

  -- The line with its parts bracketed to the right.
  putval_parts :
      (host target : Text) (k : ℕ) (rtt : Option n.F64) (rest : Bytes)
      → IsLabel host
      → IsLabel target
      → putval n (build_prefix n host target k) rtt ++ rest
        ≡ codes "PUTVAL "
          ++ (host
              ++ (b'/'
                  ∷ (codes "wire-probe-tcp/latency-"
                      ++ (target
                          ++ (b' '
                              ∷ (codes "interval="
                                  ++ (n.itoa k
                                      ++ (b' '
                                          ∷ (codes "N:"
                                              ++ (value_bytes n rtt ++ (b'\n' ∷ rest)))))))))))
  unfolding build_prefix
  putval_parts host target k rtt rest lh lt =
      rw
        (
          as_bytes-ascii host (IsLabel-IsAscii host lh),
          as_bytes-ascii target (IsLabel-IsAscii target lt),
        )
        (simp append_assoc)

  -- The line with its parts is read back, and what follows it is left.
  pub read_putval-putval :
      (host target : Text) (interval : ℕ) (rtt : Option n.F64) (rest : Bytes)
      → IsLabel host
      → IsLabel target
      → interval ≤ u64_max
      → read_putval (putval n (build_prefix n host target interval) rtt ++ rest)
        ≡ some (
          record {
            host = host;
            target = target;
            interval = interval;
            rtt_ms = Option.map n.ryu rtt;
          },
          rest,
        )
  read_putval-putval host target k rtt rest lh lt small =
      rw
        (
          putval_parts host target k rtt rest lh lt,
          read_names host target _ lh lt,
          read_interval-itoa host target _ k small,
        )
        (read_data-value_bytes host target k rtt rest)

  -- Whatever the labels, the interval of 64 bits, the value and the old content of the buffer, the
  -- line that is formatted reads back as exactly those, and what was written behind it is left,
  -- with number formatters that do what their crates document.
  pub read_putval-format_line :
      (host target : Text) (interval : ℕ) (e : CollectdExporter) (rtt : Option n.F64) (rest : Bytes)
      → IsLabel host
      → IsLabel target
      → interval ≤ u64_max
      → e.prefix ≡ build_prefix n host target interval
      → read_putval ((format_line n e rtt).buf.bytes ++ rest)
        ≡ some (
          record {
            host = host;
            target = target;
            interval = interval;
            rtt_ms = Option.map n.ryu rtt;
          },
          rest,
        )
  read_putval-format_line host target k e rtt rest lh lt small labelled =
      rw (format_line-putval n e rtt, labelled)
        (read_putval-putval host target k rtt rest lh lt small)
