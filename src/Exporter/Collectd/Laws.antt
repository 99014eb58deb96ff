-- ===== src/Exporter/Collectd/Laws.antt =====
-- The PUTVAL lines of src/exporter/collectd.rs and the capacity of their buffer.
use mathlib.Core.Path.{subst}
use mathlib.Core.List.{append_assoc}
use wire_probe.Prelude.{
  ℕ, ◌+◌, ◌≤◌, ◌≡◌, refl, ◌∙◌, [], ◌∷◌, ◌++◌, Text, Bytes, length, length-append, Option, none,
  some, arith,
}
use wire_probe.Std.Io.{IoResult, ok, Holds, clear-Holds, extend_from_slice-Holds}
use wire_probe.External.{Numerics, IsNumerics}
use wire_probe.Exporter.Collectd.{
  CollectdExporter, exec, wrote, flush_line, Answers, value_headroom, new_exec, new_uds,
  value_bytes, format_line, send_line,
}

-- Sized at construction for every line that it will hold.
pub record IsSized (e : CollectdExporter) : Type 0 where
  pub sized : e.buf.capacity ≡ length e.prefix + value_headroom

module _ (n : Numerics) where
  -- The whole line.
  abbrev pub putval : Bytes → Option n.F64 → Bytes
  putval prefix rtt = prefix ++ (value_bytes n rtt ++ (b'\n' ∷ []))

  format_line-Holds :
      (e : CollectdExporter) (rtt : Option n.F64)
      → Holds e.buf.capacity (putval e.prefix rtt) (format_line n e rtt).buf
  unfolding format_line
  format_line-Holds e rtt =
      let c = e.buf.capacity in
      let start = extend_from_slice-Holds c [] e.prefix _ (clear-Holds e.buf) in
      let valued = extend_from_slice-Holds c _ (value_bytes n rtt) _ start in
      let ended = extend_from_slice-Holds c _ (b'\n' ∷ []) _ valued in
      subst (λ s. Holds c s (format_line n e rtt).buf) (append_assoc e.prefix (value_bytes n rtt) _)
        ended

  -- Every line is its prefix and its value, whatever the buffer held before.
  pub format_line-putval :
      (e : CollectdExporter) (rtt : Option n.F64)
      → (format_line n e rtt).buf.bytes ≡ putval e.prefix rtt
  format_line-putval e rtt = (format_line-Holds e rtt).content

  value_bytes-length-le : IsNumerics n → (rtt : Option n.F64) → length (value_bytes n rtt) ≤ 24
  value_bytes-length-le v none = omega arith
  value_bytes-length-le v (some x) = v.ryu-length-le x

  format_line-IsSized :
      IsNumerics n
      → (e : CollectdExporter) (rtt : Option n.F64) → IsSized e
      → (format_line n e rtt).buf.capacity ≡ length e.prefix + value_headroom
  format_line-IsSized v e rtt s =
      let a = length-append e.prefix (value_bytes n rtt ++ (b'\n' ∷ [])) in
      let b = length-append (value_bytes n rtt) (b'\n' ∷ []) in
      (format_line-Holds e rtt).kept (omega (arith, a, b, value_bytes-length-le v rtt, s.sized))
      ∙ s.sized

  -- Both constructors size the buffer.
  pub new-IsSized :
      (path hostname target_name : Text) (interval_secs : ℕ)
      → (connect set_write_timeout : IoResult (Unit {0})) {e : CollectdExporter}
      → new_uds n path hostname target_name interval_secs connect set_write_timeout ≡ ok e
      → IsSized (new_exec n hostname target_name interval_secs) × IsSized e
  unfolding new_exec new_uds
  new-IsSized path hostname target_name interval_secs connect timeout {e} h =
      (record { sized = refl }, ground arith)

  -- No send makes a buffer grow that was sized at construction, whatever the value and whatever the
  -- operating system answers, with number formatters that keep the lengths that their crates
  -- document.
  pub send_line-IsSized :
      IsNumerics n
      → (e : CollectdExporter) (rtt : Option n.F64) (a : Answers) → IsSized e
      → IsSized (send_line n e rtt a).0
  unfolding send_line format_line
  send_line-IsSized v e rtt a s = record { sized = format_line-IsSized v e rtt s }

  pub format_line-dest :
      (e : CollectdExporter) (rtt : Option n.F64) → (format_line n e rtt).dest ≡ e.dest
  unfolding format_line
  format_line-dest e rtt = refl

  -- On stdout the whole line is written where the write succeeds.
  pub send_line-exec :
      (e : CollectdExporter) (rtt : Option n.F64) (a : Answers)
      → e.dest ≡ exec
      → a.write ≡ wrote
      → (send_line n e rtt a).1.stdout ≡ putval e.prefix rtt
  unfolding send_line flush_line
  send_line-exec e rtt a d w = ground (arith, format_line-dest e rtt, format_line-putval e rtt)
