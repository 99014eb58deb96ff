-- ===== src/Exporter/Telegraf/Laws.antt =====
-- The Influx lines of src/exporter/telegraf.rs and the capacity of their buffer.
use wire_probe.Prelude.{
  ℕ, ◌+◌, ◌≤◌, ◌≡◌, ◌∙◌, [], ◌∷◌, ◌++◌, Text, Bytes, codes, length, length-append, Option, none,
  some, arith,
}
use mathlib.Core.Path.{subst}
use mathlib.Core.List.{append_assoc}
use wire_probe.Std.Numbers.{u64_max}
use wire_probe.Std.Io.{Buffer, IoResult, ok, err, Holds, clear-Holds, extend_from_slice-Holds}
use wire_probe.External.{Numerics, IsNumerics}
use wire_probe.Exporter.Telegraf.{
  TelegrafExporter, value_headroom, new, format_fields, format_line, send, send_failure,
}

-- Sized at construction for every line that it will hold.
pub record IsSized (e : TelegrafExporter) : Type 0 where
  pub sized : e.buf.capacity ≡ length e.prefix + value_headroom

pub new-IsSized :
    (bind connect : IoResult (Unit {0})) (target_name az : Text) {e : TelegrafExporter}
    → new bind connect target_name az ≡ ok e
    → IsSized e
unfolding new
new-IsSized (err x) connect target_name az h = ground arith
new-IsSized (ok _) (err x) target_name az h = ground arith
new-IsSized (ok _) (ok _) target_name az {e} h = ground arith

module _ (n : Numerics) where
  abbrev pub field_bytes : Option n.F64 → Bytes
  field_bytes (some rtt) = codes "rtt_ms=" ++ (n.ryu rtt ++ codes ",success=1i")
  field_bytes none = codes "success=0i"

  -- The whole line, as the documentation of the exporter writes it.
  abbrev pub point : Bytes → Option n.F64 → ℕ → Bytes
  point prefix rtt ts = prefix ++ (field_bytes rtt ++ (b' ' ∷ (n.itoa ts ++ (b'\n' ∷ []))))

  format_fields-Holds :
      (c : ℕ) (s : Bytes) (rtt : Option n.F64) (b : Buffer)
      → Holds c s b
      → Holds c (s ++ field_bytes rtt) (format_fields n rtt b)
  unfolding format_fields
  format_fields-Holds c s (some rtt) b h =
      rw (← append_assoc s _ _, ← append_assoc (s ++ codes "rtt_ms=") _ _)
        (extend_from_slice-Holds c _ _ _
          (extend_from_slice-Holds c _ _ _ (extend_from_slice-Holds c s _ b h)))
  format_fields-Holds c s none b h = extend_from_slice-Holds c s _ b h

  -- The old content of the buffer does not matter.
  point_assoc :
      (prefix : Bytes) (rtt : Option n.F64) (ts : ℕ)
      → (((prefix ++ field_bytes rtt) ++ (b' ' ∷ [])) ++ n.itoa ts) ++ (b'\n' ∷ [])
        ≡ point prefix rtt ts
  point_assoc prefix rtt ts = simp append_assoc

  format_line-Holds :
      (prefix : Bytes) (rtt : Option n.F64) (ts : ℕ) (out : Buffer)
      → Holds out.capacity (point prefix rtt ts) (format_line n prefix rtt ts out)
  unfolding format_line
  format_line-Holds prefix rtt ts out =
      let c = out.capacity in
      let start = extend_from_slice-Holds c [] prefix _ (clear-Holds out) in
      let fields = format_fields-Holds c prefix rtt _ start in
      let spaced = extend_from_slice-Holds c _ (b' ' ∷ []) _ fields in
      let stamped = extend_from_slice-Holds c _ (n.itoa ts) _ spaced in
      let ended = extend_from_slice-Holds c _ (b'\n' ∷ []) _ stamped in
      subst (λ s. Holds c s (format_line n prefix rtt ts out)) (point_assoc prefix rtt ts) ended

  -- Every line is its prefix, its fields and its time, whatever the buffer held before.
  pub format_line-point :
      (prefix : Bytes) (rtt : Option n.F64) (ts : ℕ) (out : Buffer)
      → (format_line n prefix rtt ts out).bytes ≡ point prefix rtt ts
  format_line-point prefix rtt ts out = (format_line-Holds prefix rtt ts out).content

  field_bytes-length : IsNumerics n → (rtt : Option n.F64) → length (field_bytes rtt) ≤ 42
  field_bytes-length v none = omega arith
  field_bytes-length v (some rtt) =
      omega (arith, v.ryu-length-le rtt, length-append {0} (n.ryu rtt) (codes ",success=1i"))

  point-length-le :
      IsNumerics n
      → (prefix : Bytes) (rtt : Option n.F64) (ts : ℕ) → ts ≤ u64_max
      → length (point prefix rtt ts) ≤ length prefix + value_headroom
  point-length-le v prefix rtt ts h =
      let a = length-append prefix (field_bytes rtt ++ (b' ' ∷ (n.itoa ts ++ (b'\n' ∷ [])))) in
      let b = length-append (field_bytes rtt) (b' ' ∷ (n.itoa ts ++ (b'\n' ∷ []))) in
      let c = length-append (n.itoa ts) (b'\n' ∷ []) in
      omega (arith, a, b, c, field_bytes-length v rtt, v.itoa-length-le ts h)

  sized_line :
      IsNumerics n
      → (e : TelegrafExporter) (rtt : Option n.F64) (ts : ℕ) → IsSized e
      → ts ≤ u64_max
      → (format_line n e.prefix rtt ts e.buf).capacity ≡ length e.prefix + value_headroom
  sized_line v e rtt ts s h =
      (format_line-Holds e.prefix rtt ts e.buf).kept
        (omega (arith, point-length-le v e.prefix rtt ts h, s.sized))
      ∙ s.sized

  -- No send makes a buffer grow that was sized at construction, at any value and at any time of 64
  -- bits, with number formatters that keep the lengths that their crates document.
  pub send-IsSized :
      IsNumerics n
      → (e : TelegrafExporter) (rtt : n.F64) (ts : ℕ) (outcome : IoResult (Unit {0})) → IsSized e
      → ts ≤ u64_max
      → IsSized (send n e rtt ts outcome).0 × IsSized (send_failure n e ts outcome).0
  unfolding send send_failure
  send-IsSized v e rtt ts outcome s h = (
    record { sized = sized_line v e (some rtt) ts s h },
    record { sized = sized_line v e none ts s h },
  )
