-- ===== src/Exporter/Collectd/Lines.antt =====
-- What src/exporter/collectd.rs formats under labels is one line.
use mathlib.Core.List.{append_assoc}
use wire_probe.Prelude.{
  ℕ, ◌≡◌, ◌≢◌, refl, sym, inr, Bool, true, ◌&&◌, not, [], ◌∷◌, ◌++◌, Text, Bytes, codes, Option,
  All-append, arith, ◌==◌,
}
use wire_probe.Std.Strings.Laws.{as_bytes-ascii}
use wire_probe.External.{Numerics, IsNumerics}
use wire_probe.Cli.Sanitize.{IsLabel, IsLabel-IsAscii}
use wire_probe.Exporter.Scan.{Lacks, IsLabel-Lacks, IsDigit-Lacks}
use wire_probe.Exporter.Collectd.{build_prefix, value_bytes}
use wire_probe.Exporter.Collectd.Laws.{putval}
use wire_probe.Exporter.Collectd.Reader.{value-IsLabel}
use wire_probe.Exporter.Collectd.Framing.{IsLine}

abbrev lacks : ℕ → Bytes → Bool
lacks sep [] = true
lacks sep (c ∷ s) = not (c == sep) && lacks sep s

lacks-Lacks : (sep : ℕ) (s : Bytes) → lacks sep s ≡ true → Lacks sep s
lacks-Lacks sep [] h = tt
lacks-Lacks sep (c ∷ s) h = (ground (arith, h), lacks-Lacks sep s (ground (arith, h)))

-- A constant in front of what has no newline.
after_word :
    (word rest : Bytes) → lacks b'\n' word ≡ true → Lacks b'\n' rest → Lacks b'\n' (word ++ rest)
after_word word rest w h = All-append (λ c. c ≢ b'\n') word rest (lacks-Lacks b'\n' word w) h

after_label : (label rest : Bytes) → IsLabel label → Lacks b'\n' rest → Lacks b'\n' (label ++ rest)
after_label label rest l h =
    All-append (λ c. c ≢ b'\n') label rest (IsLabel-Lacks b'\n' label (λ e. cc) l) h

module _ (n : Numerics) (v : IsNumerics n) where
  build_prefix-Lacks :
      (host target : Text) (k : ℕ)
      → IsLabel host
      → IsLabel target
      → Lacks b'\n' (build_prefix n host target k)
  unfolding build_prefix
  build_prefix-Lacks host target k lh lt =
      let number = n.itoa k ++ codes " N:" in
      let named = target ++ (codes " interval=" ++ number) in
      let hosted = host ++ (codes "/wire-probe-tcp/latency-" ++ named) in
      let digits = IsDigit-Lacks b'\n' _ (inr (omega arith)) (v.itoa-IsDigit k) in
      let number_l =
        All-append (λ c. c ≢ b'\n') (n.itoa k) _ digits (lacks-Lacks b'\n' (codes " N:") refl) in
      let named_l =
        after_label target _ lt (after_word (codes " interval=") number refl number_l) in
      let hosted_l =
        after_label host _ lh (after_word (codes "/wire-probe-tcp/latency-") named refl named_l) in
      rw
        (
          as_bytes-ascii host (IsLabel-IsAscii host lh),
          as_bytes-ascii target (IsLabel-IsAscii target lt),
        )
        (after_word (codes "PUTVAL ") hosted refl hosted_l)

  -- Whatever the value, the text under two labels ends in its only newline.
  pub putval-IsLine :
      (host target : Text) (k : ℕ) (rtt : Option n.F64)
      → IsLabel host
      → IsLabel target
      → IsLine (putval n (build_prefix n host target k) rtt)
  putval-IsLine host target k rtt lh lt = record {
    body = build_prefix n host target k ++ value_bytes n rtt;
    ended = sym (append_assoc (build_prefix n host target k) (value_bytes n rtt) _);
    single =
        All-append (λ c. c ≢ b'\n') (build_prefix n host target k) (value_bytes n rtt)
          (build_prefix-Lacks host target k lh lt)
          (IsLabel-Lacks b'\n' _ (λ e. cc) (value-IsLabel n v rtt));
  }
