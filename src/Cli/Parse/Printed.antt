-- ===== src/Cli/Parse/Printed.antt =====
-- Modes as command lines: what `parse` of src/cli.rs makes of one that is printed.
use mathlib.Core.Path.{ap₂}
use wire_probe.Prelude.{
  ℕ, ◌≤◌, ◌<◌, ◌≡◌, refl, ap, ◌∙◌, false, [], ◌∷◌, ◌++◌, Text, codes, none, some, arith,
}
use wire_probe.Std.Strings.{text_eq}
use wire_probe.Std.Numbers.{parsed, failed, decimal, u16_max, u64_max}
use wire_probe.Std.Numbers.Laws.{parse_uint-decimal}
use wire_probe.Std.Time
use wire_probe.Std.Time.{as_millis, from_millis, is_zero}
use wire_probe.Cli.Types.{ExportDst, Mode, server, probe, ok}
use wire_probe.Cli.Sanitize.{IsLabel, sanitize_fixed}
use wire_probe.Cli.Duration.{parse_duration, IsWhole, parse_duration-decimal}
use wire_probe.Cli.Export.{export_text, parse_export-export_text}
use wire_probe.Cli.Command.{Context, Run, done, raised, exited}
use wire_probe.Cli.Parse.{
  Arguments, string_from_str, u16_from_str, reject_unknown, ProbeInputs, parse_times, probe_inputs,
  parse_server, parse_probe, parse_mode, parse,
}
use wire_probe.Cli.Parse.Limits.{AreTimes, IsValidMode}
use wire_probe.Cli.Parse.Laws.{parse_times_lem}
use wire_probe.Cli.Parse.Times.{parse_times_iff}
use wire_probe.Cli.Parse.Takes.{
  Options, entry, Takes, Holds, Gives, Gives-of_done, bind-Gives, attempt-Gives, flag-Gives,
  leftover-Gives, option-Gives, required-Gives,
}

-- A duration in whole milliseconds.
abbrev pub millis_text : Time.Duration → Text
millis_text d = decimal (as_millis d) ++ codes "ms"

-- The options of a mode, behind `--mode`.
abbrev mode_options : Mode → Options
mode_options (server bind port) =
    entry (codes "--bind") bind (entry (codes "--port") (decimal port) (λ k. []))
mode_options (probe target target_name az interval timeout export) =
    entry (codes "--target") target (
      entry (codes "--target-name") target_name (
        entry (codes "--az") az (
          entry (codes "--interval") (millis_text interval) (
            entry (codes "--timeout") (millis_text timeout)
              (entry (codes "--export") (export_text export) (λ k. []))))))

abbrev mode_text : Mode → Text
mode_text (server bind port) = codes "server"
mode_text (probe target target_name az interval timeout export) = codes "probe"

-- A command line of a mode, each option given once.
abbrev pub options_of : Mode → Options
options_of mode = entry (codes "--mode") (mode_text mode) (mode_options mode)

from_millis-as_millis : (d : Time.Duration) → IsWhole d → from_millis (as_millis d) ≡ d
from_millis-as_millis d w = ground (arith, w.whole, w.valid)

parse_duration-millis_text :
    (d : Time.Duration) → IsWhole d → as_millis d ≤ u64_max → parse_duration (millis_text d) ≡ ok d
parse_duration-millis_text d w small =
    (parse_duration-decimal (as_millis d) small).0 ∙ ap ok (from_millis-as_millis d w)

is_zero-false : (d : Time.Duration) → 0 < as_millis d → is_zero d ≡ false
is_zero-false d h = ground arith

u16_from_str-decimal : (port : ℕ) → port ≤ u16_max → u16_from_str (decimal port) ≡ some port
u16_from_str-decimal port h =
    ap (λ p. elim p [ parsed n ↦ some n | failed e ↦ none ]) (parse_uint-decimal u16_max port h)

mode_once : (mode : Mode) → mode_options mode (codes "--mode") ≡ []
unfolding text_eq
mode_once (server bind port) = refl
mode_once (probe target target_name az interval timeout export) = refl

done_of_Gives :
    {S B : Type 0} (b : B) (r : Run B × Context S) → Gives (λ b' cx'. b' ≡ b) r → r.0 ≡ done b
done_of_Gives b (done b', cx) h = ap done h
done_of_Gives b (raised e, cx) h = absurd h
done_of_Gives b (exited code, cx) h = absurd h

module _ (A : Arguments) (d : Takes A) where
  open A use {S}

  parse_server-Gives :
      (bind : Text) (port : ℕ) (cx : Context S)
      → port ≤ u16_max
      → Holds A d (mode_options (server bind port)) cx
      → Gives (λ mode cx'. mode ≡ server bind port) (parse_server A cx)
  unfolding parse_server text_eq reject_unknown
  parse_server-Gives bind port cx small v =
      option-Gives A d string_from_str _ bind bind _ _ cx _ v refl refl λ cx1 v1.
        option-Gives A d u16_from_str _ (decimal port) port _ _ cx1 _ v1 refl
          (u16_from_str-decimal port small)
          λ cx2 v2.
            leftover-Gives A d _ cx2 _ v2
              (attempt-Gives A d (reject_unknown []) tt _ cx2 _ refl refl)

  parse_times-Gives :
      (interval timeout : Time.Duration) (cx : Context S)
      → AreTimes interval timeout
      → Holds A d (λ k. []) cx
      → Gives
          (λ t cx'. (t ≡ (interval, timeout)) × Holds A d (λ k. []) cx')
          (parse_times A (millis_text interval) (millis_text timeout) cx)
  parse_times-Gives interval timeout cx w v =
      let r = parse_times A (millis_text interval) (millis_text timeout) cx in
      let i = parse_duration-millis_text interval w.interval_whole (omega arith) in
      let t = parse_duration-millis_text timeout w.timeout_whole (omega arith) in
      let e : r.0 ≡ done (interval, timeout) = (parse_times_iff A _ _ cx interval timeout).1 (
        i,
        w.interval_min,
        w.interval_max,
        t,
        is_zero-false timeout w.timeout_pos,
        w.timeout_max,
      ) in
      let kept =
        (parse_times_lem A (millis_text interval) (millis_text timeout) cx r.1 interval timeout
          (ap (λ x. (x, r.1)) e)).1 in
      Gives-of_done _ r (interval, timeout) e
        (
          refl,
          record { options = ap d.given kept ∙ v.options; no_free = ap d.free kept ∙ v.no_free },
        )

  -- The inputs that the options of a mode stand for.
  inputs_of : Text → Text → Text → Time.Duration → Time.Duration → ExportDst → ProbeInputs
  inputs_of target name az interval timeout export = record {
    target = target;
    target_name = name;
    az = az;
    interval_str = millis_text interval;
    timeout_str = millis_text timeout;
    export_str = export_text export;
  }

  probe_inputs-Gives :
      (target name az : Text) (interval timeout : Time.Duration) (export : ExportDst)
      (cx : Context S)
      → IsLabel name
      → IsLabel az
      → Holds A d (mode_options (probe target name az interval timeout export)) cx
      → Gives
          (λ p cx'.
            (p ≡ inputs_of target name az interval timeout export) × Holds A d (λ k. []) cx')
          (probe_inputs A cx)
  unfolding probe_inputs text_eq inputs_of
  probe_inputs-Gives target name az interval timeout export cx ln lz v =
      required-Gives A d string_from_str _ target target _ _ cx _ v refl refl λ cx1 v1.
        option-Gives A d string_from_str _ name name _ _ cx1 _ v1 refl refl λ cx2 v2.
          option-Gives A d string_from_str _ az az _ _ cx2 _ v2 refl refl λ cx3 v3.
            option-Gives A d string_from_str _ (millis_text interval) _ _ _ cx3 _ v3 refl refl
              λ cx4 v4.
                option-Gives A d string_from_str _ (millis_text timeout) _ _ _ cx4 _ v4 refl refl
                  λ cx5 v5.
                    option-Gives A d string_from_str _ (export_text export) _ _ _ cx5 _ v5 refl refl
                      λ cx6 v6. (
                        ap₂
                            (λ n z. record {
                              target = target;
                              target_name = n;
                              az = z;
                              interval_str = millis_text interval;
                              timeout_str = millis_text timeout;
                              export_str = export_text export;
                            })
                            ((sanitize_fixed name).1 ln) ((sanitize_fixed az).1 lz),
                        v6,
                      )

  parse_probe-Gives :
      (target name az : Text) (interval timeout : Time.Duration) (export : ExportDst)
      (cx : Context S)
      → IsValidMode (probe target name az interval timeout export)
      → Holds A d (mode_options (probe target name az interval timeout export)) cx
      → Gives (λ mode cx'. mode ≡ probe target name az interval timeout export) (parse_probe A cx)
  unfolding parse_probe reject_unknown inputs_of
  parse_probe-Gives target name az interval timeout export cx valid v =
      bind-Gives _ _ _ _ cx
        (probe_inputs-Gives target name az interval timeout export cx valid.0 valid.1 v)
        λ p cx1 (p_is, v1). rw p_is (
          bind-Gives _ _ _ _ cx1 (parse_times-Gives interval timeout cx1 valid.2 v1)
            λ t cx2 (t_is, v2). rw t_is (
              attempt-Gives A d _ export _ cx2 _ ((parse_export-export_text _ export).1 refl)
                (leftover-Gives A d _ cx2 _ v2 (attempt-Gives A d _ tt _ cx2 _ refl refl))))

  parse_mode-Gives :
      (mode : Mode) (cx : Context S)
      → IsValidMode mode
      → Holds A d (mode_options mode) cx
      → Gives (λ mode' cx'. mode' ≡ mode) (parse_mode A (some (mode_text mode)) cx)
  unfolding parse_mode text_eq
  parse_mode-Gives (server bind port) cx valid v = parse_server-Gives bind port cx valid v
  parse_mode-Gives (probe target name az interval timeout export) cx valid v =
      parse_probe-Gives target name az interval timeout export cx valid v

  -- Every mode within the limits, printed as a command line that gives each of its options once and
  -- nothing else, is parsed back as itself, with an argument parser that takes options as
  -- `pico_args` documents and that finds no flag for help or version. The limits are a port of 16
  -- bits, a name and a zone that are labels, and an interval and a timeout of whole milliseconds
  -- between 100 ms and 24 h and above 0 up to 60 s.
  pub parse_printed :
      (mode : Mode) (cx : Context S)
      → IsValidMode mode
      → Holds A d (options_of mode) cx
      → (A.contains (codes "-h" ∷ codes "--help" ∷ []) cx.args).0 ≡ false
      → (A.contains (codes "--version" ∷ []) cx.args).0 ≡ false
      → (parse A cx).0 ≡ done mode
  unfolding parse
  parse_printed mode cx valid v no_help no_version = done_of_Gives mode (parse A cx) (
      flag-Gives A d _ _ cx _ no_help (
        flag-Gives A d _ _ cx _ no_version (
          option-Gives A d string_from_str _ (mode_text mode) _ _ _ cx _ v (mode_once mode) refl
            λ cx1 v1. parse_mode-Gives mode cx1 valid v1)))
