-- ===== src/Cli/Parse/Laws.antt =====
-- What holds of every mode that `parse` of src/cli.rs returns.
use mathlib.Core.Option
use mathlib.Core.List.{append-nil}
use mathlib.Core.Path.{subst}
use wire_probe.Prelude.{
  ℕ, ◌≤◌, ◌≡◌, refl, sym, ap, ◌∙◌, Bool, true, false, List, [], ◌∷◌, ◌++◌, Text, codes, Option,
  none, some, if◌then◌else◌, arith, Bool-cases, List-cases, inl, inr,
}
use wire_probe.Std.Numbers.{u16_max}
use wire_probe.Std.Numbers.Laws.{parse_uint-le}
use wire_probe.Std.Strings.{text_eq}
use wire_probe.Std.Time
use wire_probe.Std.Time.{as_millis, is_zero, lt_duration, IsDuration}
use wire_probe.Cli.Types.{ExportDst, Mode, server, probe, Result, ok, err}
use wire_probe.Cli.Command.{
  Message, timeout_exceeds, Context, Command, done, run_of, Ensures, bind_rule, input_rule, ◌>>=◌,
  ◌>>◌, pure, Ensures-of_done, done-of_Ensures, exit, print, attempt,
}
use wire_probe.Cli.Sanitize.{sanitize, IsLabel, sanitize-IsLabel}
use wire_probe.Cli.Duration.{parse_duration-IsWhole}
use wire_probe.Cli.Parse.Limits.{AreTimes, IsValidMode, warnings, Converts}
use wire_probe.Cli.Parse.{
  Arguments, leftover, string_from_str, u16_from_str, reject_unknown, parse_server, parse_times,
  ProbeInputs, probe_inputs, parse_probe, parse_mode, parse,
}

reject_unknown-ok : (left : List Text) (u : Unit {0}) → reject_unknown left ≡ ok u → left ≡ []
unfolding reject_unknown
reject_unknown-ok [] u h = refl
reject_unknown-ok (arg ∷ rest) u h = ground arith

u16_from_str-le : (w : Text) (n : ℕ) → u16_from_str w ≡ some n → n ≤ u16_max
u16_from_str-le w n h = ground (arith, parse_uint-le u16_max w {n = n})

default-IsLabel : IsLabel (codes "default")
default-IsLabel = (refl, (refl, (refl, (refl, (refl, (refl, (refl, tt)))))))

named_or-IsLabel :
    (o : Option Text) (d : Text) → IsLabel d → IsLabel (Option.get_or (Option.map sanitize o) d)
named_or-IsLabel none d h = h
named_or-IsLabel (some s) d h = sanitize-IsLabel s

module _ (A : Arguments) where
  open A use {S}

  pub parse_times_lem :
      (a b : Text) (cx cx' : Context S) (i t : Time.Duration)
      → parse_times A a b cx ≡ (done (i, t), cx')
      → AreTimes i t
        × (cx'.args ≡ cx.args)
        × (cx'.out ≡ cx.out ++ (if lt_duration i t then timeout_exceeds t i ∷ [] else []))
  unfolding parse_times ◌>>=◌
  parse_times_lem a b cx cx' i t h =
      ground (arith, parse_duration-IsWhole a i, parse_duration-IsWhole b t, append-nil cx.out)

  -- What is promised of a mode: it is in its limits, no argument is left, and only its warning was
  -- printed.
  abbrev pub IsAccepted : List Message → Mode → Context S → Type 0
  IsAccepted out mode cx' =
      IsValidMode mode × (A.finish cx'.args ≡ []) × (cx'.out ≡ out ++ warnings mode)

  port_le :
      Converts A
      → (s : S) (n : ℕ) → (A.opt_value_from_str u16_from_str (codes "--port") s).0 ≡ ok (some n)
      → n ≤ u16_max
  port_le c s n h = let (w, e) = c ℕ u16_from_str (codes "--port") s n h in u16_from_str-le w n e

  parse_server-IsAccepted :
      Converts A
      → (cx cx' : Context S) (mode : Mode) → parse_server A cx ≡ (done mode, cx')
      → IsAccepted cx.out mode cx'
  unfolding parse_server ◌>>=◌
  parse_server-IsAccepted c cx cx' (server bind port) h =
      let s : S = (A.opt_value_from_str string_from_str (codes "--bind") cx.args).1 in
      ground (arith, port_le c s port, reject_unknown-ok (A.finish cx'.args) tt, append-nil cx.out)
  parse_server-IsAccepted c cx cx' (probe target name az i t export) h = ground arith

  AreInputs : Context S → ProbeInputs → Context S → Type 0
  AreInputs cx p cx' = IsLabel p.target_name × IsLabel p.az × (cx'.out ≡ cx.out)

  inputs_done :
      (cx cx' : Context S) (target : Text) (name zone : Option Text) (i t e : Text)
      → cx'.out ≡ cx.out
      → AreInputs cx
          (record {
            target = target;
            target_name = Option.get_or (Option.map sanitize name) (sanitize target);
            az = Option.get_or (Option.map sanitize zone) (codes "default");
            interval_str = i;
            timeout_str = t;
            export_str = e;
          })
          cx'
  unfolding AreInputs
  inputs_done cx cx' target name zone i t e silence = (
    named_or-IsLabel name _ (sanitize-IsLabel target),
    named_or-IsLabel zone _ default-IsLabel,
    silence,
  )

  -- Taking an input prints nothing.
  silent :
      {T : Type 0} (r : Result T) (cx : Context S) (rest : S)
      → Ensures (λ _ cx'. cx'.out ≡ cx.out) (run_of r, record cx { args = rest })
  silent (ok t) cx rest = refl
  silent (err e) cx rest = tt

  probe_inputs-AreInputs : (cx : Context S) → Ensures (AreInputs cx) (probe_inputs A cx)
  unfolding probe_inputs
  probe_inputs-AreInputs cx = bind_rule _ (AreInputs cx) _ _ _ (silent _ cx _) λ target cx1 e1.
      bind_rule _ (AreInputs cx) _ _ _ (silent _ cx1 _) λ name cx2 e2.
        bind_rule _ (AreInputs cx) _ _ _ (silent _ cx2 _) λ zone cx3 e3.
          bind_rule _ (AreInputs cx) _ _ _ (silent _ cx3 _) λ i cx4 e4.
            bind_rule _ (AreInputs cx) _ _ _ (silent _ cx4 _) λ t cx5 e5.
              bind_rule _ (AreInputs cx) _ _ _ (silent _ cx5 _)
                λ e cx6 e6. inputs_done cx cx6 target name zone _ _ _ (e6 ∙ e5 ∙ e4 ∙ e3 ∙ e2 ∙ e1)

  abbrev AreTimed : Context S → Time.Duration × Time.Duration → Context S → Type 0
  AreTimed cx times cx' =
      AreTimes times.0 times.1
      × (cx'.args ≡ cx.args)
      × (cx'.out
          ≡ cx.out
            ++ (if lt_duration times.0 times.1 then timeout_exceeds times.1 times.0 ∷ [] else []))

  parse_times-AreTimed :
      (a b : Text) (cx : Context S) → Ensures (AreTimed cx) (parse_times A a b cx)
  parse_times-AreTimed a b cx =
      Ensures-of_done (AreTimed cx) _ λ times cx'. parse_times_lem a b cx cx' times.0 times.1

  IsAccepted-done :
      (cx cx1 cx2 : Context S) (p : ProbeInputs) (times : Time.Duration × Time.Duration)
      (export : ExportDst)
      → AreInputs cx p cx1
      → AreTimed cx1 times cx2
      → A.finish cx2.args ≡ []
      → IsAccepted cx.out (probe p.target p.target_name p.az times.0 times.1 export) cx2
  unfolding AreInputs
  IsAccepted-done cx cx1 cx2 p times export inputs timed none_left = (
    (inputs.0, inputs.1, timed.0),
    none_left,
    timed.2
        ∙ ap (λ out. out ++ warnings (probe p.target p.target_name p.az times.0 times.1 export))
            inputs.2,
  )

  -- The last steps of both modes.
  finish_rule :
      (P : Mode → Context S → Type 0) (mode : Mode) (cx : Context S)
      → (A.finish cx.args ≡ [] → P mode cx)
      → Ensures P ((do left ← leftover A; attempt (reject_unknown left); pure mode) cx)
  unfolding ◌>>=◌ reject_unknown
  finish_rule P mode cx h = elim (List-cases (A.finish cx.args)) [
    | inl e ↦ rw e (h e)
    | inr (arg, rest, e) ↦ rw e tt
  ]

  parse_probe-IsAccepted : (cx : Context S) → Ensures (IsAccepted cx.out) (parse_probe A cx)
  unfolding parse_probe
  parse_probe-IsAccepted cx =
      bind_rule (AreInputs cx) (IsAccepted cx.out) _ _ _ (probe_inputs-AreInputs cx) λ p cx1 inputs.
        bind_rule (AreTimed cx1) (IsAccepted cx.out) _ _ _ (parse_times-AreTimed _ _ cx1)
          λ times cx2 timed.
            bind_rule _ (IsAccepted cx.out) _ _ _ (input_rule _ cx2 cx2.args) λ export cx3 e3.
              finish_rule (IsAccepted cx.out) _ cx3 λ none_left.
                subst (IsAccepted cx.out (probe p.target p.target_name p.az times.0 times.1 export))
                  (sym e3.1)
                  (IsAccepted-done cx cx1 cx2 p times export inputs timed (rw e3.1 at none_left))

  parse_mode-IsAccepted :
      Converts A
      → (o : Option Text) (cx : Context S) → Ensures (IsAccepted cx.out) (parse_mode A o cx)
  unfolding parse_mode ◌>>=◌
  parse_mode-IsAccepted c none cx = tt
  parse_mode-IsAccepted c (some mode) cx = elim (Bool-cases (text_eq mode (codes "server"))) [
    | inl e ↦
        rw e (Ensures-of_done (IsAccepted cx.out) _ λ m cx'. parse_server-IsAccepted c cx cx' m)
    | inr e ↦ elim (Bool-cases (text_eq mode (codes "probe"))) [
      | inl f ↦ rw (e, f) (parse_probe-IsAccepted cx)
      | inr f ↦ rw (e, f) tt
    ]
  ]

  -- A flag that prints and exits returns nothing.
  exit_rule :
      {T : Type 0} (Q : T → Context S → Type 0) (b : Bool) (m : Message) (k : Command S T)
      (cx : Context S)
      → Ensures Q (k cx)
      → Ensures Q ((if b then (do print m; exit 0) else k) cx)
  unfolding ◌>>=◌
  exit_rule Q true m k cx h = tt
  exit_rule Q false m k cx h = h

  parse-Ensures : Converts A → (cx : Context S) → Ensures (IsAccepted cx.out) (parse A cx)
  unfolding parse
  parse-Ensures c cx =
      bind_rule (λ _ cx'. cx'.out ≡ cx.out) (IsAccepted cx.out) _ _ _ refl
        λ help1 cx1 e1.
          bind_rule (λ _ cx'. cx'.out ≡ cx1.out) (IsAccepted cx.out) _ _ _
            (exit_rule _ help1 _ _ cx1 refl)
            λ version1 cx2 e2.
              bind_rule (λ _ cx'. cx'.out ≡ cx2.out) (IsAccepted cx.out) _ _ _
                (exit_rule _ version1 _ _ cx2 (silent _ cx2 _))
                λ mode cx3 e3.
                  subst (λ out. Ensures (IsAccepted out) (parse_mode A mode cx3)) (e3 ∙ e2 ∙ e1)
                    (parse_mode-IsAccepted c mode cx3)

  -- With an argument parser whose values are converted from some text, a mode is returned only
  -- within its limits, only when no argument is left over, and with no other output than the
  -- warning that its timeout exceeds its interval. The limits are a port of 16 bits, a name and a
  -- zone that are labels, and an interval and a timeout of whole milliseconds between 100 ms and 24
  -- h and above 0 up to 60 s.
  pub parse-IsAccepted :
      Converts A
      → (cx cx' : Context S) (mode : Mode) → parse A cx ≡ (done mode, cx')
      → IsAccepted cx.out mode cx'
  parse-IsAccepted c cx cx' mode h =
      done-of_Ensures (IsAccepted cx.out) mode cx' (parse-Ensures c cx) h
