-- ===== src/Cli/Parse/Exits.antt =====
-- How `parse` of src/cli.rs exits the process.
use wire_probe.Prelude.{
  ℕ, ◌≡◌, refl, Bool, true, false, Text, codes, Option, none, some, if◌then◌else◌, Bool-cases, inl,
  inr,
}
use mathlib.Core.Path.{subst}
use wire_probe.Std.Strings.{text_eq}
use wire_probe.Cli.Types.{Mode, CliError, Result, ok, err}
use wire_probe.Cli.Command.{
  Message, Context, Run, Command, done, raised, exited, continue_run, run_of, ◌>>=◌, ◌>>◌, print,
  exit, refuse_if, print_if,
}
use wire_probe.Cli.Parse.{
  Arguments, parse_server, parse_times, probe_inputs, parse_probe, parse_mode, parse,
}

-- An exit, if there is one, has code 0.
abbrev pub ExitsZero : {S A : Type 0} → Run A × Context S → Type 0
ExitsZero (done a, cx) = Unit
ExitsZero (raised e, cx) = Unit
ExitsZero (exited code, cx) = code ≡ 0

continue_run_rule :
    {S A B : Type 0} (r : Run A × Context S) (f : A → Command S B)
    → ExitsZero r
    → ((a : A) (cx : Context S) → ExitsZero (f a cx))
    → ExitsZero (continue_run r.0 f r.1)
continue_run_rule (done a, cx) f h k = k a cx
continue_run_rule (raised e, cx) f h k = tt
continue_run_rule (exited code, cx) f h k = h

bind_rule :
    {S A B : Type 0} (m : Command S A) (f : A → Command S B) (cx : Context S)
    → ExitsZero (m cx)
    → ((a : A) (cx' : Context S) → ExitsZero (f a cx'))
    → ExitsZero ((m >>= f) cx)
unfolding ◌>>=◌
bind_rule m f cx h k = continue_run_rule (m cx) f h k

attempt_rule : {S A : Type 0} (r : Result A) (cx : Context S) → ExitsZero (run_of r, cx)
attempt_rule (ok a) cx = tt
attempt_rule (err e) cx = tt

module _ (A : Arguments) where
  open A use {S}

  parse_server-ExitsZero : (cx : Context S) → ExitsZero (parse_server A cx)
  unfolding parse_server
  parse_server-ExitsZero cx = bind_rule _ _ cx (attempt_rule _ _) λ bind cx1.
      bind_rule _ _ cx1 (attempt_rule _ _) λ port cx2.
        bind_rule _ _ cx2 tt λ left cx3. bind_rule _ _ cx3 (attempt_rule _ _) λ u cx4. tt

  refuse_rule : (b : Bool) (e : CliError) (cx : Context S) → ExitsZero (refuse_if b e cx)
  refuse_rule true e cx = tt
  refuse_rule false e cx = tt

  print_rule : (b : Bool) (m : Message) (cx : Context S) → ExitsZero (print_if b m cx)
  print_rule true m cx = tt
  print_rule false m cx = tt

  parse_times-ExitsZero : (a b : Text) (cx : Context S) → ExitsZero (parse_times A a b cx)
  unfolding parse_times
  parse_times-ExitsZero a b cx = bind_rule _ _ cx (attempt_rule _ _) λ i cx1.
      bind_rule _ _ cx1 (refuse_rule _ _ _) λ u cx2. bind_rule _ _ cx2 (refuse_rule _ _ _) λ u cx3.
        bind_rule _ _ cx3 (attempt_rule _ _) λ t cx4. bind_rule _ _ cx4 (refuse_rule _ _ _) λ u cx5.
          bind_rule _ _ cx5 (refuse_rule _ _ _)
            λ u cx6. bind_rule _ _ cx6 (print_rule _ _ _) λ u cx7. tt

  probe_inputs-ExitsZero : (cx : Context S) → ExitsZero (probe_inputs A cx)
  unfolding probe_inputs
  probe_inputs-ExitsZero cx = bind_rule _ _ cx (attempt_rule _ _) λ target cx1.
      bind_rule _ _ cx1 (attempt_rule _ _) λ name cx2.
        bind_rule _ _ cx2 (attempt_rule _ _) λ zone cx3.
          bind_rule _ _ cx3 (attempt_rule _ _) λ i cx4.
            bind_rule _ _ cx4 (attempt_rule _ _)
              λ t cx5. bind_rule _ _ cx5 (attempt_rule _ _) λ e cx6. tt

  parse_probe-ExitsZero : (cx : Context S) → ExitsZero (parse_probe A cx)
  unfolding parse_probe
  parse_probe-ExitsZero cx = bind_rule _ _ cx (probe_inputs-ExitsZero cx) λ p cx1.
      bind_rule _ _ cx1 (parse_times-ExitsZero _ _ cx1) λ times cx2.
        bind_rule _ _ cx2 (attempt_rule _ _) λ export cx3.
          bind_rule _ _ cx3 tt λ left cx4. bind_rule _ _ cx4 (attempt_rule _ _) λ u cx5. tt

  parse_mode-ExitsZero : (o : Option Text) (cx : Context S) → ExitsZero (parse_mode A o cx)
  unfolding parse_mode
  parse_mode-ExitsZero none cx = bind_rule _ _ cx tt λ u cx1. tt
  parse_mode-ExitsZero (some mode) cx = elim (Bool-cases (text_eq mode (codes "server"))) [
    | inl e ↦ rw e (parse_server-ExitsZero cx)
    | inr e ↦ elim (Bool-cases (text_eq mode (codes "probe"))) [
      | inl f ↦ rw (e, f) (parse_probe-ExitsZero cx)
      | inr f ↦ rw (e, f) tt
    ]
  ]

  exit_rule :
      {T : Type 0} (b : Bool) (m : Message) (k : Command S T) (cx : Context S)
      → ExitsZero (k cx)
      → ExitsZero ((if b then (do print m; exit 0) else k) cx)
  unfolding ◌>>=◌
  exit_rule true m k cx h = refl
  exit_rule false m k cx h = h

  parse-ExitsZero : (cx : Context S) → ExitsZero (parse A cx)
  unfolding parse
  parse-ExitsZero cx = bind_rule _ _ cx tt λ help1 cx1.
      bind_rule _ _ cx1 (exit_rule help1 _ _ cx1 tt) λ version1 cx2.
        bind_rule _ _ cx2 (exit_rule version1 _ _ cx2 (attempt_rule _ _))
          λ mode cx3. parse_mode-ExitsZero mode cx3

  -- The process exits within `parse` with code 0 only.
  pub parse_exits : (cx cx' : Context S) (code : ℕ) → parse A cx ≡ (exited code, cx') → code ≡ 0
  parse_exits cx cx' code h = subst (ExitsZero {S = S} {A = Mode}) h (parse-ExitsZero cx)
