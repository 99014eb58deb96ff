-- ===== src/Cli/Command.antt =====
-- The effects of `parse` of src/cli.rs: it consumes arguments, prints, fails by `?` and may exit.
use wire_probe.Prelude.{ℕ, ◌≡◌, refl, Bool, true, false, List, [], ◌∷◌, ◌++◌}
use wire_probe.Std.Time.{Duration}
use wire_probe.Cli.Types.{CliError, Result, ok, err}

-- What is printed: the help (to stdout if true, else to stderr), the version, and the warning that
-- the timeout exceeds the interval.
pub data Message : Type 0 where
  help : (to_stdout : Bool) → Message
  version : Message
  timeout_exceeds : (timeout interval : Duration) → Message

pub record Context (S : Type 0) : Type 0 where
  pub args : S
  pub out : List Message

pub data Run (A : Type 0) : Type 0 where
  done : A → Run A
  raised : CliError → Run A
  exited : (code : ℕ) → Run A

abbrev pub Command : Type 0 → Type 0 → Type 0
Command S A = Context S → Run A × Context S

abbrev pub continue_run : {S A B : Type 0} → Run A → (A → Command S B) → Command S B
continue_run (done a) f cx = f a cx
continue_run (raised e) f cx = (raised e, cx)
continue_run (exited code) f cx = (exited code, cx)

infixl 5 ◌>>=◌ ◌>>◌
unfoldable pub ◌>>=◌ : {S A B : Type 0} → Command S A → (A → Command S B) → Command S B
◌>>=◌ m f cx = let r = m cx in continue_run r.0 f r.1

abbrev pub ◌>>◌ : {S B : Type 0} → Command S (Unit {0}) → Command S B → Command S B
m >> k = m >>= λ _. k

abbrev pub pure : {S A : Type 0} → A → Command S A
pure a cx = (done a, cx)

abbrev pub fail : {S A : Type 0} → CliError → Command S A
fail e cx = (raised e, cx)

abbrev pub exit : {S A : Type 0} → ℕ → Command S A
exit code cx = (exited code, cx)

abbrev pub print : {S : Type 0} → Message → Command S (Unit {0})
print m cx = (done tt, record cx { out = cx.out ++ (m ∷ []) })

abbrev pub run_of : {A : Type 0} → Result A → Run A
run_of (ok a) = done a
run_of (err e) = raised e

-- `?` on a result.
abbrev pub attempt : {S A : Type 0} → Result A → Command S A
attempt r cx = (run_of r, cx)

-- An early `return Err(e)`.
abbrev pub refuse_if : {S : Type 0} → Bool → CliError → Command S (Unit {0})
refuse_if true e = fail e
refuse_if false e = pure tt

abbrev pub print_if : {S : Type 0} → Bool → Message → Command S (Unit {0})
print_if true m = print m
print_if false m = pure tt

-- What holds of the value and the context of a run that succeeds.
abbrev pub Ensures : {S A : Type 0} → (A → Context S → Type 0) → Run A × Context S → Type 0
Ensures P (done a, cx) = P a cx
Ensures P (raised e, cx) = Unit
Ensures P (exited code, cx) = Unit

run_rule :
    {S A B : Type 0} (Q : A → Context S → Type 0) (P : B → Context S → Type 0)
    (r : Run A × Context S) (f : A → Command S B)
    → Ensures Q r
    → ((a : A) (cx : Context S) → Q a cx → Ensures P (f a cx))
    → Ensures P (continue_run r.0 f r.1)
run_rule Q P (done a, cx) f h k = k a cx h
run_rule Q P (raised e, cx) f h k = tt
run_rule Q P (exited code, cx) f h k = tt

-- The rule for a sequence.
pub bind_rule :
    {S A B : Type 0} (Q : A → Context S → Type 0) (P : B → Context S → Type 0) (m : Command S A)
    (f : A → Command S B) (cx : Context S)
    → Ensures Q (m cx)
    → ((a : A) (cx' : Context S) → Q a cx' → Ensures P (f a cx'))
    → Ensures P ((m >>= f) cx)
unfolding ◌>>=◌
bind_rule Q P m f cx h k = run_rule Q P (m cx) f h k

-- The rule for `?` on a result, which may leave the arguments changed.
pub input_rule :
    {S A : Type 0} (r : Result A) (cx : Context S) (rest : S)
    → Ensures
        (λ a cx'. (r ≡ ok a) × (cx' ≡ record cx { args = rest }))
        (run_of r, record cx { args = rest })
input_rule (ok a) cx rest = (refl, refl)
input_rule (err e) cx rest = tt

-- From the runs that succeed to all, and back.
pub Ensures-of_done :
    {S A : Type 0} (P : A → Context S → Type 0) (r : Run A × Context S)
    → ((a : A) (cx : Context S) → r ≡ (done a, cx) → P a cx)
    → Ensures P r
Ensures-of_done P (done a, cx) h = h a cx refl
Ensures-of_done P (raised e, cx) h = tt
Ensures-of_done P (exited code, cx) h = tt

pub done-of_Ensures :
    {S A : Type 0} (P : A → Context S → Type 0) {r : Run A × Context S} (a : A) (cx : Context S)
    → Ensures P r
    → r ≡ (done a, cx)
    → P a cx
done-of_Ensures P a cx h e = rw e at h
