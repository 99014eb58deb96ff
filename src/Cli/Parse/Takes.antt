-- ===== src/Cli/Parse/Takes.antt =====
-- What `pico_args` documents of the options that it takes, and rules for the runs of src/cli.rs that
-- succeed by it.
use wire_probe.Prelude.{
  ◌≡◌, refl, sym, ap, ◌∙◌, Bool, false, List, [], ◌∷◌, Text, Option, some, if◌then◌else◌,
  Bool-cases, inl, inr,
}
use wire_probe.Std.Strings.{text_eq}
use wire_probe.Std.Strings.Laws.{text_eq_iff}
use wire_probe.Cli.Types.{Result, ok}
use wire_probe.Cli.Command.{
  Context, Run, Command, done, raised, exited, continue_run, ◌>>=◌, attempt,
}
use wire_probe.Cli.Parse.{Arguments, flag, option, required, leftover}

-- The values behind each key, in their order.
abbrev pub Options : Type 0
Options = Text → List Text

abbrev pub rest_of : List Text → List Text
rest_of [] = []
rest_of (w ∷ ws) = ws

-- The options without the first value of a key.
abbrev pub without : Text → Options → Options
without key g k = if text_eq k key then rest_of (g k) else g k

-- One more option, in front of others.
abbrev pub entry : Text → Text → Options → Options
entry key w g k = if text_eq k key then w ∷ [] else g k

entry_taken :
    (key w : Text) (g : Options) → g key ≡ [] → (k : Text) → without key (entry key w g) k ≡ g k
entry_taken key w g once k = elim (Bool-cases (text_eq k key)) [
  | inl e ↦ let same : k ≡ key = (text_eq_iff k key).0 e in rw e (sym once ∙ ap g (sym same))
  | inr e ↦ rw e refl
]

-- An option that is taken leaves the others, if it was given once.
without-entry : (key w : Text) (g : Options) → g key ≡ [] → without key (entry key w g) ≡ g
without-entry key w g once = λ i k. entry_taken key w g once k i

entry_at : (key w : Text) (g : Options) → entry key w g key ≡ w ∷ []
entry_at key w g = rw ((text_eq_iff key key).1 refl) refl

-- What is documented of options. An option is found by its key, and its first value is taken out with
-- the key if it is converted. What a conversion that fails leaves is not said. `given` and `free` are a
-- reading of the arguments as options with their values and as what belongs to none.
pub record Takes (A : Arguments) : Type 1 where
  pub given : A.S → Options
  pub free : A.S → List Text
  pub contains_absent :
      (keys : List Text) (s : A.S) → (A.contains keys s).0 ≡ false → A.contains keys s ≡ (false, s)
  pub opt_some :
      (T : Type 0) (f : Text → Option T) (key : Text) (s : A.S) (w : Text) (ws : List Text) (t : T)
      → given s key ≡ w ∷ ws
      → f w ≡ some t
      → (A.opt_value_from_str f key s).0 ≡ ok (some t)
  pub opt_rest :
      (T : Type 0) (f : Text → Option T) (key : Text) (s : A.S) (w : Text) (ws : List Text) (t : T)
      → given s key ≡ w ∷ ws
      → f w ≡ some t
      → (given (A.opt_value_from_str f key s).1 ≡ without key (given s))
        × (free (A.opt_value_from_str f key s).1 ≡ free s)
  pub value_some :
      (T : Type 0) (f : Text → Option T) (key : Text) (s : A.S) (w : Text) (ws : List Text) (t : T)
      → given s key ≡ w ∷ ws
      → f w ≡ some t
      → (A.value_from_str f key s).0 ≡ ok t
  pub value_rest :
      (T : Type 0) (f : Text → Option T) (key : Text) (s : A.S) (w : Text) (ws : List Text) (t : T)
      → given s key ≡ w ∷ ws
      → f w ≡ some t
      → (given (A.value_from_str f key s).1 ≡ without key (given s))
        × (free (A.value_from_str f key s).1 ≡ free s)
  pub finish_empty : (s : A.S) → ((k : Text) → given s k ≡ []) → free s ≡ [] → A.finish s ≡ []

-- A run succeeds, with this of its value and of what it leaves.
abbrev pub Gives : {S B : Type 0} → (B → Context S → Type 0) → Run B × Context S → Type 0
Gives P (done b, cx) = P b cx
Gives P (raised e, cx) = ⊥
Gives P (exited code, cx) = ⊥

pub Gives-of_done :
    {S B : Type 0} (P : B → Context S → Type 0) (r : Run B × Context S) (b : B)
    → r.0 ≡ done b
    → P b r.1
    → Gives P r
Gives-of_done P r b e h = rw e h

continue-Gives :
    {S B C : Type 0} (Q : B → Context S → Type 0) (P : C → Context S → Type 0)
    (r : Run B × Context S) (f : B → Command S C)
    → Gives Q r
    → ((b : B) (cx : Context S) → Q b cx → Gives P (f b cx))
    → Gives P (continue_run r.0 f r.1)
continue-Gives Q P (done b, cx) f h k = k b cx h
continue-Gives Q P (raised e, cx) f h k = absurd h
continue-Gives Q P (exited code, cx) f h k = absurd h

pub bind-Gives :
    {S B C : Type 0} (Q : B → Context S → Type 0) (P : C → Context S → Type 0) (m : Command S B)
    (f : B → Command S C) (cx : Context S)
    → Gives Q (m cx)
    → ((b : B) (cx' : Context S) → Q b cx' → Gives P (f b cx'))
    → Gives P ((m >>= f) cx)
unfolding ◌>>=◌
bind-Gives Q P m f cx h k = continue-Gives Q P (m cx) f h k

module _ (A : Arguments) (d : Takes A) where
  open A use {S}

  -- What is left to take.
  pub record Holds (g : Options) (cx : Context S) : Type 0 where
    pub options : d.given cx.args ≡ g
    pub no_free : d.free cx.args ≡ []

  pub attempt-Gives :
      {T B : Type 0} (r : Result T) (a : T) (f : T → Command S B) (cx : Context S)
      (P : B → Context S → Type 0)
      → r ≡ ok a
      → Gives P (f a cx)
      → Gives P ((attempt r >>= f) cx)
  unfolding ◌>>=◌
  attempt-Gives r a f cx P e h = rw e h

  pub flag-Gives :
      {B : Type 0} (keys : List Text) (f : Bool → Command S B) (cx : Context S)
      (P : B → Context S → Type 0)
      → (A.contains keys cx.args).0 ≡ false
      → Gives P (f false cx)
      → Gives P ((flag A keys >>= f) cx)
  unfolding ◌>>=◌
  flag-Gives keys f cx P e h = rw (d.contains_absent keys cx.args e) h

  pub leftover-Gives :
      {B : Type 0} (f : List Text → Command S B) (cx : Context S) (P : B → Context S → Type 0)
      → Holds (λ k. []) cx
      → Gives P (f [] cx)
      → Gives P ((leftover A >>= f) cx)
  unfolding ◌>>=◌
  leftover-Gives f cx P v h = rw (d.finish_empty cx.args (λ k. ap (λ g. g k) v.options) v.no_free) h

  pub option-Gives :
      {T B : Type 0} (from_str : Text → Option T) (key w : Text) (t : T)
      (f : Option T → Command S B) (g : Options) (cx : Context S) (P : B → Context S → Type 0)
      → Holds (entry key w g) cx
      → g key ≡ []
      → from_str w ≡ some t
      → ((cx' : Context S) → Holds g cx' → Gives P (f (some t) cx'))
      → Gives P ((option A from_str key >>= f) cx)
  unfolding ◌>>=◌
  option-Gives {T} from_str key w t f g cx P v once e h =
      let here : d.given cx.args key ≡ w ∷ [] = ap (λ o. o key) v.options ∙ entry_at key w g in
      let rest = d.opt_rest T from_str key cx.args w [] t here e in
      rw (d.opt_some T from_str key cx.args w [] t here e) (
        h _ (record {
          options = rest.0 ∙ ap (without key) v.options ∙ without-entry key w g once;
          no_free = rest.1 ∙ v.no_free;
        }))

  pub required-Gives :
      {T B : Type 0} (from_str : Text → Option T) (key w : Text) (t : T) (f : T → Command S B)
      (g : Options) (cx : Context S) (P : B → Context S → Type 0)
      → Holds (entry key w g) cx
      → g key ≡ []
      → from_str w ≡ some t
      → ((cx' : Context S) → Holds g cx' → Gives P (f t cx'))
      → Gives P ((required A from_str key >>= f) cx)
  unfolding ◌>>=◌
  required-Gives {T} from_str key w t f g cx P v once e h =
      let here : d.given cx.args key ≡ w ∷ [] = ap (λ o. o key) v.options ∙ entry_at key w g in
      let rest = d.value_rest T from_str key cx.args w [] t here e in
      rw (d.value_some T from_str key cx.args w [] t here e) (
        h _ (record {
          options = rest.0 ∙ ap (without key) v.options ∙ without-entry key w g once;
          no_free = rest.1 ∙ v.no_free;
        }))
