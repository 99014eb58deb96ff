-- ===== src/Tests/Data/Options.antt =====
-- The argument parser over pairs keeps what `pico_args` documents.
use wire_probe.Prelude.{
  ◌≡◌, refl, ap, ◌∙◌, List, [], ◌∷◌, Text, Option, some, arith, if◌then◌else◌, Bool-cases, inl, inr,
}
use wire_probe.Std.Strings.{text_eq}
use wire_probe.Std.Strings.Laws.{text_eq_iff}
use wire_probe.Cli.Types.{ok}
use wire_probe.Cli.Command.{Context}
use wire_probe.Cli.Parse.Takes.{Options, without, entry, Takes, Holds}
use wire_probe.Tests.Data.{pairs, taken, left_by, converted, demanded, keys_of}

abbrev pub values : List (Text × Text) → Options
values [] key = []
values ((k, v) ∷ s) key = if text_eq k key then v ∷ values s key else values s key

-- The first value of a key is taken.
taken_first :
    (key : Text) (s : List (Text × Text)) (w : Text) (ws : List Text)
    → values s key ≡ w ∷ ws
    → (taken key s).0 ≡ some w
unfolding taken
taken_first key [] w ws h = cc
taken_first key ((k, v) ∷ s) w ws h = elim (Bool-cases (text_eq k key)) [
  | inl e ↦ ground arith
  | inr e ↦ ground (arith, taken_first key s w ws (ground arith))
]

taken_rest :
    (key : Text) (s : List (Text × Text)) (k' : Text)
    → values (taken key s).1 k' ≡ without key (values s) k'
unfolding taken
taken_rest key [] k' = ground arith
taken_rest key ((k, v) ∷ s) k' = elim (Bool-cases (text_eq k key)) [
  | inl e ↦ ground (arith, text_eq_iff k key, text_eq_iff k k', text_eq_iff k' key)
  | inr e ↦
      ground (arith, taken_rest key s k', text_eq_iff k key, text_eq_iff k k', text_eq_iff k' key)
]

left_by_rest :
    {T : Type 0} (f : Text → Option T) (key : Text) (s : List (Text × Text)) (w : Text)
    (ws : List Text) (t : T)
    → values s key ≡ w ∷ ws
    → f w ≡ some t
    → values (left_by f (taken key s) s) ≡ without key (values s)
left_by_rest f key s w ws t h e =
    let found = taken_first key s w ws h in
    let rest : left_by f (taken key s) s ≡ (taken key s).1 = ground (arith, found, e) in
    ap values rest ∙ (λ i k. taken_rest key s k i)

converted-some :
    {T : Type 0} (f : Text → Option T) (w : Text) (t : T)
    → f w ≡ some t
    → converted f (some w) ≡ ok (some t)
converted-some f w t e = ground arith

entry_value :
    (key w : Text) (s : List (Text × Text)) (k : Text)
    → values s key ≡ []
    → values ((key, w) ∷ s) k ≡ entry key w (values s) k
entry_value key w s k once = elim (Bool-cases (text_eq k key)) [
  | inl e ↦
      let same : k ≡ key = (text_eq_iff k key).0 e in
      rw same (rw ((text_eq_iff key key).1 refl) (ap (λ l. w ∷ l) once))
  | inr e ↦ ground (arith, text_eq_iff k key, text_eq_iff key k)
]

-- A pair in front of others with other keys is an option given once.
pub values_cons :
    (key w : Text) (s : List (Text × Text)) (g : Options)
    → values s key ≡ []
    → values s ≡ g
    → values ((key, w) ∷ s) ≡ entry key w g
values_cons key w s g once e = (λ i k. entry_value key w s k once i) ∙ ap (entry key w) e

none_left : (s : List (Text × Text)) → ((k : Text) → values s k ≡ []) → keys_of s ≡ []
none_left [] h = refl
none_left ((k, v) ∷ s) h = let e = (text_eq_iff k k).1 refl in ground (arith, h k)

pub pairs_options : Takes pairs
pairs_options = record {
  given = values;
  free = λ s. [];
  contains_absent = λ keys s h. refl;
  opt_some =
      λ T f key s w ws t h e. ap (converted f) (taken_first key s w ws h) ∙ converted-some f w t e;
  opt_rest = λ T f key s w ws t h e. (left_by_rest f key s w ws t h e, refl);
  value_some = λ T f key s w ws t h e.
      ap (λ o. demanded key (converted f o)) (taken_first key s w ws h)
      ∙ ap (demanded key) (converted-some f w t e);
  value_rest = λ T f key s w ws t h e. (left_by_rest f key s w ws t h e, refl);
  finish_empty = λ s h e. none_left s h;
}

pub pairs-Holds :
    (g : Options) (cx : Context (List (Text × Text)))
    → values cx.args ≡ g
    → Holds pairs pairs_options g cx
unfolding pairs_options
pairs-Holds g cx e = record { options = e; no_free = refl }
