-- ===== src/Cli/Duration/Grammar.antt =====
-- The texts that `parse_duration` of src/cli.rs accepts, written as a grammar.
use wire_probe.Prelude.{
  ℕ, ◌<◌, ◌≡◌, ◌↔◌, inl, inr, refl, none, [], ◌∷◌, ◌++◌, arith, Text, codes, Option-cases,
}
use wire_probe.Std.Numbers.{Parsed, parsed, failed, u64_max, parse_uint}
use wire_probe.Std.Numbers.Numerals.{IsNumeral, parse_uint_iff}
use wire_probe.Std.Strings.{strip_suffix}
use wire_probe.Std.Strings.Laws.{
  strip_suffix-append, strip_suffix-snoc, strip_suffix-eq-some, strip_suffix_absent,
}
use wire_probe.Std.Time
use wire_probe.Std.Time.{from_millis, from_secs}
use wire_probe.Cli.Types.{ok}
use wire_probe.Cli.Duration.{parse_with, with_number, IsDigit-ne, parse_duration}

-- A numeral with its unit.
pub data IsQuantity (p : Text) (k : ℕ) : Text → Time.Duration → Type 0 where
  in_millis : IsQuantity p k (p ++ codes "ms") (from_millis k)
  bare : IsQuantity p k p (from_millis k)
  in_secs : IsQuantity p k (p ++ codes "s") (from_secs k)

-- A number of 64 bits, as milliseconds with `ms` or with nothing behind it, or as seconds with `s`.
pub record IsDurationText (s : Text) (d : Time.Duration) : Type 0 where
  pub numeral : Text
  pub number : ℕ
  pub is_numeral : IsNumeral u64_max numeral number
  pub quantity : IsQuantity numeral number s d

with_number-IsNumeral :
    (f : ℕ → Time.Duration) (s : Text) (d : Time.Duration) (p : Parsed)
    → parse_uint u64_max s ≡ p
    → with_number f p ≡ ok d
    → (k : ℕ) × IsNumeral u64_max s k × (f k ≡ d)
with_number-IsNumeral f s d (parsed k) e h = (k, (parse_uint_iff u64_max k s).0 e, cc)
with_number-IsNumeral f s d (failed x) e h = cc

parse_with-IsNumeral :
    (f : ℕ → Time.Duration) (s : Text) (d : Time.Duration)
    → parse_with f s ≡ ok d
    → (k : ℕ) × IsNumeral u64_max s k × (f k ≡ d)
unfolding parse_with
parse_with-IsNumeral f s d h = with_number-IsNumeral f s d (parse_uint u64_max s) refl h

numeral-parse_with :
    (f : ℕ → Time.Duration) (s : Text) (k : ℕ) → IsNumeral u64_max s k → parse_with f s ≡ ok (f k)
unfolding parse_with
numeral-parse_with f s k v = rw ((parse_uint_iff u64_max k s).1 v) refl

parse_duration-IsDurationText :
    (s : Text) (d : Time.Duration) → parse_duration s ≡ ok d → IsDurationText s d
unfolding parse_duration
parse_duration-IsDurationText s d h = elim (Option-cases (strip_suffix (codes "ms") s)) [
  | inl no_ms ↦ elim (Option-cases (strip_suffix (codes "s") s)) [
    | inl no_s ↦
        let (k, v, e) =
          parse_with-IsNumeral from_millis s d (rw (no_ms, no_s, parse_duration) at h) in
        rw (← e) (record { numeral = s; number = k; is_numeral = v; quantity = bare })
    | inr (t, found) ↦
        let (k, v, e) =
          parse_with-IsNumeral from_secs t d (rw (no_ms, found, parse_duration) at h) in
        rw (← e, strip_suffix-eq-some (codes "s") s t found)
          (record { numeral = t; number = k; is_numeral = v; quantity = in_secs })
  ]
  | inr (t, found) ↦
      let (k, v, e) = parse_with-IsNumeral from_millis t d (rw (found, parse_duration) at h) in
      rw (← e, strip_suffix-eq-some (codes "ms") s t found)
        (record { numeral = t; number = k; is_numeral = v; quantity = in_millis })
]

-- A numeral ends in a digit.
no_suffix :
    (p : Text) (c k : ℕ) (s : Text)
    → 57 < c
    → IsNumeral u64_max s k
    → strip_suffix (p ++ (c ∷ [])) s ≡ none
no_suffix p c k s h v = strip_suffix_absent p c s (elim v.signed [
  | inl e ↦ rw e (IsDigit-ne c v.digits h v.decimal)
  | inr e ↦ rw e ((λ plus. omega arith), IsDigit-ne c v.digits h v.decimal)
])

IsQuantity-parse_duration :
    (p s : Text) (k : ℕ) (d : Time.Duration)
    → IsNumeral u64_max p k
    → IsQuantity p k s d
    → parse_duration s ≡ ok d
unfolding parse_duration
IsQuantity-parse_duration p s k d v in_millis =
    ground (arith, strip_suffix-append (codes "ms") p, numeral-parse_with from_millis p k v)
IsQuantity-parse_duration p s k d v bare = ground (
  arith,
  no_suffix (codes "m") b's' k p (omega arith) v,
  no_suffix [] b's' k p (omega arith) v,
  numeral-parse_with from_millis p k v,
)
IsQuantity-parse_duration p s k d v in_secs = ground (
  arith,
  strip_suffix-snoc (codes "m") p b's',
  no_suffix [] b'm' k p (omega arith) v,
  strip_suffix-append (codes "s") p,
  numeral-parse_with from_secs p k v,
)

-- A text is read as a duration exactly if it is a numeral with a unit that make this duration:
-- milliseconds with `ms` or with nothing behind the numeral, seconds with `s`. A numeral has
-- digits, at least one, behind one `+` or none, and its value has at most 64 bits.
pub parse_duration_iff :
    (s : Text) (d : Time.Duration) → (parse_duration s ≡ ok d) ↔ IsDurationText s d
parse_duration_iff s d = (
  parse_duration-IsDurationText s d,
  λ v. IsQuantity-parse_duration v.numeral s v.number d v.is_numeral v.quantity,
)
