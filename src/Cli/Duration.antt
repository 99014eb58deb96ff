-- ===== src/Cli/Duration.antt =====
-- `parse_duration` of src/cli.rs.
pub mod Grammar
use wire_probe.Prelude.{
  ℕ, ◌*◌, ◌<◌, ◌≤◌, ◌≡◌, ◌≢◌, inl, inr, none, some, [], ◌∷◌, ◌++◌, arith, Text, codes, All,
  Option-cases,
}
use mathlib.Core.Path.{subst}
use wire_probe.Std.Numbers.{Parsed, parsed, failed, u64_max, parse_uint, decimal}
use wire_probe.Std.Numbers.Laws.{IsDigit, parse_uint-decimal, decimal-IsDigit}
use wire_probe.Std.Strings.{strip_suffix}
use wire_probe.Std.Strings.Laws.{strip_suffix-append, strip_suffix-snoc, strip_suffix_absent}
use wire_probe.Std.Time
use wire_probe.Std.Time.{from_millis, from_secs, as_millis, IsDuration}
use wire_probe.Cli.Types.{bad_number, Result, ok, err}

abbrev with_number : (ℕ → Time.Duration) → Parsed → Result Time.Duration
with_number f (parsed n) = ok (f n)
with_number f (failed e) = err (bad_number e)

-- `Ok(f(s.parse()?))` at `u64`.
unfoldable pub parse_with : (ℕ → Time.Duration) → Text → Result Time.Duration
parse_with f s = with_number f (parse_uint u64_max s)

unfoldable pub parse_duration : Text → Result Time.Duration
unfolding parse_with
parse_duration s = elim (strip_suffix (codes "ms") s) [
  | some ms ↦ parse_with from_millis ms
  | none ↦ elim (strip_suffix (codes "s") s) [
    | some sec ↦ parse_with from_secs sec
    | none ↦ parse_with from_millis s
  ]
]

parse_with-decimal :
    (f : ℕ → Time.Duration) (n : ℕ) → n ≤ u64_max → parse_with f (decimal n) ≡ ok (f n)
unfolding parse_with
parse_with-decimal f n h = ground (arith, parse_uint-decimal u64_max n h)

IsDigit-ne : (c : ℕ) (s : Text) → 57 < c → All IsDigit s → All (λ d. d ≢ c) s
IsDigit-ne c [] h all = tt
IsDigit-ne c (d ∷ s) h all = (ground (arith, all.0), IsDigit-ne c s h all.1)

decimal_no_suffix : (p : Text) (c n : ℕ) → 57 < c → strip_suffix (p ++ (c ∷ [])) (decimal n) ≡ none
decimal_no_suffix p c n h = strip_suffix_absent p c _ (IsDigit-ne c _ h (decimal-IsDigit n))

-- The decimal text of a number of 64 bits is read as so many milliseconds with the suffix `ms` or
-- with none, and as so many seconds with the suffix `s`.
pub parse_duration-decimal :
    (n : ℕ)
    → n ≤ u64_max
    → (parse_duration (decimal n ++ codes "ms") ≡ ok (from_millis n))
      × (parse_duration (decimal n ++ codes "s") ≡ ok (from_secs n))
      × (parse_duration (decimal n) ≡ ok (from_millis n))
unfolding parse_duration
parse_duration-decimal n h = (
  ground (arith, strip_suffix-append (codes "ms") (decimal n), parse_with-decimal from_millis n h),
  ground (
    arith,
    strip_suffix-snoc (codes "m") (decimal n) b's',
    decimal_no_suffix [] b'm' n (omega arith),
    strip_suffix-append (codes "s") (decimal n),
    parse_with-decimal from_secs n h,
  ),
  ground (
    arith,
    decimal_no_suffix (codes "m") b's' n (omega arith),
    decimal_no_suffix [] b's' n (omega arith),
    parse_with-decimal from_millis n h,
  ),
)

-- A whole number of milliseconds.
pub record IsWhole (d : Time.Duration) : Type 0 where
  pub valid : IsDuration d
  pub whole : Time.as_nanos d ≡ as_millis d * 1_000_000

with_number-IsWhole :
    (f : ℕ → Time.Duration) (p : Parsed) (d : Time.Duration)
    → ((n : ℕ) → IsWhole (f n))
    → with_number f p ≡ ok d
    → IsWhole d
with_number-IsWhole f (parsed n) d all h = let e : f n ≡ d = cc in subst IsWhole e (all n)
with_number-IsWhole f (failed e) d all h = ground arith

from_millis-IsWhole : (ms : ℕ) → IsWhole (from_millis ms)
from_millis-IsWhole ms = omega arith

from_secs-IsWhole : (s : ℕ) → IsWhole (from_secs s)
from_secs-IsWhole s = omega arith

-- Every duration that is read is a whole number of milliseconds, and keeps the invariant of its
-- type.
pub parse_duration-IsWhole : (s : Text) (d : Time.Duration) → parse_duration s ≡ ok d → IsWhole d
unfolding parse_duration
parse_duration-IsWhole s d h = elim (Option-cases (strip_suffix (codes "ms") s)) [
  | inl no_ms ↦ elim (Option-cases (strip_suffix (codes "s") s)) [
    | inl no_s ↦
        with_number-IsWhole from_millis _ d from_millis-IsWhole
          (rw (no_ms, no_s, parse_duration) at h)
    | inr (t, e) ↦
        with_number-IsWhole from_secs _ d from_secs-IsWhole (rw (no_ms, e, parse_duration) at h)
  ]
  | inr (t, e) ↦
      with_number-IsWhole from_millis _ d from_millis-IsWhole (rw (e, parse_duration) at h)
]
