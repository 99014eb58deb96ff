-- ===== src/Std/Time.antt =====
-- `std::time::Duration`
use wire_probe.Prelude.{
  ℕ, ◌+◌, ◌-◌, ◌*◌, ◌/◌, ◌%◌, ◌<◌, ◌≡◌, ◌↔◌, Bool, true, ◌&&◌, ◌||◌, Option, none, some, arith, ltb,
  leb, ◌==◌, if◌then◌else◌,
}

-- Whole seconds and the nanoseconds past them.
pub record Duration : Type 0 where
  pub secs : ℕ
  pub nanos : ℕ

abbrev pub nanos_per_sec : ℕ
nanos_per_sec = 1_000_000_000

-- The invariant of the type.
pub record IsDuration (d : Duration) : Type 0 where
  pub carried : d.nanos < nanos_per_sec

abbrev pub from_millis : ℕ → Duration
from_millis ms = record { secs = ms / 1000; nanos = ms % 1000 * 1_000_000 }

abbrev pub from_secs : ℕ → Duration
from_secs s = record { secs = s; nanos = 0 }

abbrev pub as_millis : Duration → ℕ
as_millis d = d.secs * 1000 + d.nanos / 1_000_000

abbrev pub as_nanos : Duration → ℕ
as_nanos d = d.secs * nanos_per_sec + d.nanos

abbrev pub is_zero : Duration → Bool
is_zero d = (d.secs == 0) && (d.nanos == 0)

-- `a < b`, by the derived order.
abbrev pub lt_duration : Duration → Duration → Bool
lt_duration a b = ltb a.secs b.secs || ((a.secs == b.secs) && ltb a.nanos b.nanos)

-- `none` where the difference would be negative.
unfoldable pub checked_sub : Duration → Duration → Option Duration
checked_sub a b =
    if lt_duration a b
    then none
    else (if leb b.nanos a.nanos
        then some (record { secs = a.secs - b.secs; nanos = a.nanos - b.nanos })
        else some
            (record { secs = a.secs - b.secs - 1; nanos = a.nanos + nanos_per_sec - b.nanos }))

pub lt_duration-as_nanos :
    (a b : Duration)
    → IsDuration a
    → IsDuration b
    → (lt_duration a b ≡ true) ↔ (as_nanos a < as_nanos b)
lt_duration-as_nanos a b va vb = ground arith

pub checked_sub-none :
    (a b : Duration)
    → IsDuration a
    → IsDuration b
    → (checked_sub a b ≡ none) ↔ (as_nanos a < as_nanos b)
unfolding checked_sub
checked_sub-none a b va vb = ground arith

pub checked_sub-some :
    (a b d : Duration)
    → IsDuration a
    → IsDuration b
    → checked_sub a b ≡ some d
    → IsDuration d × (as_nanos d + as_nanos b ≡ as_nanos a)
unfolding checked_sub
checked_sub-some a b d va vb h = ground arith

pub from_millis-IsDuration : (ms : ℕ) → IsDuration (from_millis ms)
from_millis-IsDuration ms = omega arith

pub as_millis-from_millis : (ms : ℕ) → as_millis (from_millis ms) ≡ ms
as_millis-from_millis ms = omega arith
