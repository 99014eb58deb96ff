-- ===== src/Std/Strings/Sizes.antt =====
-- How long a decoded text is.
use wire_probe.Prelude.{ℕ, ◌+◌, ◌-◌, ◌*◌, ◌≤◌, [], ◌∷◌, Bytes, length, length-append, arith}
use wire_probe.Std.Strings.{
  Utf8State, start, inside, lead, decode_step, decode_from, from_utf8_lossy,
}

-- The character that a sequence that has begun may still give.
abbrev owed : Utf8State → ℕ
owed start = 0
owed (inside need acc lo hi) = 1

lead-length : (b : ℕ) → length (lead b).0 + owed (lead b).1 ≤ 1
unfolding lead
lead-length b = ground arith

decode_step-length :
    (st : Utf8State) (b : ℕ) → length (decode_step st b).0 + owed (decode_step st b).1 ≤ owed st + 1
unfolding decode_step
decode_step-length start b = lead-length b
decode_step-length (inside need acc lo hi) b = ground (arith, lead-length b)

decode_from-length :
    (st : Utf8State) (bs : Bytes) → length (decode_from st bs) ≤ length bs + owed st
unfolding decode_from
decode_from-length start [] = omega arith
decode_from-length (inside need acc lo hi) [] = omega arith
decode_from-length start (b ∷ bs) =
    let step = decode_step start b in
    omega (
      arith,
      length-append step.0 (decode_from step.1 bs),
      decode_from-length step.1 bs,
      decode_step-length start b,
    )
decode_from-length (inside need acc lo hi) (b ∷ bs) =
    let step = decode_step (inside need acc lo hi) b in
    omega (
      arith,
      length-append step.0 (decode_from step.1 bs),
      decode_from-length step.1 bs,
      decode_step-length (inside need acc lo hi) b,
    )

-- A text that is decoded has no more characters than there were bytes.
pub from_utf8_lossy-length : (bs : Bytes) → length (from_utf8_lossy bs) ≤ length bs
unfolding from_utf8_lossy
from_utf8_lossy-length bs = omega (arith, decode_from-length start bs)

-- The continuation bytes that a sequence may still want: three at most.
abbrev WantsFew : Utf8State → Type 0
WantsFew start = Unit
WantsFew (inside need acc lo hi) = need ≤ 3

-- A bound on the bytes of a sequence that has begun.
abbrev held : Utf8State → ℕ
held start = 0
held (inside need acc lo hi) = 3 - (need - 1)

lead-held : (b : ℕ) → WantsFew (lead b).1 × (1 ≤ 4 * length (lead b).0 + held (lead b).1)
unfolding lead
lead-held b = ground arith

decode_step-held :
    (st : Utf8State) (b : ℕ)
    → WantsFew st
    → WantsFew (decode_step st b).1
      × (held st + 1 ≤ 4 * length (decode_step st b).0 + held (decode_step st b).1)
unfolding decode_step
decode_step-held start b few = lead-held b
decode_step-held (inside need acc lo hi) b few = ground (arith, few, lead-held b)

decode_from-held :
    (st : Utf8State) (bs : Bytes)
    → WantsFew st
    → held st + length bs ≤ 4 * length (decode_from st bs)
unfolding decode_from
decode_from-held start [] few = omega arith
decode_from-held (inside need acc lo hi) [] few = omega arith
decode_from-held start (b ∷ bs) few =
    let step = decode_step start b in
    let stepped = decode_step-held start b few in
    omega (
      arith,
      length-append step.0 (decode_from step.1 bs),
      decode_from-held step.1 bs stepped.0,
      stepped.1,
    )
decode_from-held (inside need acc lo hi) (b ∷ bs) few =
    let step = decode_step (inside need acc lo hi) b in
    let stepped = decode_step-held (inside need acc lo hi) b few in
    omega (
      arith,
      length-append step.0 (decode_from step.1 bs),
      decode_from-held step.1 bs stepped.0,
      stepped.1,
    )

-- One character stands for four bytes at most.
pub length-from_utf8_lossy : (bs : Bytes) → length bs ≤ 4 * length (from_utf8_lossy bs)
unfolding from_utf8_lossy
length-from_utf8_lossy bs = omega (arith, decode_from-held start bs tt)
