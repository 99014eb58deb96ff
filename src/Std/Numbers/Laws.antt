-- ===== src/Std/Numbers/Laws.antt =====
-- Reading what was written, and the range of what is read.
use wire_probe.Prelude.{
  ℕ, zero, suc, ◌+◌, ◌*◌, ◌-◌, ◌/◌, ◌^◌, ◌<◌, ◌≤◌, ◌≡◌, refl, ◌≢◌, ◌∙◌, [], ◌∷◌, ◌++◌, arith, ltb,
  ◌==◌, Text, All, length, length-append, Bool-cases, inl, inr, All-append,
}
use native.Mathlib.Nat.{pow-suc}
use wire_probe.Std.Numbers.{Parsed, parsed, failed, parse_digits, parse_uint, digits, decimal}

abbrev pub IsDigit : ℕ → Type 0
IsDigit c = (48 ≤ c) × (c ≤ 57)

abbrev then_digit : (max : ℕ) → Parsed → ℕ → Parsed
then_digit max (parsed v) c = parse_digits max v (c ∷ [])
then_digit max (failed e) c = failed e

parse_digits-snoc :
    (max acc : ℕ) (s : Text) (c : ℕ)
    → parse_digits max acc (s ++ (c ∷ [])) ≡ then_digit max (parse_digits max acc s) c
unfolding parse_digits
parse_digits-snoc max acc [] c = refl
parse_digits-snoc max acc (d ∷ s) c =
    ground (arith, parse_digits-snoc max (acc * 10 + (d - 48)) s c)

parse_digits-digits :
    (max fuel n : ℕ) → n < fuel → n ≤ max → parse_digits max 0 (digits fuel n) ≡ parsed n
unfolding digits parse_digits
parse_digits-digits max zero n h k = elim h [ ]
parse_digits-digits max (suc f) n h k = elim (Bool-cases (ltb n 10)) [
  | inl e ↦ rw e (ground arith)
  | inr e ↦
      rw (e, parse_digits-snoc, parse_digits-digits max f (n / 10) (ground arith) (ground arith))
        (ground arith)
]

digits-IsDigit : (fuel n : ℕ) → All IsDigit (digits fuel n)
unfolding digits
digits-IsDigit zero n = tt
digits-IsDigit (suc f) n = elim (Bool-cases (ltb n 10)) [
  | inl e ↦ rw e (ground arith, tt)
  | inr e ↦ rw e (All-append IsDigit _ _ (digits-IsDigit f (n / 10)) (omega arith, tt))
]

pub decimal-IsDigit : (n : ℕ) → All IsDigit (decimal n)
unfolding decimal
decimal-IsDigit n = digits-IsDigit (suc n) n

digits-length-le : (fuel n k : ℕ) → n < 10 ^ suc k → length (digits fuel n) ≤ suc k
unfolding digits
digits-length-le zero n k h = omega arith
digits-length-le (suc f) n zero h = ground arith
digits-length-le (suc f) n (suc k) h =
    let small : n / 10 < 10 ^ suc k = omega (arith, pow-suc 10 (suc k)) in
    elim (Bool-cases (ltb n 10)) [
      | inl e ↦ rw e (omega arith)
      | inr e ↦ rw (e, length-append) (omega (arith, digits-length-le f (n / 10) k small))
    ]

-- A number below `10 ^ k` has at most `k` digits.
pub decimal-length-le : (n k : ℕ) → n < 10 ^ suc k → length (decimal n) ≤ suc k
unfolding decimal
decimal-length-le n k h = digits-length-le (suc n) n k h

append-ne-nil : (s : Text) (c : ℕ) → s ++ (c ∷ []) ≢ []
append-ne-nil [] c h = cc
append-ne-nil (d ∷ s) c h = cc

pub decimal-ne-nil : (n : ℕ) → decimal n ≢ []
unfolding decimal digits
decimal-ne-nil n h = elim (Bool-cases (ltb n 10)) [
  | inl e ↦ cc (rw e at h)
  | inr e ↦ append-ne-nil (digits n (n / 10)) _ (rw e at h)
]

pub parse_uint-parse_digits :
    (max : ℕ) (s : Text) → All IsDigit s → s ≢ [] → parse_uint max s ≡ parse_digits max 0 s
unfolding parse_uint
parse_uint-parse_digits max [] h k = absurd (k refl)
parse_uint-parse_digits max (c ∷ []) h k = refl
parse_uint-parse_digits max (c ∷ d ∷ s) h k = ground (arith, h.0)

-- What is written is read back.
pub parse_uint-decimal : (max n : ℕ) → n ≤ max → parse_uint max (decimal n) ≡ parsed n
unfolding decimal
parse_uint-decimal max n h =
    parse_uint-parse_digits max (decimal n) (decimal-IsDigit n) (decimal-ne-nil n)
    ∙ parse_digits-digits max (suc n) n (omega arith) h

parse_digits-le :
    (max acc : ℕ) (s : Text) {n : ℕ} → acc ≤ max → parse_digits max acc s ≡ parsed n → n ≤ max
unfolding parse_digits
parse_digits-le max acc [] {n} h k = ground arith
parse_digits-le max acc (c ∷ s) {n} h k =
    ground (arith, parse_digits-le max (acc * 10 + (c - 48)) s {n = n})

-- Nothing above the greatest value is read.
pub parse_uint-le : (max : ℕ) (s : Text) {n : ℕ} → parse_uint max s ≡ parsed n → n ≤ max
unfolding parse_uint
parse_uint-le max [] h = ground arith
parse_uint-le max (c ∷ []) h = parse_digits-le max 0 (c ∷ []) (omega arith) h
parse_uint-le max (c ∷ d ∷ s) {n} h = elim (Bool-cases (c == 43)) [
  | inl e ↦ parse_digits-le max 0 (d ∷ s) (omega arith) (rw e at h)
  | inr e ↦ parse_digits-le max 0 (c ∷ d ∷ s) (omega arith) (rw e at h)
]
