-- ===== src/Tests/Suite.antt =====
-- The unit tests of the crate (`mod tests` of each file of src/), run on the model. A test is a
-- Boolean: each `assert!` is a conjunct, and an `unwrap` of nothing makes it false.
mod Rotation
mod Values
mod Lines
mod Putval
mod Blob
use mathlib.Core.Option
use wire_probe.Prelude.{
  ℕ, ◌+◌, ◌/◌, ◌%◌, Bool, true, false, List, [], ◌∷◌, ◌++◌, Text, Bytes, codes, Option, none, some,
  ◌&&◌, ◌||◌, if◌then◌else◌, ◌==◌, drop, length, ltb, ◌-◌,
}
use wire_probe.Std.Io.{IoResult, ok, err}
use wire_probe.Std.Strings.{text_eq}
use wire_probe.Std.Numbers.{decimal}
use wire_probe.External.{Numerics}

-- Three decimal places with no zeros at the end, but one digit at least.
abbrev decimals : ℕ → Text
decimals k =
    (b'0' + k / 100)
    ∷ (if k % 100 == 0
        then []
        else ((b'0' + k / 10 % 10) ∷ (if k % 10 == 0 then [] else (b'0' + k % 10) ∷ [])))

-- Thousandths in the place of floats, which are written as `ryu` writes such values.
abbrev pub thousandths : Numerics
thousandths = record {
  F64 = ℕ;
  to_f64 = λ k. k;
  div = λ a b. a / b;
  ryu = λ x. decimal (x / 1000) ++ (b'.' ∷ decimals (x % 1000));
  itoa = decimal;
}

-- `ends_with`
unfoldable pub ends_with : Bytes → Bytes → Bool
unfolding text_eq
ends_with suffix s =
    if ltb (length s) (length suffix)
    then false
    else text_eq (drop (length s - length suffix) s) suffix

abbrev pub succeeds {ℓ} : {A : Type ℓ} → IoResult A → Bool
succeeds (ok a) = true
succeeds (err e) = false

abbrev pub holds_of {ℓ} : {A : Type ℓ} → (A → Bool) → Option A → Bool
holds_of p none = false
holds_of p (some a) = p a

unfoldable pub starts_with : Bytes → Bytes → Bool
starts_with [] s = true
starts_with (p ∷ ps) [] = false
starts_with (p ∷ ps) (c ∷ s) = (p == c) && starts_with ps s

-- `contains` of a pattern that is not empty
unfoldable pub contains : Bytes → Bytes → Bool
unfolding starts_with
contains pattern [] = false
contains pattern (c ∷ s) = starts_with pattern (c ∷ s) || contains pattern s
