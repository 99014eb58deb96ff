-- ===== src/Std/Strings.antt =====
-- `str` methods over code points, and the two directions of UTF-8.
pub mod Laws
pub mod Sizes
use mathlib.Core.List.{reverse}
use mathlib.Core.Option
use wire_probe.Prelude.{
  ℕ, zero, suc, ◌+◌, ◌-◌, ◌*◌, ◌/◌, ◌%◌, ◌^◌, Bool, true, false, ◌&&◌, ◌||◌, Option, none, some,
  List, [], ◌∷◌, ◌++◌, ltb, leb, ◌==◌, if◌then◌else◌, Text, Bytes,
}

-- What follows the prefix, if the text begins with it.
unfoldable pub strip_prefix : Text → Text → Option Text
strip_prefix [] s = some s
strip_prefix (p ∷ ps) [] = none
strip_prefix (p ∷ ps) (c ∷ s) = if p == c then strip_prefix ps s else none

-- What stands before the suffix, if the text ends with it.
unfoldable pub strip_suffix : Text → Text → Option Text
unfolding strip_prefix
strip_suffix p s = Option.map reverse (strip_prefix (reverse p) (reverse s))

unfoldable pub text_eq : Text → Text → Bool
text_eq [] [] = true
text_eq [] (c ∷ t) = false
text_eq (c ∷ s) [] = false
text_eq (c ∷ s) (d ∷ t) = if c == d then text_eq s t else false

-- The UTF-8 encoding of one code point.
unfoldable pub encode_utf8 : ℕ → Bytes
encode_utf8 c =
    if ltb c 0x80
    then c ∷ []
    else (if ltb c 0x800
        then (0xC0 + c / 64) ∷ (0x80 + c % 64) ∷ []
        else (if ltb c 0x10000
            then (0xE0 + c / 4096) ∷ (0x80 + c / 64 % 64) ∷ (0x80 + c % 64) ∷ []
            else (0xF0 + c / 262144)
              ∷ (0x80 + c / 4096 % 64)
              ∷ (0x80 + c / 64 % 64)
              ∷ (0x80 + c % 64)
              ∷ []))

-- `str::as_bytes`
unfoldable pub as_bytes : Text → Bytes
unfolding encode_utf8
as_bytes [] = []
as_bytes (c ∷ s) = encode_utf8 c ++ as_bytes s

-- U+FFFD, which stands for each maximal ill-formed part.
abbrev pub replacement : ℕ
replacement = 0xFFFD

-- A sequence that has begun: the continuation bytes still wanted, the bits read, and the range of
-- the next byte.
pub data Utf8State : Type 0 where
  start : Utf8State
  inside : (need acc lo hi : ℕ) → Utf8State

abbrev in_range : ℕ → ℕ → ℕ → Bool
in_range lo hi b = leb lo b && leb b hi

-- A byte where a character may begin.
unfoldable pub lead : ℕ → Text × Utf8State
lead b =
    if ltb b 0x80
    then (b ∷ [], start)
    else (if in_range 0xC2 0xDF b
        then ([], inside 1 (b - 0xC0) 0x80 0xBF)
        else (if b == 0xE0
            then ([], inside 2 0 0xA0 0xBF)
            else (if b == 0xED
                then ([], inside 2 0xD 0x80 0x9F)
                else (if in_range 0xE1 0xEF b
                    then ([], inside 2 (b - 0xE0) 0x80 0xBF)
                    else (if b == 0xF0
                        then ([], inside 3 0 0x90 0xBF)
                        else (if in_range 0xF1 0xF3 b
                            then ([], inside 3 (b - 0xF0) 0x80 0xBF)
                            else (if b == 0xF4
                                then ([], inside 3 4 0x80 0x8F)
                                else (replacement ∷ [], start))))))))

-- One byte. A byte out of range ends the sequence with a replacement and is read anew.
unfoldable pub decode_step : Utf8State → ℕ → Text × Utf8State
unfolding lead
decode_step start b = lead b
decode_step (inside need acc lo hi) b =
    if in_range lo hi b
    then (if leb need 1
        then ((acc * 64 + (b - 0x80)) ∷ [], start)
        else ([], inside (need - 1) (acc * 64 + (b - 0x80)) 0x80 0xBF))
    else (let (out, st) = lead b in (replacement ∷ out, st))

unfoldable pub decode_from : Utf8State → Bytes → Text
unfolding decode_step
decode_from start [] = []
decode_from (inside need acc lo hi) [] = replacement ∷ []
decode_from st (b ∷ bs) = let (out, st') = decode_step st b in out ++ decode_from st' bs

-- `String::from_utf8_lossy`
unfoldable pub from_utf8_lossy : Bytes → Text
unfolding decode_from
from_utf8_lossy = decode_from start
