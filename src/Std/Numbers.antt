-- ===== src/Std/Numbers.antt =====
-- `str::parse` for unsigned integers, and the decimal digits that `Display` writes.
pub mod Laws
pub mod Numerals
use wire_probe.Prelude.{
  ℕ, zero, suc, ◌+◌, ◌-◌, ◌*◌, ◌/◌, ◌%◌, ◌^◌, Bool, ◌&&◌, List, [], ◌∷◌, ◌++◌, ltb, leb, ◌==◌,
  if◌then◌else◌, Text,
}

-- `std::num::IntErrorKind`
pub data IntError : Type 0 where
  empty invalid_digit pos_overflow : IntError

pub data Parsed : Type 0 where
  parsed : ℕ → Parsed
  failed : IntError → Parsed

abbrev pub u16_max : ℕ
u16_max = 0xFFFF

abbrev pub u32_max : ℕ
u32_max = 0xFFFF_FFFF

abbrev pub u64_max : ℕ
u64_max = 0xFFFF_FFFF_FFFF_FFFF

abbrev pub is_digit : ℕ → Bool
is_digit c = leb b'0' c && leb c b'9'

-- The loop over the digits, with its checked multiplication and addition.
unfoldable pub parse_digits : (max acc : ℕ) → Text → Parsed
parse_digits max acc [] = parsed acc
parse_digits max acc (c ∷ s) =
    let value = acc * 10 + (c - b'0') in
    if is_digit c
    then (if leb value max then parse_digits max value s else failed pos_overflow)
    else failed invalid_digit

-- `s.parse()` into an unsigned integer with greatest value `max`. One leading `+` is skipped, but a
-- lone sign is refused.
unfoldable pub parse_uint : (max : ℕ) → Text → Parsed
unfolding parse_digits
parse_uint max [] = failed empty
parse_uint max (c ∷ []) = parse_digits max 0 (c ∷ [])
parse_uint max (c ∷ d ∷ s) =
    if c == b'+' then parse_digits max 0 (d ∷ s) else parse_digits max 0 (c ∷ d ∷ s)

digits : (fuel n : ℕ) → Text
digits zero n = []
digits (suc f) n =
    let rest = digits f (n / 10) in
    if ltb n 10 then (b'0' + n) ∷ [] else rest ++ ((b'0' + n % 10) ∷ [])

-- The decimal text of a number, with no sign and no leading zero.
unfoldable pub decimal : ℕ → Text
unfolding digits
decimal n = digits (suc n) n
