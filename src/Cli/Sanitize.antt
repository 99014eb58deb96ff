-- ===== src/Cli/Sanitize.antt =====
-- `sanitize` of src/cli.rs.
use wire_probe.Prelude.{
  ℕ, ◌≡◌, refl, ◌↔◌, Bool, true, ◌||◌, ◌&&◌, [], ◌∷◌, map, arith, leb, ◌==◌, if◌then◌else◌, Text,
  All, length, length-map,
}
use wire_probe.Std.Strings.Laws.{IsAscii}

-- `char::is_ascii_alphanumeric`
abbrev pub is_ascii_alphanumeric : ℕ → Bool
is_ascii_alphanumeric c =
    (leb b'0' c && leb c b'9') || ((leb b'A' c && leb c b'Z') || (leb b'a' c && leb c b'z'))

-- The test of the closure in `sanitize`.
abbrev pub is_safe : ℕ → Bool
is_safe c = is_ascii_alphanumeric c || ((c == b'-') || (c == b'.'))

unfoldable pub sanitize_char : ℕ → ℕ
sanitize_char c = if is_safe c then c else b'_'

unfoldable pub sanitize : Text → Text
unfolding sanitize_char
sanitize = map sanitize_char

-- The characters that neither line format gives a meaning: the letters and digits of ASCII, `-`, `.`
-- and `_`, by their codes.
abbrev pub is_label_char : ℕ → Bool
is_label_char c =
    (leb 48 c && leb c 57)
    || ((leb 65 c && leb c 90)
        || ((leb 97 c && leb c 122) || ((c == 45) || ((c == 46) || (c == 95)))))

abbrev pub IsLabelChar : ℕ → Type 0
IsLabelChar c = is_label_char c ≡ true

abbrev pub IsLabel : Text → Type 0
IsLabel = All IsLabelChar

sanitize_char-IsLabelChar : (c : ℕ) → IsLabelChar (sanitize_char c)
unfolding sanitize_char
sanitize_char-IsLabelChar c = ground arith

-- Whatever the text, what comes out is a label: only letters and digits of ASCII, `-`, `.` and `_`.
pub sanitize-IsLabel : (s : Text) → IsLabel (sanitize s)
unfolding sanitize
sanitize-IsLabel [] = tt
sanitize-IsLabel (c ∷ s) = (sanitize_char-IsLabelChar c, sanitize-IsLabel s)

-- A text is left as it is exactly when it is a label: when each of its characters is a letter or
-- digit of ASCII, `-`, `.` or `_`.
pub sanitize_fixed : (s : Text) → (sanitize s ≡ s) ↔ IsLabel s
unfolding sanitize
sanitize_fixed [] = (λ _. tt, λ _. refl)
sanitize_fixed (c ∷ s) = (
  λ e. (ground arith, (sanitize_fixed s).0 (ground arith)),
  λ h. ground (arith, h.0, (sanitize_fixed s).1 h.1),
)

-- One character for each, so that the length in characters is kept.
pub length-sanitize : (s : Text) → length (sanitize s) ≡ length s
unfolding sanitize
length-sanitize s = length-map s sanitize_char

pub IsLabel-IsAscii : (s : Text) → IsLabel s → IsAscii s
IsLabel-IsAscii [] h = tt
IsLabel-IsAscii (c ∷ s) h = (ground (arith, h.0), IsLabel-IsAscii s h.1)
