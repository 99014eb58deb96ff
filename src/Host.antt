-- ===== src/Host.antt =====
-- `hostname` of src/main.rs, over the buffer that `gethostname` leaves.
use mathlib.Core.Option
use wire_probe.Prelude.{
  ℕ, suc, ◌≡◌, ◌≢◌, ◌≤◌, ◌*◌, refl, ap, ◌∙◌, [], ◌∷◌, ◌++◌, Bytes, Text, All, length, length-append,
  take, Option, none, some, arith, if◌then◌else◌, leb, ◌==◌,
}
use wire_probe.Std.Strings.{from_utf8_lossy}
use wire_probe.Std.Strings.Laws.{IsAscii, from_utf8_lossy-ascii}
use wire_probe.Std.Strings.Sizes.{from_utf8_lossy-length, length-from_utf8_lossy}
use wire_probe.Cli.Sanitize.{sanitize, IsLabel, sanitize-IsLabel, length-sanitize}

-- `buf.iter().position(|&b| b == 0)`
unfoldable pub zero_position : Bytes → Option ℕ
zero_position [] = none
zero_position (b ∷ buf) = if b == 0 then some 0 else Option.map suc (zero_position buf)

-- `buf.get(..end)`
abbrev get_to : Bytes → ℕ → Option Bytes
get_to buf end = if leb end (length buf) then some (take end buf) else none

unfoldable pub hostname : Bytes → Text
unfolding zero_position
hostname buf =
    let end = Option.get_or (zero_position buf) (length buf) in
    sanitize (from_utf8_lossy (Option.get_or (get_to buf end) buf))

zero_position-append :
    (name rest : Bytes)
    → All (λ b. b ≢ 0) name
    → zero_position (name ++ (0 ∷ rest)) ≡ some (length name)
unfolding zero_position
zero_position-append [] rest h = refl
zero_position-append (b ∷ name) rest h = ground (arith, h.0, zero_position-append name rest h.1)

take-name : (name rest : Bytes) → take (length name) (name ++ rest) ≡ name
take-name [] rest = refl
take-name (b ∷ name) rest = ap (λ s. b ∷ s) (take-name name rest)

take-full : (name : Bytes) → take (length name) name ≡ name
take-full [] = refl
take-full (b ∷ name) = ap (λ s. b ∷ s) (take-full name)

-- Whatever the buffer holds, the host name is a label.
pub hostname-IsLabel : (buf : Bytes) → IsLabel (hostname buf)
unfolding hostname
hostname-IsLabel buf = sanitize-IsLabel _

zero_position-none : (name : Bytes) → All (λ b. b ≢ 0) name → zero_position name ≡ none
unfolding zero_position
zero_position-none [] h = refl
zero_position-none (b ∷ name) h = ground (arith, h.0, zero_position-none name h.1)

hostname-zero :
    (name rest : Bytes)
    → All (λ b. b ≢ 0) name
    → hostname (name ++ (0 ∷ rest)) ≡ sanitize (from_utf8_lossy name)
unfolding hostname
hostname-zero name rest nonzero = ground (
  arith,
  zero_position-append name rest nonzero,
  take-name name (0 ∷ rest),
  length-append name (0 ∷ rest),
)

hostname-full :
    (name : Bytes) → All (λ b. b ≢ 0) name → hostname name ≡ sanitize (from_utf8_lossy name)
unfolding hostname
hostname-full name nonzero = ground (arith, zero_position-none name nonzero, take-full name)

-- A name in ASCII that ends at the first zero of the buffer is taken whole and sanitized, and what
-- stands behind the zero is not read.
pub hostname_lem :
    (name rest : Bytes)
    → IsAscii name
    → All (λ b. b ≢ 0) name
    → hostname (name ++ (0 ∷ rest)) ≡ sanitize name
hostname_lem name rest ascii nonzero =
    hostname-zero name rest nonzero ∙ ap sanitize (from_utf8_lossy-ascii name ascii)

sanitized-length :
    (name : Bytes)
    → (length (sanitize (from_utf8_lossy name)) ≤ length name)
      × (length name ≤ 4 * length (sanitize (from_utf8_lossy name)))
sanitized-length name = ground (
  arith,
  length-sanitize (from_utf8_lossy name),
  from_utf8_lossy-length name,
  length-from_utf8_lossy name,
)

-- The host name has at most as many characters as there are bytes in front of the first zero of the
-- buffer, and at least a quarter as many. In a buffer without a zero the same holds of all its
-- bytes.
pub length-hostname :
    (name rest : Bytes)
    → All (λ b. b ≢ 0) name
    → (length (hostname (name ++ (0 ∷ rest))) ≤ length name)
      × (length name ≤ 4 * length (hostname (name ++ (0 ∷ rest))))
      × (length (hostname name) ≤ length name)
      × (length name ≤ 4 * length (hostname name))
length-hostname name rest nonzero =
    let (most, least) = sanitized-length name in
    rw (hostname-zero name rest nonzero, hostname-full name nonzero) (most, least, most, least)
