-- ===== src/Exporter/Scan.antt =====
-- How a consumer reads a line apart: fields up to a separator, and fixed words.
use wire_probe.Prelude.{
  ℕ, ◌≡◌, ◌≢◌, [], ◌∷◌, ◌++◌, Bytes, All, Option, none, some, arith, ◌==◌, if◌then◌else◌, ◌<◌, ◌⊎◌,
}
use mathlib.Core.Option
use wire_probe.Std.Numbers.Laws.{IsDigit}
use wire_probe.Cli.Sanitize.{IsLabel, IsLabelChar}

abbrev prepend : ℕ → Bytes × Bytes → Bytes × Bytes
prepend c (s, rest) = (c ∷ s, rest)

-- What stands before the first separator, and what stands behind it.
unfoldable pub until : ℕ → Bytes → Option (Bytes × Bytes)
until sep [] = none
until sep (c ∷ s) = if c == sep then some ([], s) else Option.map (prepend c) (until sep s)

abbrev pub Lacks : ℕ → Bytes → Type 0
Lacks sep = All (λ c. c ≢ sep)

pub until-append :
    (sep : ℕ) (s rest : Bytes) → Lacks sep s → until sep (s ++ (sep ∷ rest)) ≡ some (s, rest)
unfolding until
until-append sep [] rest h = ground arith
until-append sep (c ∷ s) rest h = ground (arith, until-append sep s rest h.1, h.0)

-- A label holds no character that is none of its own.
pub IsLabel-Lacks : (sep : ℕ) (s : Bytes) → ¬ IsLabelChar sep → IsLabel s → Lacks sep s
IsLabel-Lacks sep [] h all = tt
IsLabel-Lacks sep (c ∷ s) h all = (λ e. h (rw (← e) all.0), IsLabel-Lacks sep s h all.1)

pub IsDigit-Lacks : (sep : ℕ) (s : Bytes) → 57 < sep ⊎ sep < 48 → All IsDigit s → Lacks sep s
IsDigit-Lacks sep [] h all = tt
IsDigit-Lacks sep (c ∷ s) h all = (ground (arith, all.0), IsDigit-Lacks sep s h all.1)
