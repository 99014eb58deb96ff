-- ===== src/Std/Strings/Laws.antt =====
-- Inversion of the `str` methods, and ASCII under UTF-8.
use wire_probe.Prelude.{
  ℕ, ◌<◌, ◌≡◌, ◌≢◌, refl, sym, ap, ◌∙◌, ◌↔◌, true, none, some, [], ◌∷◌, ◌++◌, arith, Text, Bytes,
  All, Option-cases, inl, inr,
}
use mathlib.Core.List.{reverse, append_assoc, reverse-append, reverse-reverse}
use mathlib.Core.Option
use mathlib.Core.Option.{none-ne-some, some-injective}
use wire_probe.Std.Strings.{strip_prefix, strip_suffix, text_eq, as_bytes, from_utf8_lossy}

pub strip_prefix-append : (p s : Text) → strip_prefix p (p ++ s) ≡ some s
unfolding strip_prefix
strip_prefix-append [] s = refl
strip_prefix-append (c ∷ p) s = ground (arith, strip_prefix-append p s)

pub strip_prefix-eq-some : (p s r : Text) → strip_prefix p s ≡ some r → s ≡ p ++ r
unfolding strip_prefix
strip_prefix-eq-some [] s r h = cc
strip_prefix-eq-some (c ∷ p) [] r h = cc
strip_prefix-eq-some (c ∷ p) (d ∷ s) r h = ground (arith, strip_prefix-eq-some p s r)

pub strip_suffix-append : (p s : Text) → strip_suffix p (s ++ p) ≡ some s
unfolding strip_suffix
strip_suffix-append p s =
    rw (reverse-append s p, strip_prefix-append, Option.map) (ap some (reverse-reverse s))

pub strip_suffix-eq-some : (p s r : Text) → strip_suffix p s ≡ some r → s ≡ r ++ p
unfolding strip_suffix
strip_suffix-eq-some p s r h = elim (Option-cases (strip_prefix (reverse p) (reverse s))) [
  | inl e ↦ absurd (none-ne-some _ (rw (e, Option.map) at h))
  | inr (t, e) ↦
      let back : reverse t ≡ r = some-injective _ _ (rw (e, Option.map) at h) in
      sym (reverse-reverse s)
      ∙ ap reverse (strip_prefix-eq-some (reverse p) (reverse s) t e)
      ∙ rw (reverse-append, reverse-reverse, back)
]

-- A last character that both texts have does not matter.
pub strip_suffix-snoc :
    (p s : Text) (c : ℕ) → strip_suffix (p ++ (c ∷ [])) (s ++ (c ∷ [])) ≡ strip_suffix p s
unfolding strip_suffix
strip_suffix-snoc p s c = rw (reverse-append p (c ∷ []), reverse-append s (c ∷ [])) (ground arith)

All-last {ℓ} : (P : ℕ → Type ℓ) (s : Text) (c : ℕ) → All P (s ++ (c ∷ [])) → P c
All-last P [] c h = h.0
All-last P (d ∷ s) c h = All-last P s c h.1

-- A suffix is not found where no character is its last.
pub strip_suffix_absent :
    (p : Text) (c : ℕ) (s : Text) → All (λ d. d ≢ c) s → strip_suffix (p ++ (c ∷ [])) s ≡ none
strip_suffix_absent p c s h = elim (Option-cases (strip_suffix (p ++ (c ∷ [])) s)) [
  | inl e ↦ e
  | inr (r, e) ↦
      let whole = strip_suffix-eq-some (p ++ (c ∷ [])) s r e ∙ sym (append_assoc r p (c ∷ [])) in
      absurd (All-last (λ d. d ≢ c) (r ++ p) c (rw whole at h) refl)
]

pub text_eq_iff : (s t : Text) → (text_eq s t ≡ true) ↔ (s ≡ t)
unfolding text_eq
text_eq_iff [] [] = ground arith
text_eq_iff [] (d ∷ t) = ground arith
text_eq_iff (c ∷ s) [] = ground arith
text_eq_iff (c ∷ s) (d ∷ t) = ground (arith, text_eq_iff s t)

abbrev pub IsAscii : Text → Type 0
IsAscii = All (λ c. c < 128)

pub as_bytes-ascii : (s : Text) → IsAscii s → as_bytes s ≡ s
unfolding as_bytes
as_bytes-ascii [] h = refl
as_bytes-ascii (c ∷ s) h = rw (as_bytes-ascii s h.1) (ground (arith, h.0))

pub from_utf8_lossy-ascii : (b : Bytes) → IsAscii b → from_utf8_lossy b ≡ b
unfolding from_utf8_lossy
from_utf8_lossy-ascii [] h = refl
from_utf8_lossy-ascii (c ∷ b) h = ground (arith, from_utf8_lossy-ascii b h.1, h.0)
