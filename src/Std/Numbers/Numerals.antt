-- ===== src/Std/Numbers/Numerals.antt =====
-- The texts that are read as unsigned integers, described by digits and their value.
use wire_probe.Prelude.{
  true, List-cases, ℕ, ◌+◌, ◌*◌, ◌-◌, ◌≤◌, ◌≡◌, ◌≢◌, ◌⊎◌, inl, inr, refl, ◌∙◌, ◌↔◌, [], ◌∷◌, arith,
  Text, All, Bool-cases, ◌==◌, leb,
}
use wire_probe.Std.Numbers.{parsed, parse_digits, parse_uint, is_digit}
use wire_probe.Std.Numbers.Laws.{IsDigit, parse_uint-parse_digits}

-- The value of digits behind those of `acc`.
abbrev pub value : (acc : ℕ) → Text → ℕ
value acc [] = acc
value acc (c ∷ s) = value (acc * 10 + (c - b'0')) s

-- A numeral: digits, at least one, behind one `+` or none, whose value fits.
pub record IsNumeral (max : ℕ) (s : Text) (k : ℕ) : Type 0 where
  pub digits : Text
  pub signed : (s ≡ digits) ⊎ (s ≡ b'+' ∷ digits)
  pub written : digits ≢ []
  pub decimal : All IsDigit digits
  pub valued : value 0 digits ≡ k
  pub fits : k ≤ max

value-le : (acc : ℕ) (s : Text) → acc ≤ value acc s
value-le acc [] = omega arith
value-le acc (c ∷ s) = omega (arith, value-le (acc * 10 + (c - 48)) s)

parse_digits-value :
    (max acc k : ℕ) (s : Text)
    → acc ≤ max
    → parse_digits max acc s ≡ parsed k
    → All IsDigit s × (value acc s ≡ k) × (k ≤ max)
unfolding parse_digits
parse_digits-value max acc k [] h e = ground arith
parse_digits-value max acc k (c ∷ s) h e =
    let v = acc * 10 + (c - 48) in
    let digit : is_digit c ≡ true = ground arith in
    let small : leb v max ≡ true = ground arith in
    let fits : v ≤ max = ground arith in
    let ih = parse_digits-value max v k s fits (rw (digit, small) at e) in
    ((ground (arith, digit), ih.0), ih.1, ih.2)

value-parse_digits :
    (max acc k : ℕ) (s : Text)
    → All IsDigit s
    → value acc s ≡ k
    → k ≤ max
    → parse_digits max acc s ≡ parsed k
unfolding parse_digits
value-parse_digits max acc k [] d e h = ground arith
value-parse_digits max acc k (c ∷ s) d e h =
    let v = acc * 10 + (c - 48) in
    let ih = value-parse_digits max v k s d.1 e h in ground (arith, ih, value-le v s, d.0)

digits-IsNumeral :
    (max k c : ℕ) (s whole : Text)
    → (whole ≡ c ∷ s) ⊎ (whole ≡ b'+' ∷ c ∷ s)
    → parse_digits max 0 (c ∷ s) ≡ parsed k
    → IsNumeral max whole k
digits-IsNumeral max k c s whole is e =
    let v = parse_digits-value max 0 k (c ∷ s) (omega arith) e in
    record {
      digits = c ∷ s;
      signed = is;
      written = λ h. cc;
      decimal = v.0;
      valued = v.1;
      fits = v.2;
    }

parse_uint-IsNumeral : (max k : ℕ) (s : Text) → parse_uint max s ≡ parsed k → IsNumeral max s k
unfolding parse_uint
parse_uint-IsNumeral max k [] h = cc
parse_uint-IsNumeral max k (c ∷ []) h = digits-IsNumeral max k c [] (c ∷ []) (inl refl) h
parse_uint-IsNumeral max k (c ∷ d ∷ s) h = elim (Bool-cases (c == b'+')) [
  | inl e ↦
      let plus : c ≡ b'+' = ground arith in
      digits-IsNumeral max k d s (c ∷ d ∷ s) (inr (rw plus refl)) (rw e at h)
  | inr e ↦ digits-IsNumeral max k c (d ∷ s) (c ∷ d ∷ s) (inl refl) (rw e at h)
]

IsNumeral-parse_uint : (max k : ℕ) (s : Text) → IsNumeral max s k → parse_uint max s ≡ parsed k
unfolding parse_uint
IsNumeral-parse_uint max k s v =
    let read = value-parse_digits max 0 k v.digits v.decimal v.valued v.fits in
    elim v.signed [
      | inl e ↦ rw e (parse_uint-parse_digits max v.digits v.decimal v.written ∙ read)
      | inr e ↦ elim (List-cases v.digits) [
        | inl none_left ↦ absurd (v.written none_left)
        | inr (d, ds, some_left) ↦ rw (e, some_left) (rw some_left at read)
      ]
    ]

-- A text is read as a number exactly if it is a numeral of it.
pub parse_uint_iff : (max k : ℕ) (s : Text) → (parse_uint max s ≡ parsed k) ↔ IsNumeral max s k
parse_uint_iff max k s = (parse_uint-IsNumeral max k s, IsNumeral-parse_uint max k s)
