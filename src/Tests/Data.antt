-- ===== src/Tests/Data.antt =====
-- The inputs of the tests: two number formatters, an argument parser and some addresses.
pub mod Options
use wire_probe.Prelude.{
  ℕ, ◌/◌, ◌%◌, ◌^◌, ◌≡◌, ◌≢◌, false, List, [], ◌∷◌, Text, codes, Option, none, some, if◌then◌else◌,
  arith, All,
}
use wire_probe.Std.Net.{SocketAddr, v4}
use wire_probe.Std.Numbers.{decimal, u64_max}
use wire_probe.Std.Numbers.Laws.{IsDigit, decimal-IsDigit, decimal-length-le, parse_uint-decimal}
use wire_probe.Std.Strings.{text_eq}
use wire_probe.External.{Numerics, IsNumerics}
use wire_probe.Cli.Sanitize.{IsLabel}
use wire_probe.Cli.Types.{args_error, Result, ok, err}
use wire_probe.Cli.Parse.{Arguments}
use wire_probe.Cli.Parse.Limits.{Converts}

-- Whole numbers in the place of floats.
abbrev pub numerics : Numerics
numerics = record {
  F64 = ℕ;
  to_f64 = λ k. k;
  div = λ a b. a / b;
  ryu = λ x. decimal (x % 10 ^ 20);
  itoa = decimal;
}

digits_IsLabel : (s : Text) → All IsDigit s → IsLabel s
digits_IsLabel [] h = tt
digits_IsLabel (c ∷ s) h = (ground (arith, h.0), digits_IsLabel s h.1)

digits-ne-undefined : (s : Text) → All IsDigit s → s ≢ codes "U"
digits-ne-undefined [] h e = cc
digits-ne-undefined (c ∷ s) h e = ground (arith, h.0)

pub numerics-IsNumerics : IsNumerics numerics
numerics-IsNumerics = record {
  ryu-length-le = λ x. omega (arith, decimal-length-le (x % 10 ^ 20) 19 (omega arith));
  ryu-IsLabel = λ x. digits_IsLabel _ (decimal-IsDigit (x % 10 ^ 20));
  ryu-ne-undefined = λ x. digits-ne-undefined _ (decimal-IsDigit (x % 10 ^ 20));
  itoa-length-le = λ k h. decimal-length-le k 19 (omega arith);
  itoa-IsDigit = decimal-IsDigit;
  parse_uint-itoa = λ k h. parse_uint-decimal u64_max k h;
}

-- The option of a flag in a list of pairs, and the pairs without it.
unfoldable pub taken : Text → List (Text × Text) → Option Text × List (Text × Text)
unfolding text_eq
taken key [] = (none, [])
taken key ((k, v) ∷ s) =
    let rest = taken key s in if text_eq k key then (some v, s) else (rest.0, (k, v) ∷ rest.1)

abbrev converted : {T : Type 0} → (Text → Option T) → Option Text → Result (Option T)
converted from_str none = ok none
converted from_str (some v) = elim (from_str v) [ none ↦ err (args_error v) | some t ↦ ok (some t) ]

abbrev demanded : {T : Type 0} → Text → Result (Option T) → Result T
demanded key (ok (some t)) = ok t
demanded key (ok none) = err (args_error key)
demanded key (err e) = err e

-- What is left: an option is taken out only if its value is converted.
abbrev left_by : {T S : Type 0} → (Text → Option T) → Option Text × S → S → S
left_by from_str (none, rest) s = s
left_by from_str (some v, rest) s = elim (from_str v) [ none ↦ s | some t ↦ rest ]

abbrev keys_of : List (Text × Text) → List Text
keys_of [] = []
keys_of ((k, v) ∷ s) = k ∷ keys_of s

-- An argument parser over pairs of a key and a value, with no flags.
abbrev pub pairs : Arguments
pairs = record {
  S = List (Text × Text);
  contains = λ keys s. (false, s);
  opt_value_from_str =
      λ {T} from_str key s. (converted from_str (taken key s).0, left_by from_str (taken key s) s);
  value_from_str = λ {T} from_str key s.
      (demanded key (converted from_str (taken key s).0), left_by from_str (taken key s) s);
  finish = keys_of;
}

converted_from :
    {T : Type 0} (from_str : Text → Option T) (o : Option Text) (t : T)
    → converted from_str o ≡ ok (some t)
    → (w : Text) × (from_str w ≡ some t)
converted_from from_str none t h = ground arith
converted_from from_str (some v) t h = (v, ground arith)

pub pairs-Converts : Converts pairs
pairs-Converts T from_str key s t h = converted_from from_str (taken key s).0 t h

abbrev pub addr_a : SocketAddr
addr_a = v4 1 9999

abbrev pub addr_b : SocketAddr
addr_b = v4 2 9999

abbrev pub addr_c : SocketAddr
addr_c = v4 3 9999
