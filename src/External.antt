-- ===== src/External.antt =====
-- What the program takes from crates: `ryu` and `itoa`, and the `f64` values that `ryu` prints.
use wire_probe.Prelude.{ℕ, ◌≤◌, ◌≡◌, ◌≢◌, codes, Bytes, All, length}
use wire_probe.Std.Numbers.{u64_max, parse_uint, parsed}
use wire_probe.Std.Numbers.Laws.{IsDigit}
use wire_probe.Cli.Sanitize.{IsLabel}

-- `f64` with what the program does with it, and the two number formatters.
pub record Numerics : Type 1 where
  pub F64 : Type 0
  -- `as f64` and `f64::from`
  pub to_f64 : ℕ → F64
  pub div : F64 → F64 → F64
  -- `ryu::Buffer::format`
  pub ryu : F64 → Bytes
  -- `itoa::Buffer::format`
  pub itoa : ℕ → Bytes

-- What the two crates document: a float takes at most 24 bytes and is written with digits, letters,
-- `.` and `-`, and never as `U`; an integer is written with decimal digits that are its value.
pub record IsNumerics (n : Numerics) : Type 0 where
  pub ryu-length-le : (x : n.F64) → length (n.ryu x) ≤ 24
  pub ryu-IsLabel : (x : n.F64) → IsLabel (n.ryu x)
  pub ryu-ne-undefined : (x : n.F64) → n.ryu x ≢ codes "U"
  pub itoa-length-le : (k : ℕ) → k ≤ u64_max → length (n.itoa k) ≤ 20
  pub itoa-IsDigit : (k : ℕ) → All IsDigit (n.itoa k)
  pub parse_uint-itoa : (k : ℕ) → k ≤ u64_max → parse_uint u64_max (n.itoa k) ≡ parsed k
