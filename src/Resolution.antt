-- ===== src/Resolution.antt =====
-- The address list of the probe: `adopt` and `apply_resolution` of src/main.rs.
pub mod Laws
pub mod Successor
pub mod Sets
pub mod Rounds
pub mod Cycle
pub mod Churn
use mathlib.Core.Option
use wire_probe.Prelude.{
  ℕ, zero, suc, ◌+◌, Bool, false, not, Option, none, some, List, [], ◌∷◌, ◌++◌, map, get_elem?,
  Text, codes,
}
use wire_probe.Std.Net.{SocketAddr, addr_ord}
use wire_probe.Std.Order.{eqb}
use wire_probe.Std.Sort.{sort_unstable, dedup, position, vec_eq}

-- What a re-resolution did.
pub record Rotation : Type 0 where
  pub moved : Bool
  pub list_changed : Bool

-- The two places that a re-resolution writes through its `&mut` arguments.
pub record Targets : Type 0 where
  pub addrs : List SocketAddr
  pub current : SocketAddr

-- The canonical order and the resolver's own first choice.
unfoldable pub adopt : List SocketAddr → Option (List SocketAddr × SocketAddr)
adopt [] = none
adopt (a ∷ rest) = some (dedup (sort_unstable (a ∷ rest)), a)

-- `addrs.get(pos + 1).or_else(|| addrs.first())`
unfoldable pub next_or_first : List SocketAddr → ℕ → Option SocketAddr
next_or_first addrs pos = elim (get_elem? addrs (suc pos)) [
  | some a ↦ some a
  | none ↦ get_elem? addrs 0
]

-- The address to probe next, in the canonical order of a fresh answer.
unfoldable pub choose_next : List SocketAddr → SocketAddr → SocketAddr → SocketAddr
unfolding next_or_first
choose_next addrs preferred current =
    Option.get_or (Option.bind (position current addrs) (next_or_first addrs)) preferred

unfoldable pub apply_adopted : Targets → Option (List SocketAddr × SocketAddr) → Targets × Rotation
unfolding choose_next
apply_adopted t none = (t, record { moved = false; list_changed = false })
apply_adopted t (some (sorted, preferred)) =
    let next = choose_next sorted preferred t.current in
    (
      record { addrs = sorted; current = next },
      record { moved = not (eqb next t.current); list_changed = not (vec_eq sorted t.addrs) },
    )

-- Decides what to do with a fresh resolution.
unfoldable pub apply_resolution : Targets → List SocketAddr → Targets × Rotation
unfolding adopt apply_adopted
apply_resolution t fresh = apply_adopted t (adopt fresh)
