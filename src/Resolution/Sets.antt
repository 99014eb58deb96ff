-- ===== src/Resolution/Sets.antt =====
-- What a re-resolution is for: rotation over a set of addresses, with no order and no repeats. The
-- quotient forgets both; `apply_resolution` of src/main.rs implements it on sorted lists.
use mathlib.Core.Quot
use mathlib.Core.Quot.{Quot, Quot-set}
use wire_probe.Prelude.{◌≡◌, refl, sym, ap, ◌∙◌, ◌↔◌, Bool, true, false, List, ◌∷◌}
use wire_probe.Std.Net.{SocketAddr, addr_ord}
use wire_probe.Std.Sort.{contains}
use wire_probe.Std.Sort.Laws.{SameElements}
use wire_probe.Resolution.{Targets, apply_resolution}
use wire_probe.Resolution.Laws.{
  IsTargets, canonical, canonical-eq_iff, apply_resolution-SameElements, apply_resolution_vanished,
  list_changed_iff, moved_iff,
}
use wire_probe.Resolution.Successor.{IsSuccessor, apply_resolution-IsSuccessor}

-- A set of addresses: lists up to order and repeats.
abbrev pub AddrSet : Type 0
AddrSet = Quot (SameElements {A = SocketAddr})

pub bool_set : IsSet Bool
bool_set = hlevel

pub addrs_set : IsSet (List SocketAddr)
addrs_set = hlevel

abbrev pub member : SocketAddr → AddrSet → Bool
member a = Quot.lift bool_set (contains a) (λ xs ys h. h a)

-- The one list in canonical order of a set.
abbrev pub canonical_of : AddrSet → List SocketAddr
canonical_of = Quot.lift addrs_set canonical (λ xs ys h. (canonical-eq_iff xs ys).1 h)

pub record SetTargets : Type 0 where
  pub answers : AddrSet
  pub current : SocketAddr

abbrev pub view : Targets → SetTargets
view t = record { answers = Quot.mk t.addrs; current = t.current }

-- Rotation over sets: the answers are replaced, and the address in use moves to its successor among
-- them, or to the preferred one if it is not among them.
pub record Rotates (s : SetTargets) (fresh : AddrSet) (preferred : SocketAddr) (s' : SetTargets)
    : Type 0 where
  pub taken : s'.answers ≡ fresh
  pub successor :
      member s.current fresh ≡ true → IsSuccessor (λ c. member c fresh) s.current s'.current
  pub vanished : member s.current fresh ≡ false → s'.current ≡ preferred

-- With the order and the repeats of answers forgotten, a re-resolution of a canonical list with an
-- answer that is not empty takes the answer over as a set. It moves the address in use to its
-- successor in that set, the least address above it or else the least of all, and to the first of
-- the answer if it is not in the set. What is reported is false exactly where the set, and the
-- address, stay the same, and the new list is the canonical one of the set.
pub apply_resolution_refines :
    (t : Targets) (a : SocketAddr) (rest : List SocketAddr)
    → IsTargets t
    → let (t', r) = apply_resolution t (a ∷ rest) in
      Rotates (view t) (Quot.mk (a ∷ rest)) a (view t')
      × ((r.list_changed ≡ false) ↔ ((view t').answers ≡ (view t).answers))
      × ((r.moved ≡ false) ↔ ((view t').current ≡ (view t).current))
      × (t'.addrs ≡ canonical_of (Quot.mk (a ∷ rest)))
apply_resolution_refines t a rest v =
    let fresh = a ∷ rest in
    let held = apply_resolution-SameElements t fresh (λ e. cc) in
    let changed = list_changed_iff t fresh v (λ e. cc) in
    (
      record {
        taken = Quot.sound held;
        successor = apply_resolution-IsSuccessor t fresh;
        vanished = apply_resolution_vanished t a rest;
      },
      (
        λ e. Quot.sound (λ b. held b ∙ changed.0 e b),
        λ e. changed.1 (λ b. sym (held b) ∙ ap (member b) e),
      ),
      moved_iff t fresh,
      unfold apply_resolution in refl,
    )
