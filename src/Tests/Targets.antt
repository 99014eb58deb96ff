-- ===== src/Tests/Targets.antt =====
-- Three addresses: the tests of rotation and re-resolution.
use mathlib.Core.Option
use mathlib.Core.Quot
use wire_probe.Prelude.{arith, ◌≡◌, refl, ◌↔◌, true, false, List, [], ◌∷◌, some}
use wire_probe.Std.Net.{SocketAddr, addr_ord}
use wire_probe.Std.Sort.{sort_unstable, dedup, position, vec_eq, contains}
use wire_probe.Std.Sort.Laws.{SameElements}
use wire_probe.Resolution.{Targets, adopt, apply_resolution}
use wire_probe.Resolution.Laws.{IsTargets, apply_resolution-IsTargets, list_changed_iff}
use wire_probe.Resolution.Rounds.{visited}
use wire_probe.Resolution.Churn.{Keeps, visited_despite_churn}
use wire_probe.Resolution.Cycle.{visited_rotated}
use wire_probe.Resolution.Sets.{Rotates, view, canonical_of, apply_resolution_refines}
use wire_probe.Tests.Data.{addr_a, addr_b, addr_c}

abbrev three : List SocketAddr
three = addr_a ∷ addr_b ∷ addr_c ∷ []

abbrev at_b : Targets
at_b = record { addrs = three; current = addr_b }

at_b-IsTargets : IsTargets at_b
at_b-IsTargets = record { ascending = ((refl, (refl, tt)), ((refl, tt), (tt, tt))); listed = refl }

abbrev shuffled : List SocketAddr
shuffled = addr_c ∷ addr_a ∷ addr_b ∷ addr_a ∷ []

adopt-shuffled : adopt shuffled ≡ some (three, addr_c)
unfolding adopt dedup sort_unstable
adopt-shuffled = refl

apply_shuffled :
    apply_resolution at_b shuffled
    ≡ (record { addrs = three; current = addr_c }, record { moved = true; list_changed = false })
unfolding apply_resolution dedup Option.bind vec_eq sort_unstable position
apply_shuffled = refl

apply_gone : (apply_resolution at_b (addr_c ∷ addr_a ∷ [])).0.current ≡ addr_c
unfolding apply_resolution dedup Option.bind sort_unstable position
apply_gone = refl

shuffled-SameElements : SameElements shuffled three
shuffled-SameElements a = ground arith

visited_rotated_example :
    visited at_b (shuffled ∷ three ∷ shuffled ∷ []) ≡ addr_c ∷ addr_a ∷ addr_b ∷ []
visited_rotated_example =
    visited_rotated at_b (shuffled ∷ three ∷ shuffled ∷ []) (addr_a ∷ []) (addr_c ∷ [])
      at_b-IsTargets (shuffled-SameElements, ((λ a. refl), (shuffled-SameElements, tt))) refl refl

apply_resolution_refines_example :
    let (t', r) = apply_resolution at_b shuffled in
    Rotates (view at_b) (Quot.mk shuffled) addr_c (view t')
    × ((r.list_changed ≡ false) ↔ ((view t').answers ≡ (view at_b).answers))
    × ((r.moved ≡ false) ↔ ((view t').current ≡ (view at_b).current))
    × (t'.addrs ≡ canonical_of (Quot.mk shuffled))
apply_resolution_refines_example =
    apply_resolution_refines at_b addr_c (addr_a ∷ addr_b ∷ addr_a ∷ []) at_b-IsTargets

apply_resolution-IsTargets_example : IsTargets (apply_resolution at_b shuffled).0
apply_resolution-IsTargets_example = apply_resolution-IsTargets at_b shuffled at_b-IsTargets

list_changed_iff_example :
    ((apply_resolution at_b shuffled).1.list_changed ≡ false) ↔ SameElements shuffled three
list_changed_iff_example = list_changed_iff at_b shuffled at_b-IsTargets (λ e. cc)

-- The third answer lacks the second address, which is not in use when it comes.
abbrev churning : List (List SocketAddr)
churning = three ∷ (addr_a ∷ addr_c ∷ addr_b ∷ []) ∷ (addr_c ∷ addr_a ∷ []) ∷ []

churning-Keeps : Keeps addr_a three at_b churning
unfolding apply_resolution dedup Option.bind sort_unstable position
churning-Keeps = (
  refl,
  refl,
  (λ c h. h),
  (refl, refl, (λ c h. ground (arith, h)), (refl, refl, (λ c h. ground (arith, h)), tt)),
)

visited_despite_churn_example : contains addr_a (visited at_b churning) ≡ true
visited_despite_churn_example =
    visited_despite_churn addr_a three at_b churning refl churning-Keeps (omega arith)
