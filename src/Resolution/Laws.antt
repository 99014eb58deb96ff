-- ===== src/Resolution/Laws.antt =====
-- One re-resolution: what `adopt` and `apply_resolution` of src/main.rs promise.
use mathlib.Core.Option
use mathlib.Core.Option.{none-ne-some, some-injective}
use wire_probe.Prelude.{
  ℕ, suc, ◌<◌, ◌≡◌, refl, sym, ap, ◌∙◌, ◌≢◌, ◌↔◌, inl, inr, Bool, true, false, not, some, List, [],
  ◌∷◌, arith, length, get_elem?, Bool-cases, Option-cases, if◌then◌else◌, ltb, ltb→lt,
}
use wire_probe.Std.Net.{SocketAddr, addr_ord}
use wire_probe.Std.Order.{eqb_iff, cmp_refl}
use wire_probe.Std.Sort.{sort_unstable, dedup, position, contains}
use wire_probe.Std.Sort.Laws.{
  IsAscending, SameElements, IsAscending-ext, contains-dedup, contains-sort_unstable,
  dedup-IsAscending, sort_unstable-IsSorted,
}
use wire_probe.Std.Sort.Position.{
  get_elem?-some, get_elem?-lt, vec_eq_iff, position_found, position_of_contains,
  position_of_absent, contains_get_elem?,
}
use wire_probe.Resolution.{Targets, next_or_first, choose_next, apply_adopted, apply_resolution}

-- The invariant of the probe loop: the list is in canonical order without repeats, and the address
-- in use is one of it.
pub record IsTargets (t : Targets) : Type 0 where
  pub ascending : IsAscending t.addrs
  pub listed : contains t.current t.addrs ≡ true

-- The canonical order of an answer.
abbrev pub canonical : List SocketAddr → List SocketAddr
canonical fresh = dedup (sort_unstable fresh)

pub canonical-IsAscending : (fresh : List SocketAddr) → IsAscending (canonical fresh)
canonical-IsAscending fresh = dedup-IsAscending _ (sort_unstable-IsSorted fresh)

pub canonical-SameElements : (fresh : List SocketAddr) → SameElements (canonical fresh) fresh
canonical-SameElements fresh a = contains-dedup a _ ∙ contains-sort_unstable a fresh

-- Two answers have one canonical order exactly when they hold the same addresses.
pub canonical-eq_iff : (f g : List SocketAddr) → (canonical f ≡ canonical g) ↔ SameElements f g
canonical-eq_iff f g = (
  λ e a. sym (canonical-SameElements f a) ∙ ap (contains a) e ∙ canonical-SameElements g a,
  λ same.
      IsAscending-ext _ _ (canonical-IsAscending f) (canonical-IsAscending g)
        (λ a. canonical-SameElements f a ∙ same a ∙ sym (canonical-SameElements g a)),
)

-- The place after `i` in a cycle of `n`.
abbrev pub cyclic_next : (n i : ℕ) → ℕ
cyclic_next n i = if ltb (suc i) n then suc i else 0

next_or_first-cyclic :
    (addrs : List SocketAddr) (i : ℕ)
    → i < length addrs
    → next_or_first addrs i ≡ get_elem? addrs (cyclic_next (length addrs) i)
unfolding next_or_first
next_or_first-cyclic addrs i h = elim (Bool-cases (ltb (suc i) (length addrs))) [
  | inl e ↦
      let found = get_elem?-some addrs (suc i) (ltb→lt _ _ e) in rw e (ground (arith, found.1))
  | inr e ↦ elim (Option-cases (get_elem? addrs (suc i))) [
    | inl n ↦ rw e (ground arith)
    | inr (b, n) ↦ absurd (ground (arith, get_elem?-lt addrs (suc i) n))
  ]
]

-- An address in use that is still listed is followed by the next of the cycle.
pub choose_next_cyclic :
    (addrs : List SocketAddr) (preferred current : SocketAddr) (i : ℕ)
    → position current addrs ≡ some i
    → get_elem? addrs (cyclic_next (length addrs) i) ≡ some (choose_next addrs preferred current)
unfolding choose_next Option.bind
choose_next_cyclic addrs preferred current i p =
    let here = get_elem?-lt addrs i (position_found current addrs i p) in
    let bound : cyclic_next (length addrs) i < length addrs = ground arith in
    let next = get_elem?-some addrs _ bound in
    rw (p, next_or_first-cyclic addrs i here, next.1) refl

-- An address in use that is gone is replaced by the resolver's first choice.
pub choose_next_absent :
    (addrs : List SocketAddr) (preferred current : SocketAddr)
    → contains current addrs ≡ false
    → choose_next addrs preferred current ≡ preferred
unfolding choose_next Option.bind
choose_next_absent addrs preferred current h = rw (position_of_absent current addrs h)

choose_next-listed :
    (addrs : List SocketAddr) (preferred current : SocketAddr)
    → contains preferred addrs ≡ true
    → contains (choose_next addrs preferred current) addrs ≡ true
choose_next-listed addrs preferred current h = elim (Bool-cases (contains current addrs)) [
  | inl e ↦
      let (i, p) = position_of_contains current addrs e in
      contains_get_elem? addrs _ (choose_next_cyclic addrs preferred current i p)
  | inr e ↦ rw (choose_next_absent addrs preferred current e) h
]

-- A fresh answer that is not empty, as its canonical order and its first address.
apply_resolution-cons :
    (t : Targets) (a : SocketAddr) (rest : List SocketAddr)
    → apply_resolution t (a ∷ rest) ≡ apply_adopted t (some (canonical (a ∷ rest), a))
unfolding apply_resolution
apply_resolution-cons t a rest = refl

first-listed : (a : SocketAddr) (rest : List SocketAddr) → contains a (canonical (a ∷ rest)) ≡ true
first-listed a rest = rw canonical-SameElements (ground (arith, cmp_refl a))

-- What the first resolution adopts.
pub adopted-IsTargets :
    (a : SocketAddr) (rest : List SocketAddr)
    → IsTargets (record { addrs = canonical (a ∷ rest); current = a })
adopted-IsTargets a rest = record {
  ascending = canonical-IsAscending (a ∷ rest);
  listed = first-listed a rest;
}

-- Every re-resolution, an empty one included, keeps the list canonical and the address in use on
-- it.
pub apply_resolution-IsTargets :
    (t : Targets) (fresh : List SocketAddr) → IsTargets t → IsTargets (apply_resolution t fresh).0
unfolding apply_resolution
apply_resolution-IsTargets t [] v = v
apply_resolution-IsTargets t (a ∷ rest) v = record {
  ascending = canonical-IsAscending (a ∷ rest);
  listed = choose_next-listed _ a t.current (first-listed a rest);
}

-- An answer that is not empty is taken over whole: the list then holds exactly its addresses.
pub apply_resolution-SameElements :
    (t : Targets) (fresh : List SocketAddr)
    → fresh ≢ []
    → SameElements (apply_resolution t fresh).0.addrs fresh
unfolding apply_resolution
apply_resolution-SameElements t [] h = absurd (h refl)
apply_resolution-SameElements t (a ∷ rest) h = canonical-SameElements (a ∷ rest)

not-false_iff : (b : Bool) → (not b ≡ false) ↔ (b ≡ true)
not-false_iff b = ground arith

-- From a canonical list and an answer that is not empty, `list_changed` is false exactly when the
-- answer holds the addresses of the old list, in any order and with any repeats.
pub list_changed_iff :
    (t : Targets) (fresh : List SocketAddr)
    → IsTargets t
    → fresh ≢ []
    → ((apply_resolution t fresh).1.list_changed ≡ false) ↔ SameElements fresh t.addrs
unfolding apply_resolution
list_changed_iff t [] v h = absurd (h refl)
list_changed_iff t (a ∷ rest) v h = (
  λ e b.
      sym (canonical-SameElements (a ∷ rest) b)
      ∙ ap (contains b) ((vec_eq_iff _ _).0 ((not-false_iff _).0 e)),
  λ same. (not-false_iff _).1 (
      (vec_eq_iff _ _).1 (
        IsAscending-ext _ _ (canonical-IsAscending (a ∷ rest)) v.ascending
          (λ b. canonical-SameElements (a ∷ rest) b ∙ same b))),
)

-- `moved` says whether the address in use is another one than before.
pub moved_iff :
    (t : Targets) (fresh : List SocketAddr)
    → let r = apply_resolution t fresh in (r.1.moved ≡ false) ↔ (r.0.current ≡ t.current)
unfolding apply_resolution
moved_iff t [] = (λ _. refl, λ _. refl)
moved_iff t (a ∷ rest) =
    (λ e. (eqb_iff _ _).0 ((not-false_iff _).0 e), λ e. (not-false_iff _).1 ((eqb_iff _ _).1 e))

-- An address in use that the answer no longer holds is replaced by the first of the answer.
pub apply_resolution_vanished :
    (t : Targets) (a : SocketAddr) (rest : List SocketAddr)
    → contains t.current (a ∷ rest) ≡ false
    → (apply_resolution t (a ∷ rest)).0.current ≡ a
unfolding apply_resolution
apply_resolution_vanished t a rest h =
    choose_next_absent _ a t.current (canonical-SameElements (a ∷ rest) t.current ∙ h)
