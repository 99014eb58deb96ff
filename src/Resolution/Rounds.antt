-- ===== src/Resolution/Rounds.antt =====
-- Rotation over several re-resolutions (`rotate_target` of src/main.rs, called once for each run of
-- failures) while the resolver shuffles one set of answers.
use mathlib.Core.Path.{subst}
use wire_probe.Prelude.{
  ℕ, zero, suc, ◌+◌, ◌-◌, ◌<◌, ◌≤◌, ◌≡◌, refl, sym, ap, ◌∙◌, ◌≢◌, inl, inr, Bool, true, false, some,
  List, [], ◌∷◌, arith, length, get_elem?, All, ltb, Bool-cases, if◌then◌else◌,
}
use wire_probe.Std.Net.{SocketAddr, addr_ord}
use wire_probe.Std.Sort.{contains}
use wire_probe.Std.Sort.Laws.{SameElements}
use wire_probe.Std.Sort.Position.{
  get_elem?-lt, position_found, position_of_contains, contains_get_elem?, position-get_elem?,
}
use wire_probe.Resolution.{Targets, apply_resolution}
use wire_probe.Resolution.Laws.{
  IsTargets, canonical, canonical-IsAscending, canonical-SameElements, cyclic_next,
  choose_next_cyclic, apply_resolution-IsTargets, apply_resolution-SameElements,
}
use wire_probe.Std.Sort.Laws.{IsAscending-ext}

-- The addresses in use after each of a sequence of answers.
unfoldable pub visited : Targets → List (List SocketAddr) → List SocketAddr
visited t [] = []
visited t (fresh ∷ later) = let t' = (apply_resolution t fresh).0 in t'.current ∷ visited t' later

same-ne-nil :
    (t : Targets) (fresh : List SocketAddr) → IsTargets t → SameElements fresh t.addrs → fresh ≢ []
same-ne-nil t fresh v same h = ground (arith, same t.current)

-- A shuffled answer leaves the list as it is.
shuffle-addrs :
    (t : Targets) (fresh : List SocketAddr)
    → IsTargets t
    → SameElements fresh t.addrs
    → (apply_resolution t fresh).0.addrs ≡ t.addrs
shuffle-addrs t fresh v same =
    let w = apply_resolution-IsTargets t fresh v in
    let taken = apply_resolution-SameElements t fresh (same-ne-nil t fresh v same) in
    IsAscending-ext _ _ w.ascending v.ascending (λ a. taken a ∙ same a)

-- A shuffled answer moves the probe to the next place of the cycle.
shuffle-current :
    (t : Targets) (fresh : List SocketAddr) (i : ℕ)
    → IsTargets t
    → SameElements fresh t.addrs
    → get_elem? t.addrs i ≡ some t.current
    → get_elem? t.addrs (cyclic_next (length t.addrs) i) ≡ some (apply_resolution t fresh).0.current
unfolding apply_resolution
shuffle-current t [] i v same h = absurd (same-ne-nil t [] v same refl)
shuffle-current t (a ∷ rest) i v same h =
    let e : canonical (a ∷ rest) ≡ t.addrs =
      IsAscending-ext _ _ (canonical-IsAscending _) v.ascending
        (λ b. canonical-SameElements (a ∷ rest) b ∙ same b) in
    let next =
      choose_next_cyclic t.addrs a t.current i (position-get_elem? t.addrs i v.ascending h) in
    next ∙ rw e

-- The place after `k` rounds, for at most `n` of them.
abbrev pub place : (n i k : ℕ) → ℕ
place n i k = if ltb (i + k) n then i + k else i + k - n

place-cyclic_next :
    (n i m : ℕ)
    → i < n
    → suc (suc m) ≤ n
    → place n (cyclic_next n i) (suc m) ≡ place n i (suc (suc m))
place-cyclic_next n i m h k = ground arith

module _ (addrs : List SocketAddr) where
  -- All answers hold the addresses of the list.
  abbrev pub Shuffles : List (List SocketAddr) → Type 0
  Shuffles = All (λ fresh. SameElements fresh addrs)

  next_current :
      (t : Targets) (fresh : List SocketAddr) (i : ℕ)
      → IsTargets t
      → t.addrs ≡ addrs
      → SameElements fresh addrs
      → get_elem? addrs i ≡ some t.current
      → get_elem? addrs (cyclic_next (length addrs) i) ≡ some (apply_resolution t fresh).0.current
  next_current t fresh i v e same h =
      subst
        (λ l. get_elem? l (cyclic_next (length l) i) ≡ some (apply_resolution t fresh).0.current) e
        (shuffle-current t fresh i v (rw e same) (rw e h))

  pub visited-place :
      (t : Targets) (fs : List (List SocketAddr)) (i m : ℕ)
      → IsTargets t
      → t.addrs ≡ addrs
      → Shuffles fs
      → get_elem? addrs i ≡ some t.current
      → m < length fs
      → length fs ≤ length addrs
      → get_elem? (visited t fs) m ≡ get_elem? addrs (place (length addrs) i (suc m))
  unfolding visited
  visited-place t [] i m v e all h less bound = absurd (omega arith)
  visited-place t (fresh ∷ fs) i zero v e all h less bound =
      let next = next_current t fresh i v e all.0 h in
      let small = get_elem?-lt addrs i h in sym next ∙ ap (get_elem? addrs) (ground arith)
  visited-place t (fresh ∷ fs) i (suc m) v e all h less bound =
      let next = next_current t fresh i v e all.0 h in
      let same = shuffle-addrs t fresh v (rw e all.0) in
      visited-place (apply_resolution t fresh).0 fs (cyclic_next (length addrs) i) m
        (apply_resolution-IsTargets t fresh v) (same ∙ e) all.1 next (omega arith) (omega arith)
      ∙ ap (get_elem? addrs)
          (place-cyclic_next (length addrs) i m (get_elem?-lt addrs i h) (omega arith))

pub length-visited : (t : Targets) (fs : List (List SocketAddr)) → length (visited t fs) ≡ length fs
unfolding visited
length-visited t [] = refl
length-visited t (fresh ∷ fs) = ap suc (length-visited (apply_resolution t fresh).0 fs)

bool_ext : (b c : Bool) → (b ≡ true → c ≡ true) → (c ≡ true → b ≡ true) → b ≡ c
bool_ext true c f g = sym (f refl)
bool_ext false c f g = elim (Bool-cases c) [ inl e ↦ cc (g e) | inr e ↦ sym e ]

-- The round, counted from zero, in which the address at place `j` is in use.
abbrev round_of : (n i j : ℕ) → ℕ
round_of n i j = if ltb i j then j - i - 1 else n + j - i - 1

round_of-place :
    (n i j : ℕ) → i < n → j < n → (round_of n i j < n) × (place n i (suc (round_of n i j)) ≡ j)
round_of-place n i j h k = ground arith

module _ (t : Targets) (fs : List (List SocketAddr)) (v : IsTargets t) (all : Shuffles t.addrs fs)
    (full : length fs ≡ length t.addrs) where
  start_place : (i : ℕ) × (get_elem? t.addrs i ≡ some t.current)
  start_place =
      let (i, p) = position_of_contains t.current t.addrs v.listed in
      (i, position_found t.current t.addrs i p)

  visited_at :
      (m : ℕ)
      → m < length t.addrs
      → get_elem? (visited t fs) m
        ≡ get_elem? t.addrs (place (length t.addrs) start_place.0 (suc m))
  visited_at m h =
      visited-place t.addrs t fs start_place.0 m v refl all start_place.1 (omega arith)
        (omega arith)

  listed-visited : (a : SocketAddr) → contains a t.addrs ≡ true → contains a (visited t fs) ≡ true
  listed-visited a h =
      let (j, p) = position_of_contains a t.addrs h in
      let found = position_found a t.addrs j p in
      let small = get_elem?-lt t.addrs _ start_place.1 in
      let (less, at_j) =
        round_of-place (length t.addrs) start_place.0 j small (get_elem?-lt t.addrs j found) in
      contains_get_elem? (visited t fs) _ (visited_at _ less ∙ ap (get_elem? t.addrs) at_j ∙ found)

  visited-listed : (a : SocketAddr) → contains a (visited t fs) ≡ true → contains a t.addrs ≡ true
  visited-listed a h =
      let (m, p) = position_of_contains a (visited t fs) h in
      let found = position_found a (visited t fs) m p in
      let less = get_elem?-lt (visited t fs) m found in
      contains_get_elem? t.addrs _ (sym (visited_at m (omega (arith, length-visited t fs))) ∙ found)

  -- Over as many shuffled answers as there are addresses, from a canonical list that holds the
  -- address in use, the addresses that the probe is aimed at are the addresses of the list, and as
  -- many as these.
  pub visited-SameElements :
      SameElements (visited t fs) t.addrs × (length (visited t fs) ≡ length t.addrs)
  visited-SameElements =
      (λ a. bool_ext _ _ (visited-listed a) (listed-visited a), length-visited t fs ∙ full)
