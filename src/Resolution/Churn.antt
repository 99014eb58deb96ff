-- ===== src/Resolution/Churn.antt =====
-- Rotation while the answers change from one re-resolution to the next: `apply_resolution` of
-- src/main.rs over several rounds.
use wire_probe.Prelude.{
  ℕ, ◌+◌, ◌<◌, ◌≤◌, ◌≡◌, ◌≢◌, refl, Bool, true, false, not, ◌&&◌, ◌||◌, List, [], ◌∷◌, arith,
  length, Bool-cases, inl, inr, if◌then◌else◌,
}
use wire_probe.Std.Net.{SocketAddr, addr_ord}
use wire_probe.Std.Order.{Ord, eqb, less, eqb_iff, less_irrefl, less_trans, less-total}
use wire_probe.Std.Sort.{contains}
use wire_probe.Resolution.{Targets, apply_resolution}
use wire_probe.Resolution.Rounds.{visited}
use wire_probe.Resolution.Successor.{IsSuccessor, apply_resolution-IsSuccessor}

module _ {ℓ} {A : Type ℓ} where
  abbrev count : (A → Bool) → List A → ℕ
  count p [] = 0
  count p (x ∷ xs) = (if p x then 1 else 0) + count p xs

  count-le :
      (p q : A → Bool) (xs : List A) → ((x : A) → p x ≡ true → q x ≡ true) → count p xs ≤ count q xs
  count-le p q [] h = omega arith
  count-le p q (x ∷ xs) h = ground (arith, h x, count-le p q xs h)

  count-length-le : (p : A → Bool) (xs : List A) → count p xs ≤ length xs
  count-length-le p [] = omega arith
  count-length-le p (x ∷ xs) = ground (arith, count-length-le p xs)

module _ {ℓ} {A : Type ℓ} ⦃o : Ord A⦄ where
  -- A property that loses a listed element counts less.
  count-lt :
      (p q : A → Bool) (xs : List A) (b : A)
      → ((x : A) → p x ≡ true → q x ≡ true)
      → contains b xs ≡ true
      → p b ≡ false
      → q b ≡ true
      → count p xs < count q xs
  count-lt p q [] b h m e f = cc
  count-lt p q (x ∷ xs) b h m e f = elim (Bool-cases (eqb b x)) [
    | inl same ↦
        let px : p x ≡ false = rw (← (eqb_iff b x).0 same) e in
        let qx : q x ≡ true = rw (← (eqb_iff b x).0 same) f in ground (arith, count-le p q xs h)
    | inr other ↦ ground (arith, h x, count-lt p q xs b h (ground arith) e f)
  ]

  count-pos :
      (p : A → Bool) (xs : List A) (b : A) → contains b xs ≡ true → p b ≡ true → 0 < count p xs
  count-pos p xs b m e = omega (arith, count-lt (λ x. false) p xs b (λ x h. cc) m refl e)

  -- On the way up from behind `a` to `x`, from the greatest on to the least.
  abbrev ahead : (a x u : A) → Bool
  ahead a x u = if less a x then less a u && not (less x u) else less a u || not (less x u)

  ahead_refl : (a x : A) → ahead a x x ≡ true
  ahead_refl a x = ground (arith, less_irrefl x)

  module _ (member : A → Bool) (a b x : A) (s : IsSuccessor member a b) (m : member x ≡ true)
      (ne : b ≢ x) where
    ahead_step :
        ((u : A) → ahead b x u ≡ true → ahead a x u ≡ true)
        × (ahead a x b ≡ true)
        × (ahead b x b ≡ false)
    ahead_step = elim s.next [
      | inl (above, least) ↦ (
        λ u h. ground (arith, least x m, less-total b x, less_trans a b u),
        ground (arith, least x m, less_irrefl x),
        ground (arith, less_irrefl b, least x m, less-total b x, less_trans x a b),
      )
      | inr (top, least) ↦ (
        λ u h. ground (arith, least x m, top x m, less-total b x),
        ground (arith, least x m, top x m),
        ground (arith, less_irrefl b, least x m, less-total b x),
      )
    ]

-- The answers of a run hold `x` and the address that is in use when they come, and nothing outside
-- `pool`.
abbrev pub Keeps : SocketAddr → List SocketAddr → Targets → List (List SocketAddr) → Type 0
Keeps x pool t [] = Unit
Keeps x pool t (fresh ∷ later) =
    (contains x fresh ≡ true)
    × (contains t.current fresh ≡ true)
    × ((c : SocketAddr) → contains c fresh ≡ true → contains c pool ≡ true)
    × Keeps x pool (apply_resolution t fresh).0 later

-- How many addresses of the pool are ahead, up to and with `x`.
abbrev distance : SocketAddr → List SocketAddr → SocketAddr → ℕ
distance x pool a = count (ahead a x) pool

distance-pos :
    (x : SocketAddr) (pool : List SocketAddr) (a : SocketAddr)
    → contains x pool ≡ true
    → 0 < distance x pool a
distance-pos x pool a h = count-pos (ahead a x) pool x h (ahead_refl a x)

distance_step :
    (x : SocketAddr) (pool : List SocketAddr) (t : Targets) (fresh : List SocketAddr)
    → contains x fresh ≡ true
    → contains t.current fresh ≡ true
    → ((c : SocketAddr) → contains c fresh ≡ true → contains c pool ≡ true)
    → let b = (apply_resolution t fresh).0.current in
      b ≢ x → distance x pool b < distance x pool t.current
distance_step x pool t fresh held mine within ne =
    let b = (apply_resolution t fresh).0.current in
    let s = apply_resolution-IsSuccessor t fresh mine in
    let (fewer, lost, gone) = ahead_step (λ c. contains c fresh) t.current b x s held ne in
    count-lt (ahead b x) (ahead t.current x) pool b fewer (within b s.listed) gone lost

visited_within :
    (x : SocketAddr) (pool : List SocketAddr) (t : Targets) (fs : List (List SocketAddr))
    → contains x pool ≡ true
    → Keeps x pool t fs
    → distance x pool t.current ≤ length fs
    → contains x (visited t fs) ≡ true
unfolding visited
visited_within x pool t [] h keeps near = absurd (omega (arith, distance-pos x pool t.current h))
visited_within x pool t (fresh ∷ later) h keeps near =
    let t' = (apply_resolution t fresh).0 in
    elim (Bool-cases (eqb x t'.current)) [
      | inl here ↦ ground (arith, here)
      | inr elsewhere ↦
          let ne : t'.current ≢ x = λ e. ground (arith, (eqb_iff x t'.current).1, e) in
          let nearer = distance_step x pool t fresh keeps.0 keeps.1 keeps.2 ne in
          let found = visited_within x pool t' later h keeps.3 (omega arith) in
          ground (arith, found)
    ]

-- While the answers change from round to round, no address starves: if an address is in every
-- answer, if the address in use is still in the answer that comes, and if all answers are from a
-- pool of addresses that holds it, then after as many rounds as the pool has entries the probe has
-- been aimed at it.
pub visited_despite_churn :
    (x : SocketAddr) (pool : List SocketAddr) (t : Targets) (fs : List (List SocketAddr))
    → contains x pool ≡ true
    → Keeps x pool t fs
    → length pool ≤ length fs
    → contains x (visited t fs) ≡ true
visited_despite_churn x pool t fs h keeps enough =
    visited_within x pool t fs h keeps (omega (arith, count-length-le (ahead t.current x) pool))
