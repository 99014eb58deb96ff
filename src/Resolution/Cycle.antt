-- ===== src/Resolution/Cycle.antt =====
-- The order in which rotation visits the addresses: `rotate_target` of src/main.rs, over several
-- re-resolutions.
use mathlib.Core.Path.{ap₂}
use mathlib.Core.List.{append_assoc}
use mathlib.Core.Option.{some-injective}
use wire_probe.Prelude.{
  ℕ, zero, suc, ◌+◌, ◌-◌, ◌<◌, ◌≡◌, refl, sym, ap, ◌∙◌, some, List, [], ◌∷◌, ◌++◌, arith, length,
  length-append, get_elem?, ltb, Bool-cases, inl, inr,
}
use wire_probe.Std.Net.{SocketAddr, addr_ord}
use wire_probe.Resolution.{Targets}
use wire_probe.Resolution.Laws.{IsTargets}
use wire_probe.Resolution.Rounds.{visited, Shuffles, length-visited, visited-place, place}

module _ {ℓ} {A : Type ℓ} where
  -- Lists with the same elements at the same places are equal.
  get_elem?_ext :
      (xs ys : List A)
      → length xs ≡ length ys
      → ((m : ℕ) → m < length xs → get_elem? xs m ≡ get_elem? ys m)
      → xs ≡ ys
  get_elem?_ext [] [] n h = refl
  get_elem?_ext [] (y ∷ ys) n h = absurd (omega arith)
  get_elem?_ext (x ∷ xs) [] n h = absurd (omega arith)
  get_elem?_ext (x ∷ xs) (y ∷ ys) n h =
      ap₂ ◌∷◌ (some-injective _ _ (h 0 (omega arith)))
        (get_elem?_ext xs ys (omega arith) (λ m less. h (suc m) (omega arith)))

  get_elem?-append_right :
      (xs ys : List A) (m : ℕ) → get_elem? (xs ++ ys) (length xs + m) ≡ get_elem? ys m
  get_elem?-append_right [] ys m = ap (get_elem? ys) (omega arith)
  get_elem?-append_right (x ∷ xs) ys m =
      let e : suc (length xs) + m ≡ suc (length xs + m) = omega arith in
      rw e (get_elem?-append_right xs ys m)

  get_elem?-append_left :
      (xs ys : List A) (m : ℕ) → m < length xs → get_elem? (xs ++ ys) m ≡ get_elem? xs m
  get_elem?-append_left [] ys m h = absurd (omega arith)
  get_elem?-append_left (x ∷ xs) ys zero h = refl
  get_elem?-append_left (x ∷ xs) ys (suc m) h = get_elem?-append_left xs ys m (omega arith)

  get_elem?-at_end :
      (front back : List A) (a : A) → get_elem? (front ++ (a ∷ back)) (length front) ≡ some a
  get_elem?-at_end [] back a = refl
  get_elem?-at_end (x ∷ front) back a = get_elem?-at_end front back a

  length-rotated :
      (front back : List A) (a : A)
      → length (front ++ (a ∷ back)) ≡ length (back ++ (front ++ (a ∷ [])))
  length-rotated front back a = omega (
    arith,
    length-append front (a ∷ back),
    length-append back (front ++ (a ∷ [])),
    length-append front (a ∷ []),
  )

  -- The places of a list in the order of the cycle that starts behind one of them.
  get_elem?-place :
      (front back : List A) (a : A) (m : ℕ)
      → m < length (front ++ (a ∷ back))
      → get_elem?
          (front ++ (a ∷ back))
          (place (length (front ++ (a ∷ back))) (length front) (suc m))
        ≡ get_elem? (back ++ (front ++ (a ∷ []))) m
  get_elem?-place front back a m h =
      let size = length-append front (a ∷ back) in
      elim (Bool-cases (ltb m (length back))) [
        | inl e ↦
            ap (get_elem? (front ++ (a ∷ back))) (ground arith)
            ∙ get_elem?-append_right front (a ∷ back) (suc m)
            ∙ sym (get_elem?-append_left back (front ++ (a ∷ [])) m (ground arith))
        | inr e ↦
            let k = m - length back in
            let whole : place (length (front ++ (a ∷ back))) (length front) (suc m) ≡ k =
              ground arith in
            let place_of : m ≡ length back + k = ground arith in
            let split : front ++ (a ∷ back) ≡ (front ++ (a ∷ [])) ++ back =
              sym (append_assoc front (a ∷ []) back) in
            ap (get_elem? (front ++ (a ∷ back))) whole
            ∙ ap (λ l. get_elem? l k) split
            ∙ get_elem?-append_left (front ++ (a ∷ [])) back k
                (omega (arith, length-append front (a ∷ []), place_of))
            ∙ sym (get_elem?-append_right back (front ++ (a ∷ [])) k)
            ∙ ap (get_elem? (back ++ (front ++ (a ∷ [])))) (sym place_of)
      ]

-- From a canonical list that holds the address in use, over as many shuffled answers as there are
-- addresses, the probe is aimed first at the addresses behind the one in use, in their order, then
-- at those in front of it, and last at itself again: each address of the list once.
pub visited_rotated :
    (t : Targets) (fs : List (List SocketAddr)) (front back : List SocketAddr)
    → IsTargets t
    → Shuffles t.addrs fs
    → length fs ≡ length t.addrs
    → t.addrs ≡ front ++ (t.current ∷ back)
    → visited t fs ≡ back ++ (front ++ (t.current ∷ []))
visited_rotated t fs front back v all full e =
    let here : get_elem? t.addrs (length front) ≡ some t.current =
      ap (λ l. get_elem? l (length front)) e ∙ get_elem?-at_end front back t.current in
    let count = length-visited t fs in
    get_elem?_ext (visited t fs) (back ++ (front ++ (t.current ∷ [])))
      (count ∙ full ∙ ap length e ∙ length-rotated front back t.current)
      (λ m less.
        visited-place t.addrs t fs (length front) m v refl all here (omega (arith, count))
          (omega (arith, full))
        ∙ ap (λ l. get_elem? l (place (length l) (length front) (suc m))) e
        ∙ get_elem?-place front back t.current m (omega (arith, count, full, ap length e)))
