-- ===== src/Std/Sort/Position.antt =====
-- Where an element stands, and the comparison of two vectors.
use wire_probe.Prelude.{
  ℕ, zero, suc, ◌<◌, ◌≡◌, refl, ap, ◌↔◌, inl, inr, true, false, none, some, List, [], ◌∷◌, ◌++◌,
  arith, All, length, get_elem?, Bool-cases, Option-cases,
}
use mathlib.Core.Path.{subst}
use mathlib.Core.Option
use mathlib.Core.Option.{none-ne-some, some-injective}
use wire_probe.Std.Order.{Ord, eqb, less, eqb_iff, less_irrefl}
use wire_probe.Std.Sort.{position, vec_eq, contains}
use wire_probe.Std.Sort.Laws.{IsAscending}

-- Lists and their places.
module _ {ℓ} {A : Type ℓ} where
  pub get_elem?-some : (xs : List A) (i : ℕ) → i < length xs → (x : A) × (get_elem? xs i ≡ some x)
  get_elem?-some [] i h = elim h [ ]
  get_elem?-some (x ∷ xs) zero h = (x, refl)
  get_elem?-some (x ∷ xs) (suc i) h = get_elem?-some xs i (omega arith)

  pub get_elem?-lt : (xs : List A) (i : ℕ) {x : A} → get_elem? xs i ≡ some x → i < length xs
  get_elem?-lt [] i h = ground arith
  get_elem?-lt (x ∷ xs) zero h = omega arith
  get_elem?-lt (x ∷ xs) (suc i) {x = y} h = omega (arith, get_elem?-lt xs i {x = y} h)

  pub get_elem?-none : (xs : List A) (i : ℕ) → get_elem? xs i ≡ none → length xs < suc i
  get_elem?-none [] i h = omega arith
  get_elem?-none (x ∷ xs) zero h = ground arith
  get_elem?-none (x ∷ xs) (suc i) h = omega (arith, get_elem?-none xs i h)

module _ {ℓ} {A : Type ℓ} ⦃o : Ord A⦄ where
  pub vec_eq_iff : (xs ys : List A) → (vec_eq xs ys ≡ true) ↔ (xs ≡ ys)
  unfolding vec_eq
  vec_eq_iff [] [] = ground arith
  vec_eq_iff [] (y ∷ ys) = ground arith
  vec_eq_iff (x ∷ xs) [] = ground arith
  vec_eq_iff (x ∷ xs) (y ∷ ys) = ground (arith, vec_eq_iff xs ys, eqb_iff x y)

  pub position_found :
      (x : A) (ys : List A) (i : ℕ) → position x ys ≡ some i → get_elem? ys i ≡ some x
  unfolding position
  position_found x [] i h = ground arith
  position_found x (y ∷ ys) i h = elim (Bool-cases (eqb y x)) [
    | inl e ↦
        subst (λ k. get_elem? (y ∷ ys) k ≡ some x) (some-injective _ _ (rw e at h))
          (ap some ((eqb_iff y x).0 e))
    | inr e ↦ elim (Option-cases (position x ys)) [
      | inl p ↦ absurd (none-ne-some _ (rw (e, p) at h))
      | inr (j, p) ↦
          subst (λ k. get_elem? (y ∷ ys) k ≡ some x) (some-injective _ _ (rw (e, p) at h))
            (position_found x ys j p)
    ]
  ]

  pub position_of_contains :
      (x : A) (ys : List A) → contains x ys ≡ true → (i : ℕ) × (position x ys ≡ some i)
  unfolding position
  position_of_contains x [] h = ground arith
  position_of_contains x (y ∷ ys) h = elim (Bool-cases (eqb y x)) [
    | inl e ↦ (0, rw e)
    | inr e ↦
        let found = position_of_contains x ys (ground (arith, eqb_iff x y, eqb_iff y x)) in
        (suc found.0, rw (e, found.1, Option.map))
  ]

  pub position_of_absent : (x : A) (ys : List A) → contains x ys ≡ false → position x ys ≡ none
  unfolding position
  position_of_absent x [] h = refl
  position_of_absent x (y ∷ ys) h =
      ground (arith, position_of_absent x ys, eqb_iff x y, eqb_iff y x)

  pub contains_get_elem? :
      (ys : List A) (i : ℕ) {x : A} → get_elem? ys i ≡ some x → contains x ys ≡ true
  contains_get_elem? [] i h = ground arith
  contains_get_elem? (y ∷ ys) zero {x} h = ground (arith, eqb_iff x y)
  contains_get_elem? (y ∷ ys) (suc i) {x} h = ground (arith, contains_get_elem? ys i {x = x} h)

  above_head :
      (x : A) (ys : List A) (i : ℕ) {z : A}
      → All (λ y. less x y ≡ true) ys
      → get_elem? ys i ≡ some z
      → eqb x z ≡ false
  above_head x [] i all h = ground arith
  above_head x (y ∷ ys) zero {z} all h = ground (arith, all.0, less_irrefl x, eqb_iff x y)
  above_head x (y ∷ ys) (suc i) {z} all h = above_head x ys i all.1 h

  -- In an ascending list the position is the place itself.
  pub position-get_elem? :
      (ys : List A) (i : ℕ) {x : A}
      → IsAscending ys
      → get_elem? ys i ≡ some x
      → position x ys ≡ some i
  unfolding position
  position-get_elem? [] i s h = ground arith
  position-get_elem? (y ∷ ys) zero {x} s h = ground (arith, eqb_iff y x)
  position-get_elem? (y ∷ ys) (suc i) {x} s h =
      ground (arith, above_head y ys i {z = x} s.0 h, position-get_elem? ys i {x = x} s.1 h)

  -- A list that holds an element has it between two parts.
  pub contains-append :
      (x : A) (ys : List A)
      → contains x ys ≡ true
      → (front : List A) × (back : List A) × (ys ≡ front ++ (x ∷ back))
  contains-append x [] h = cc
  contains-append x (y ∷ ys) h = elim (Bool-cases (eqb x y)) [
    | inl e ↦ ([], ys, rw ((eqb_iff x y).0 e) refl)
    | inr e ↦
        let (front, back, whole) = contains-append x ys (rw e at h) in
        (y ∷ front, back, ap (λ l. y ∷ l) whole)
  ]
