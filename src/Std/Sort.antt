-- ===== src/Std/Sort.antt =====
-- `slice::sort_unstable`, `Vec::dedup` and `Iterator::position`, over any `Ord`.
pub mod Laws
pub mod Position
use wire_probe.Prelude.{
  ℕ, zero, suc, Bool, true, false, ◌||◌, Option, none, some, List, [], ◌∷◌, if◌then◌else◌,
}
use mathlib.Core.Option
use wire_probe.Std.Order.{Ord, eqb, less}

module _ {ℓ} {A : Type ℓ} ⦃o : Ord A⦄ where
  insert_sorted : A → List A → List A
  insert_sorted x [] = x ∷ []
  insert_sorted x (y ∷ ys) = if less y x then y ∷ insert_sorted x ys else x ∷ y ∷ ys

  -- The ascending rearrangement. Equal elements of a total order are the same value, so a stable
  -- and an unstable sort return the same list.
  unfoldable pub sort_unstable : List A → List A
  unfolding insert_sorted
  sort_unstable [] = []
  sort_unstable (x ∷ xs) = insert_sorted x (sort_unstable xs)

  dedup_from : A → List A → List A
  dedup_from x [] = x ∷ []
  dedup_from x (y ∷ ys) = if eqb x y then dedup_from x ys else x ∷ dedup_from y ys

  -- Of each run of equal neighbours the first is kept.
  unfoldable pub dedup : List A → List A
  unfolding dedup_from
  dedup [] = []
  dedup (x ∷ xs) = dedup_from x xs

  -- `iter().position(|a| a == x)`
  unfoldable pub position : A → List A → Option ℕ
  position x [] = none
  position x (y ∷ ys) = if eqb y x then some 0 else Option.map suc (position x ys)

  -- `==` of two vectors.
  unfoldable pub vec_eq : List A → List A → Bool
  vec_eq [] [] = true
  vec_eq [] (y ∷ ys) = false
  vec_eq (x ∷ xs) [] = false
  vec_eq (x ∷ xs) (y ∷ ys) = elim (eqb x y) [ true ↦ vec_eq xs ys | false ↦ false ]

  abbrev pub contains : A → List A → Bool
  contains x [] = false
  contains x (y ∷ ys) = eqb x y || contains x ys
