-- ===== src/Std/Sort/Laws.antt =====
-- Sorted and strictly ascending lists, and their elements.
use wire_probe.Prelude.{
  ◌≡◌, refl, inl, inr, true, false, ◌||◌, List, [], ◌∷◌, arith, All, Bool-cases,
}
use mathlib.Core.Path.{subst, ap₂, sym, ◌∙◌}
use wire_probe.Std.Order.{
  Ord, eqb, less, eqb_iff, less_trans, less_irrefl, less-asymm, less-total, cmp_refl,
}
use wire_probe.Std.Sort.{insert_sorted, sort_unstable, dedup_from, dedup, contains}

module _ {ℓ} {A : Type ℓ} ⦃o : Ord A⦄ where
  -- No element is above a later one.
  abbrev pub IsSorted : List A → Type ℓ
  IsSorted [] = Unit
  IsSorted (x ∷ xs) = All (λ y. less y x ≡ false) xs × IsSorted xs

  -- Every element is below each later one.
  abbrev pub IsAscending : List A → Type ℓ
  IsAscending [] = Unit
  IsAscending (x ∷ xs) = All (λ y. less x y ≡ true) xs × IsAscending xs

  -- The same answers, in any order and number.
  abbrev pub SameElements : List A → List A → Type ℓ
  SameElements xs ys = (a : A) → contains a xs ≡ contains a ys

  contains-insert_sorted :
      (a x : A) (ys : List A) → contains a (insert_sorted x ys) ≡ (eqb a x || contains a ys)
  unfolding insert_sorted
  contains-insert_sorted a x [] = refl
  contains-insert_sorted a x (y ∷ ys) = ground (arith, contains-insert_sorted a x ys)

  pub contains-sort_unstable : (a : A) (xs : List A) → contains a (sort_unstable xs) ≡ contains a xs
  unfolding sort_unstable
  contains-sort_unstable a [] = refl
  contains-sort_unstable a (x ∷ xs) =
      ground (arith, contains-insert_sorted a x (sort_unstable xs), contains-sort_unstable a xs)

  contains-dedup_from :
      (a x : A) (ys : List A) → contains a (dedup_from x ys) ≡ (eqb a x || contains a ys)
  unfolding dedup_from
  contains-dedup_from a x [] = refl
  contains-dedup_from a x (y ∷ ys) = elim (Bool-cases (eqb x y)) [
    | inl e ↦ rw (e, (eqb_iff x y).0 e) (ground (arith, contains-dedup_from a y ys))
    | inr e ↦ rw e (ground (arith, contains-dedup_from a y ys))
  ]

  pub contains-dedup : (a : A) (xs : List A) → contains a (dedup xs) ≡ contains a xs
  unfolding dedup
  contains-dedup a [] = refl
  contains-dedup a (x ∷ xs) = contains-dedup_from a x xs

  All-insert_sorted {κ} :
      (P : A → Type κ) (x : A) (ys : List A) → P x → All P ys → All P (insert_sorted x ys)
  unfolding insert_sorted
  All-insert_sorted P x [] p h = (p, tt)
  All-insert_sorted P x (y ∷ ys) p h = elim (Bool-cases (less y x)) [
    | inl e ↦ rw e (h.0, All-insert_sorted P x ys p h.1)
    | inr e ↦ rw e (p, h)
  ]

  not_less_trans : (x y z : A) → less y x ≡ false → less z y ≡ false → less z x ≡ false
  not_less_trans x y z h k = ground (arith, less-total x y, less_trans z x y)

  All-not-less :
      (x y : A) (ys : List A)
      → less y x ≡ false
      → All (λ z. less z y ≡ false) ys
      → All (λ z. less z x ≡ false) ys
  All-not-less x y [] h all = tt
  All-not-less x y (z ∷ zs) h all = (not_less_trans x y z h all.0, All-not-less x y zs h all.1)

  insert_sorted-IsSorted : (x : A) (ys : List A) → IsSorted ys → IsSorted (insert_sorted x ys)
  unfolding insert_sorted
  insert_sorted-IsSorted x [] s = (tt, tt)
  insert_sorted-IsSorted x (y ∷ ys) s = elim (Bool-cases (less y x)) [
    | inl e ↦
        rw e (All-insert_sorted _ x ys (less-asymm y x e) s.0, insert_sorted-IsSorted x ys s.1)
    | inr e ↦ rw e ((e, All-not-less x y ys e s.0), s)
  ]

  pub sort_unstable-IsSorted : (xs : List A) → IsSorted (sort_unstable xs)
  unfolding sort_unstable
  sort_unstable-IsSorted [] = tt
  sort_unstable-IsSorted (x ∷ xs) = insert_sorted-IsSorted x _ (sort_unstable-IsSorted xs)

  -- What is not below `y` is above everything that `y` is above.
  less-of_not-less : (x y z : A) → less x y ≡ true → less z y ≡ false → less x z ≡ true
  less-of_not-less x y z h k = ground (arith, less-total y z, less_trans x y z)

  All-less-dedup_from :
      (x y : A) (ys : List A)
      → less x y ≡ true
      → All (λ z. less z y ≡ false) ys
      → IsSorted ys
      → All (λ z. less x z ≡ true) (dedup_from y ys)
  unfolding dedup_from
  All-less-dedup_from x y [] h all s = (h, tt)
  All-less-dedup_from x y (z ∷ zs) h all s = elim (Bool-cases (eqb y z)) [
    | inl e ↦ rw e (All-less-dedup_from x y zs h all.1 s.1)
    | inr e ↦ rw e (h, All-less-dedup_from x z zs (less-of_not-less x y z h all.0) s.0 s.1)
  ]

  dedup_from-IsAscending :
      (x : A) (ys : List A)
      → All (λ z. less z x ≡ false) ys
      → IsSorted ys
      → IsAscending (dedup_from x ys)
  unfolding dedup_from
  dedup_from-IsAscending x [] all s = (tt, tt)
  dedup_from-IsAscending x (y ∷ ys) all s = elim (Bool-cases (eqb x y)) [
    | inl e ↦ rw e (dedup_from-IsAscending x ys all.1 s.1)
    | inr e ↦ rw e (
      All-less-dedup_from x y ys (ground (arith, less-total x y, eqb_iff x y)) s.0 s.1,
      dedup_from-IsAscending y ys s.0 s.1,
    )
  ]

  pub dedup-IsAscending : (xs : List A) → IsSorted xs → IsAscending (dedup xs)
  unfolding dedup
  dedup-IsAscending [] s = tt
  dedup-IsAscending (x ∷ xs) s = dedup_from-IsAscending x xs s.0 s.1

  -- A value below a whole list is not in it.
  pub not-contains-of_below :
      (x : A) (ys : List A) → All (λ y. less x y ≡ true) ys → contains x ys ≡ false
  not-contains-of_below x [] h = refl
  not-contains-of_below x (y ∷ ys) h =
      ground (arith, not-contains-of_below x ys h.1, eqb_iff x y, less_irrefl y)

  All-less_trans :
      (x y : A) (ys : List A)
      → less x y ≡ true
      → All (λ z. less y z ≡ true) ys
      → All (λ z. less x z ≡ true) ys
  All-less_trans x y [] h all = tt
  All-less_trans x y (z ∷ zs) h all = (less_trans x y z h all.0, All-less_trans x y zs h all.1)

  heads_eq :
      (x y : A) (xs ys : List A)
      → IsAscending (x ∷ xs)
      → IsAscending (y ∷ ys)
      → SameElements (x ∷ xs) (y ∷ ys)
      → x ≡ y
  heads_eq x y xs ys s t same = elim (less-total x y) [
    | inl e ↦ e
    | inr (inl x_below) ↦
        let absent =
          not-contains-of_below x (y ∷ ys) (x_below, All-less_trans x y ys x_below t.0) in
        ground (arith, absent, same x, cmp_refl x)
    | inr (inr y_below) ↦
        let absent =
          not-contains-of_below y (x ∷ xs) (y_below, All-less_trans y x xs y_below s.0) in
        ground (arith, absent, same y, cmp_refl y)
  ]

  tails_same :
      (x : A) (xs ys : List A)
      → contains x xs ≡ false
      → contains x ys ≡ false
      → SameElements (x ∷ xs) (x ∷ ys)
      → SameElements xs ys
  tails_same x xs ys p q same a = elim (Bool-cases (eqb a x)) [
    | inl e ↦ rw ((eqb_iff a x).0 e) (p ∙ sym q)
    | inr e ↦ ground (arith, same a)
  ]

  -- A strictly ascending list is determined by its elements.
  pub IsAscending-ext :
      (xs ys : List A) → IsAscending xs → IsAscending ys → SameElements xs ys → xs ≡ ys
  IsAscending-ext [] [] s t same = refl
  IsAscending-ext [] (y ∷ ys) s t same = ground (arith, same y, cmp_refl y)
  IsAscending-ext (x ∷ xs) [] s t same = ground (arith, same x, cmp_refl x)
  IsAscending-ext (x ∷ xs) (y ∷ ys) s t same =
      let e : x ≡ y = heads_eq x y xs ys s t same in
      let t' : IsAscending (x ∷ ys) = rw e t in
      let same' : SameElements (x ∷ xs) (x ∷ ys) =
        subst (λ z. SameElements (x ∷ xs) (z ∷ ys)) (sym e) same in
      let tails =
        tails_same x xs ys (not-contains-of_below x xs s.0) (not-contains-of_below x ys t'.0)
          same' in
      ap₂ ◌∷◌ e (IsAscending-ext xs ys s.1 t'.1 tails)
