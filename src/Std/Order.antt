-- ===== src/Std/Order.antt =====
-- `std::cmp::Ord`: a total order by `cmp`, with the derived lexicographic order on sequences.
use wire_probe.Prelude.{
  ℕ, ◌≡◌, refl, ◌↔◌, ◌⊎◌, Bool, true, false, List, [], ◌∷◌, arith, compare, Ordering,
}

pub record Ord {ℓ} (A : Type ℓ) : Type ℓ where
  pub cmp : A → A → Ordering
  pub cmp-eq : (a b : A) → (cmp a b ≡ Ordering.eq) ↔ (a ≡ b)
  pub cmp-flip : (a b : A) → (cmp a b ≡ Ordering.lt) ↔ (cmp b a ≡ Ordering.gt)
  pub cmp-trans :
      (a b c : A) → cmp a b ≡ Ordering.lt → cmp b c ≡ Ordering.lt → cmp a c ≡ Ordering.lt

-- `Ordering::then`, with its second argument as a value.
abbrev pub then_cmp : Ordering → Ordering → Ordering
then_cmp Ordering.eq o = o
then_cmp Ordering.lt o = Ordering.lt
then_cmp Ordering.gt o = Ordering.gt

-- The order that `#[derive(Ord)]` gives to fields in sequence: the first difference decides.
abbrev pub cmp_fields : List ℕ → List ℕ → Ordering
cmp_fields [] [] = Ordering.eq
cmp_fields [] (b ∷ bs) = Ordering.lt
cmp_fields (a ∷ as') [] = Ordering.gt
cmp_fields (a ∷ as') (b ∷ bs) = then_cmp (compare a b) (cmp_fields as' bs)

cmp_fields_refl : (xs : List ℕ) → cmp_fields xs xs ≡ Ordering.eq
cmp_fields_refl [] = refl
cmp_fields_refl (x ∷ xs) = ground (arith, cmp_fields_refl xs)

cmp_fields_same : (xs ys : List ℕ) → cmp_fields xs ys ≡ Ordering.eq → xs ≡ ys
cmp_fields_same [] [] h = refl
cmp_fields_same [] (y ∷ ys) h = ground arith
cmp_fields_same (x ∷ xs) [] h = ground arith
cmp_fields_same (x ∷ xs) (y ∷ ys) h = ground (arith, cmp_fields_same xs ys)

pub cmp_fields-eq : (xs ys : List ℕ) → (cmp_fields xs ys ≡ Ordering.eq) ↔ (xs ≡ ys)
cmp_fields-eq xs ys = (cmp_fields_same xs ys, λ e. rw e (cmp_fields_refl ys))

pub cmp_fields-flip :
    (xs ys : List ℕ) → (cmp_fields xs ys ≡ Ordering.lt) ↔ (cmp_fields ys xs ≡ Ordering.gt)
cmp_fields-flip [] [] = ground arith
cmp_fields-flip [] (y ∷ ys) = ground arith
cmp_fields-flip (x ∷ xs) [] = ground arith
cmp_fields-flip (x ∷ xs) (y ∷ ys) = ground (arith, cmp_fields-flip xs ys)

pub cmp_fields_trans :
    (xs ys zs : List ℕ)
    → cmp_fields xs ys ≡ Ordering.lt
    → cmp_fields ys zs ≡ Ordering.lt
    → cmp_fields xs zs ≡ Ordering.lt
cmp_fields_trans [] [] zs h k = ground arith
cmp_fields_trans [] (y ∷ ys) [] h k = ground arith
cmp_fields_trans [] (y ∷ ys) (z ∷ zs) h k = refl
cmp_fields_trans (x ∷ xs) [] zs h k = ground arith
cmp_fields_trans (x ∷ xs) (y ∷ ys) [] h k = ground arith
cmp_fields_trans (x ∷ xs) (y ∷ ys) (z ∷ zs) h k = ground (arith, cmp_fields_trans xs ys zs)

module _ {ℓ} {A : Type ℓ} ⦃o : Ord A⦄ where
  -- `PartialEq`, which agrees with the order.
  abbrev pub eqb : A → A → Bool
  eqb a b = elim (o.cmp a b) [ Ordering.eq ↦ true | _ ↦ false ]

  -- `a < b`
  abbrev pub less : A → A → Bool
  less a b = elim (o.cmp a b) [ Ordering.lt ↦ true | _ ↦ false ]

  pub cmp_refl : (a : A) → o.cmp a a ≡ Ordering.eq
  cmp_refl a = (o.cmp-eq a a).1 refl

  pub eqb_iff : (a b : A) → (eqb a b ≡ true) ↔ (a ≡ b)
  eqb_iff a b = ground (arith, o.cmp-eq a b)

  pub less_trans : (a b c : A) → less a b ≡ true → less b c ≡ true → less a c ≡ true
  less_trans a b c h k = ground (arith, o.cmp-trans a b c)

  pub less_irrefl : (a : A) → less a a ≡ false
  less_irrefl a = ground (arith, cmp_refl a)

  pub less-asymm : (a b : A) → less a b ≡ true → less b a ≡ false
  less-asymm a b h = ground (arith, o.cmp-flip a b)

  -- Two values are equal, or one is below the other.
  pub less-total : (a b : A) → (a ≡ b) ⊎ ((less a b ≡ true) ⊎ (less b a ≡ true))
  less-total a b = ground (arith, o.cmp-eq a b, o.cmp-flip b a)
