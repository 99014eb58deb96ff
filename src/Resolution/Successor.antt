-- ===== src/Resolution/Successor.antt =====
-- Rotation described on the answers alone, with no list order: `apply_resolution` of src/main.rs.
use mathlib.Core.Option.{some-injective}
use wire_probe.Prelude.{
  ℕ, zero, suc, ◌≡◌, sym, ◌∙◌, ◌⊎◌, inl, inr, Bool, true, false, some, List, [], ◌∷◌, arith, length,
  get_elem?, All, ltb, Bool-cases,
}
use wire_probe.Std.Net.{SocketAddr, addr_ord}
use wire_probe.Std.Order.{Ord, eqb, less, eqb_iff, less_irrefl, less-asymm}
use wire_probe.Std.Sort.{contains}
use wire_probe.Std.Sort.Laws.{IsAscending}
use wire_probe.Std.Sort.Position.{
  get_elem?-lt, contains_get_elem?, position_found, position_of_contains,
}
use wire_probe.Resolution.{Targets, apply_resolution}
use wire_probe.Resolution.Laws.{
  canonical, canonical-IsAscending, canonical-SameElements, cyclic_next, choose_next_cyclic,
}

module _ {ℓ} {A : Type ℓ} ⦃o : Ord A⦄ where
  -- Of a set, given by its membership test: `b` is its least element above `a`, or nothing of it is
  -- above `a` and `b` is its least element.
  pub record IsSuccessor (member : A → Bool) (a b : A) : Type ℓ where
    pub listed : member b ≡ true
    pub next :
        ((less a b ≡ true) × ((c : A) → member c ≡ true → less a c ≡ true → less c b ≡ false))
        ⊎ (((c : A) → member c ≡ true → less a c ≡ false)
            × ((c : A) → member c ≡ true → less c b ≡ false))

  All_at {κ} : (P : A → Type κ) (xs : List A) (c : A) → All P xs → contains c xs ≡ true → P c
  All_at P [] c all h = cc
  All_at P (x ∷ xs) c all h = elim (Bool-cases (eqb c x)) [
    | inl e ↦ rw ((eqb_iff c x).0 e) all.0
    | inr e ↦ All_at P xs c all.1 (ground arith)
  ]

  -- Nothing of an ascending list is below its first element.
  least_lem :
      (x : A) (xs : List A) (c : A)
      → IsAscending (x ∷ xs)
      → contains c (x ∷ xs) ≡ true
      → less c x ≡ false
  least_lem x xs c s h = elim (Bool-cases (eqb c x)) [
    | inl e ↦ rw ((eqb_iff c x).0 e) (less_irrefl x)
    | inr e ↦ less-asymm x c (All_at _ xs c s.0 (ground arith))
  ]

  -- The element behind another is the least one above it.
  above_lem :
      (xs : List A) (i : ℕ) (a b c : A)
      → IsAscending xs
      → get_elem? xs i ≡ some a
      → get_elem? xs (suc i) ≡ some b
      → (less a b ≡ true) × (contains c xs ≡ true → less a c ≡ true → less c b ≡ false)
  above_lem [] i a b c s p q = cc
  above_lem (x ∷ []) zero a b c s p q = cc
  above_lem (x ∷ y ∷ ys) zero a b c s p q =
      let e : x ≡ a = some-injective _ _ p in
      let f : y ≡ b = some-injective _ _ q in
      rw (← e, ← f)
        (
          s.0.0,
          λ h k. elim (Bool-cases (eqb c x)) [
            | inl same ↦
                let k' : less x x ≡ true = rw ((eqb_iff c x).0 same) at k in cc (less_irrefl x)
            | inr other ↦ least_lem y ys c s.1 (ground arith)
          ],
        )
  above_lem (x ∷ xs) (suc i) a b c s p q =
      let ih = above_lem xs i a b c s.1 p q in
      let below : less x a ≡ true = All_at _ xs a s.0 (contains_get_elem? xs i p) in
      (
        ih.0,
        λ h k. elim (Bool-cases (eqb c x)) [
          | inl same ↦
              let k' : less a x ≡ true = rw ((eqb_iff c x).0 same) at k in cc (less-asymm x a below)
          | inr other ↦ ih.1 (ground arith) k
        ],
      )

  -- Nothing is above the last element.
  last_lem :
      (xs : List A) (i : ℕ) (a c : A)
      → IsAscending xs
      → get_elem? xs i ≡ some a
      → length xs ≡ suc i
      → contains c xs ≡ true
      → less a c ≡ false
  last_lem [] i a c s p n h = cc
  last_lem (x ∷ []) zero a c s p n h =
      let e : x ≡ a = some-injective _ _ p in rw (← e) (ground (arith, eqb_iff c x, less_irrefl x))
  last_lem (x ∷ y ∷ ys) zero a c s p n h = absurd (omega arith)
  last_lem (x ∷ xs) (suc i) a c s p n h =
      let below : less x a ≡ true = All_at _ xs a s.0 (contains_get_elem? xs i p) in
      elim (Bool-cases (eqb c x)) [
        | inl same ↦ rw ((eqb_iff c x).0 same) (less-asymm x a below)
        | inr other ↦ last_lem xs i a c s.1 p (omega arith) (ground arith)
      ]

  -- The next place of the cycle of an ascending list holds the successor.
  cyclic_next-IsSuccessor :
      (xs : List A) (i : ℕ) (a b : A)
      → IsAscending xs
      → get_elem? xs i ≡ some a
      → get_elem? xs (cyclic_next (length xs) i) ≡ some b
      → IsSuccessor (λ c. contains c xs) a b
  cyclic_next-IsSuccessor [] i a b s p q = cc
  cyclic_next-IsSuccessor (x ∷ xs) i a b s p q = elim (Bool-cases (ltb (suc i) (suc (length xs)))) [
    | inl more ↦
        let q' : get_elem? (x ∷ xs) (suc i) ≡ some b = rw more at q in
        let above = λ (c : A). above_lem (x ∷ xs) i a b c s p q' in
        record {
          listed = contains_get_elem? (x ∷ xs) _ q;
          next = inl ((above a).0, λ c. (above c).1);
        }
    | inr end ↦
        let q' : get_elem? (x ∷ xs) 0 ≡ some b = rw end at q in
        let e : x ≡ b = some-injective _ _ q' in
        let size = get_elem?-lt (x ∷ xs) i p in
        record {
          listed = contains_get_elem? (x ∷ xs) _ q;
          next = inr (
            λ c h. last_lem (x ∷ xs) i a c s p (ground arith) h,
            λ c h. rw (← e) (least_lem x xs c s h),
          );
        }
  ]

  -- The successor depends on the elements only.
  IsSuccessor-ext :
      (xs ys : List A) (a b : A)
      → ((c : A) → contains c xs ≡ contains c ys)
      → IsSuccessor (λ c. contains c xs) a b
      → IsSuccessor (λ c. contains c ys) a b
  IsSuccessor-ext xs ys a b same h = record {
    listed = sym (same b) ∙ h.listed;
    next = elim h.next [
      | inl (above, least) ↦ inl (above, λ c k. least c (same c ∙ k))
      | inr (none_above, least) ↦
          inr ((λ c k. none_above c (same c ∙ k)), (λ c k. least c (same c ∙ k)))
    ];
  }

-- An address in use that the answer holds moves to its successor among the addresses of the answer.
pub apply_resolution-IsSuccessor :
    (t : Targets) (fresh : List SocketAddr)
    → contains t.current fresh ≡ true
    → IsSuccessor (λ c. contains c fresh) t.current (apply_resolution t fresh).0.current
unfolding apply_resolution
apply_resolution-IsSuccessor t [] h = cc
apply_resolution-IsSuccessor t (a ∷ rest) h =
    let list = canonical (a ∷ rest) in
    let (i, p) =
      position_of_contains t.current list (canonical-SameElements (a ∷ rest) t.current ∙ h) in
    IsSuccessor-ext list (a ∷ rest) _ _ (canonical-SameElements (a ∷ rest)) (
      cyclic_next-IsSuccessor list i _ _ (canonical-IsAscending (a ∷ rest))
        (position_found t.current list i p) (choose_next_cyclic list a t.current i p))
