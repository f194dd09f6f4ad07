-- ===== src/Prelude/Selection.antt =====
-- What `min_by` and `sort_by` find where the comparison is a total preorder on the elements.
use mathlib.Core.Path.{◌≡◌, refl, sym, subst}
use mathlib.Core.Bool.{Bool, true, false}
use mathlib.Core.Logic.{inl, inr, ◌↔◌}
use mathlib.Core.Option.{none, some}
use mathlib.Core.List.{List, [], ◌∷◌}
use vortex_proxy.Prelude.Tests.{Bool-cases}
use vortex_proxy.Prelude.Lists.{All, Has, of_All}
use vortex_proxy.Prelude.Std.{lesser, min_from, min_by}

module _ {A : Type 0} (gt : A → A → Bool) where
  -- The elements that `P` holds of are compared by a total preorder.
  pub record IsComparison {κ} (P : A → Type κ) : Type κ where
    pub asym : (a b : A) → P a → P b → gt a b ≡ true → gt b a ≡ false
    pub irrefl : (a : A) → P a → gt a a ≡ false
    pub trans : (a b c : A) → P a → P b → P c → gt a b ≡ false → gt b c ≡ false → gt a c ≡ false

  min_from-next :
      (kept x : A) (xs : List A) → gt kept x ≡ true → min_from gt kept (x ∷ xs) ≡ min_from gt x xs
  unfolding min_from
  min_from-next kept x xs e = rw (e, lesser)

  min_from-kept :
      (kept x : A) (xs : List A)
      → gt kept x ≡ false
      → min_from gt kept (x ∷ xs) ≡ min_from gt kept xs
  unfolding min_from
  min_from-kept kept x xs e = rw (e, lesser)

  min_from-Has : (kept : A) (xs : List A) → Has (min_from gt kept xs) (kept ∷ xs)
  unfolding min_from
  min_from-Has kept [] = inl refl
  min_from-Has kept (x ∷ xs) = elim (Bool-cases (gt kept x)) [
    | inl e ↦
        subst (λ m. Has m (kept ∷ x ∷ xs)) (sym (min_from-next kept x xs e))
          (inr (min_from-Has x xs))
    | inr e ↦
        subst (λ m. Has m (kept ∷ x ∷ xs)) (sym (min_from-kept kept x xs e))
          (elim (min_from-Has kept xs) [ inl m ↦ inl m | inr m ↦ inr (inr m) ])
  ]

  -- What `min_by` returns is in the list.
  pub min_by-Has : (xs : List A) {m : A} → min_by gt xs ≡ some m → Has m xs
  unfolding min_by
  min_by-Has [] e = cc
  min_by-Has (x ∷ xs) {m} e = subst (λ a. Has a (x ∷ xs)) (cc) (min_from-Has x xs)

  pub min_by-eq-none_iff : (xs : List A) → (min_by gt xs ≡ none) ↔ (xs ≡ [])
  unfolding min_by
  min_by-eq-none_iff [] = (λ _. refl, λ _. refl)
  min_by-eq-none_iff (x ∷ xs) = (λ h. cc, λ h. cc)

  module _ {κ} (P : A → Type κ) (order : IsComparison P) where
    open order use {asym, irrefl, trans}

    min_from-P : (kept : A) (xs : List A) → P kept → All P xs → P (min_from gt kept xs)
    min_from-P kept xs pk ps = of_All P (kept ∷ xs) (pk, ps) (min_from-Has kept xs)

    min_from-least :
        (kept : A) (xs : List A)
        → P kept
        → All P xs
        → All (λ y. gt (min_from gt kept xs) y ≡ false) (kept ∷ xs)
    unfolding min_from
    min_from-least kept [] pk ps = (irrefl kept pk, tt)
    min_from-least kept (x ∷ xs) pk (px, ps) = elim (Bool-cases (gt kept x)) [
      | inl e ↦
          let (lx, rest) = min_from-least x xs px ps in
          subst (λ m. All (λ y. gt m y ≡ false) (kept ∷ x ∷ xs)) (sym (min_from-next kept x xs e))
            (trans _ x kept (min_from-P x xs px ps) px pk lx (asym kept x pk px e), (lx, rest))
      | inr e ↦
          let (lk, rest) = min_from-least kept xs pk ps in
          subst (λ m. All (λ y. gt m y ≡ false) (kept ∷ x ∷ xs)) (sym (min_from-kept kept x xs e))
            (lk, (trans _ kept x (min_from-P kept xs pk ps) pk px lk e, rest))
    ]

    -- Nothing in the list is less than what `min_by` returns.
    pub min_by-least :
        (xs : List A) {m : A} → All P xs → min_by gt xs ≡ some m → All (λ y. gt m y ≡ false) xs
    unfolding min_by
    min_by-least [] ps e = tt
    min_by-least (x ∷ xs) {m} (px, ps) e =
        subst (λ a. All (λ y. gt a y ≡ false) (x ∷ xs)) (cc) (min_from-least x xs px ps)
