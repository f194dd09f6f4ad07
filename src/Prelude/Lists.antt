-- ===== src/Prelude/Lists.antt =====
-- Lists measured by native numbers, and predicates over their elements by recursion.
use Prim.Native.Nat.{ℕ, suc, ◌+◌}
use mathlib.Core.Path.{◌≡◌, refl, sym, ap, subst, ◌∙◌}
use mathlib.Core.Bool.{Bool, true, false}
use mathlib.Core.Logic.{◌⊎◌, inl, inr}
use mathlib.Core.Option.{Option, none, some}
use vortex_proxy.Prelude.Tests.{Bool-cases}
use mathlib.Core.List.{List, [], ◌∷◌, ◌++◌}
use native.Mathlib.Omega.{arith}

module _ {ℓ} {A : Type ℓ} where
  abbrev pub length : List A → ℕ
  length [] = 0
  length (x ∷ xs) = suc (length xs)

  pub length-append : (xs ys : List A) → length (xs ++ ys) ≡ length xs + length ys
  length-append [] ys = omega arith
  length-append (x ∷ xs) ys = omega (arith, length-append xs ys)

module _ {ℓ κ} {A : Type ℓ} (P : A → Type κ) where
  abbrev pub All : List A → Type κ
  All [] = Unit
  All (x ∷ xs) = P x × All xs

  pub All-append : (xs ys : List A) → All xs → All ys → All (xs ++ ys)
  All-append [] ys _ hy = hy
  All-append (x ∷ xs) ys (px, hx) hy = (px, All-append xs ys hx hy)

  pub All-of : ((x : A) → P x) → (xs : List A) → All xs
  All-of h [] = tt
  All-of h (x ∷ xs) = (h x, All-of h xs)

module _ {ℓ} {A : Type ℓ} where
  -- `Iterator::filter`, by a test.
  abbrev pub filter : (A → Bool) → List A → List A
  filter p [] = []
  filter p (x ∷ xs) = elim (p x) [ true ↦ x ∷ filter p xs | false ↦ filter p xs ]

  abbrev pub head? : List A → Option A
  head? [] = none
  head? (x ∷ xs) = some x

module _ {A : Type 0} where
  -- Membership, with the place kept.
  abbrev pub Has : A → List A → Type 0
  Has a [] = ⊥
  Has a (x ∷ xs) = (a ≡ x) ⊎ Has a xs

  pub Has-filter :
      (p : A → Bool) {a : A} (xs : List A) → Has a (filter p xs) → Has a xs × (p a ≡ true)
  Has-filter p [] h = absurd h
  Has-filter p {a} (x ∷ xs) h = elim (Bool-cases (p x)) [
    | inl e ↦ elim (rw (e, filter) at h) [
      | inl here ↦ (inl here, ap p here ∙ e)
      | inr there ↦ let (m, q) = Has-filter p xs there in (inr m, q)
    ]
    | inr e ↦ let (m, q) = Has-filter p xs (rw (e, filter) at h) in (inr m, q)
  ]

  pub Has-filter_of :
      (p : A → Bool) {a : A} (xs : List A) → p a ≡ true → Has a xs → Has a (filter p xs)
  Has-filter_of p [] q h = absurd h
  Has-filter_of p {a} (x ∷ xs) q (inl here) = rw (sym (ap p here) ∙ q, filter) (inl here)
  Has-filter_of p {a} (x ∷ xs) q (inr there) = elim (Bool-cases (p x)) [
    | inl e ↦ rw (e, filter) (inr (Has-filter_of p xs q there))
    | inr e ↦ rw (e, filter) (Has-filter_of p xs q there)
  ]

module _ {A : Type 0} (p : A → Bool) where
  pub filter-nil : (xs : List A) → filter p xs ≡ [] → (a : A) → Has a xs → p a ≡ false
  filter-nil xs e a m = elim (Bool-cases (p a)) [
    | inl q ↦ absurd (subst (Has a) e (Has-filter_of p xs q m))
    | inr q ↦ q
  ]

  pub filter_none : (xs : List A) → ((a : A) → Has a xs → p a ≡ false) → filter p xs ≡ []
  filter_none [] h = refl
  filter_none (x ∷ xs) h = rw (h x (inl refl), filter) (filter_none xs (λ a m. h a (inr m)))

pub filter_congr :
    {A : Type 0} (p q : A → Bool) (xs : List A)
    → ((a : A) → Has a xs → p a ≡ q a)
    → filter p xs ≡ filter q xs
filter_congr p q [] h = refl
filter_congr p q (x ∷ xs) h =
    ground (arith, h x (inl refl), filter_congr p q xs (λ a m. h a (inr m)))

module _ {κ} {A : Type 0} (P : A → Type κ) where
  pub of_All : {a : A} (xs : List A) → All P xs → Has a xs → P a
  of_All [] all h = absurd h
  of_All (x ∷ xs) (px, all) (inl e) = subst P (sym e) px
  of_All (x ∷ xs) (px, all) (inr m) = of_All xs all m

  pub to_All : (xs : List A) → ((a : A) → Has a xs → P a) → All P xs
  to_All [] h = tt
  to_All (x ∷ xs) h = (h x (inl refl), to_All xs (λ a m. h a (inr m)))
