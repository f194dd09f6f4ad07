-- ===== src/Prelude/Sorting.antt =====
-- The order that `sort_by` makes, and its first element.
use mathlib.Core.Path.{◌≡◌, refl, ap, sym, ◌∙◌, subst}
use mathlib.Core.Bool.{Bool, false}
use mathlib.Core.Logic.{inl, inr}
use mathlib.Core.Option.{Option, none, some}
use mathlib.Core.List.{List, [], ◌∷◌}
use native.Mathlib.Omega.{arith}
use vortex_proxy.Prelude.Tests.{Bool-cases}
use vortex_proxy.Prelude.Lists.{All, head?}
use vortex_proxy.Prelude.Std.{lesser, min_from, min_by, insert_by, sort_by, IsSorted}
use vortex_proxy.Prelude.Selection.{IsComparison}

module _ {A : Type 0} (gt : A → A → Bool) where
  insert_by-All :
      (P : A → Type 0) (x : A) (xs : List A) → P x → All P xs → All P (insert_by gt x xs)
  unfolding insert_by
  insert_by-All P x [] px ps = (px, tt)
  insert_by-All P x (y ∷ ys) px (py, ps) = ground (arith, insert_by-All P x ys px ps)

  pub sort_by-All : (P : A → Type 0) (xs : List A) → All P xs → All P (sort_by gt xs)
  unfolding sort_by
  sort_by-All P [] ps = tt
  sort_by-All P (x ∷ xs) (px, ps) = insert_by-All P x (sort_by gt xs) px (sort_by-All P xs ps)

  front : A → Option A → A
  front x none = x
  front x (some s) = lesser gt x s

  head?-insert_by : (x : A) (xs : List A) → head? (insert_by gt x xs) ≡ some (front x (head? xs))
  unfolding insert_by front
  head?-insert_by x [] = refl
  head?-insert_by x (y ∷ ys) = ground arith

  module _ (P : A → Type 0) (order : IsComparison gt P) where
    open order use {asym, trans}

    lesser_assoc :
        (x y z : A) → P x → P y → P z → lesser gt (lesser gt x y) z ≡ lesser gt x (lesser gt y z)
    lesser_assoc x y z px py pz =
        ground (arith, trans x y z px py pz, trans x z y px pz py, asym y z py pz)

    front-lesser :
        (x y : A) (o : Option A)
        → P x
        → P y
        → ((s : A) → o ≡ some s → P s)
        → front (lesser gt x y) o ≡ lesser gt x (front y o)
    unfolding front
    front-lesser x y none px py ps = refl
    front-lesser x y (some s) px py ps = lesser_assoc x y s px py (ps s refl)

    lesser-P : (x y : A) → P x → P y → P (lesser gt x y)
    lesser-P x y px py = ground arith

    head?-All : (xs : List A) → All P xs → (s : A) → head? xs ≡ some s → P s
    head?-All [] ps s e = cc
    head?-All (x ∷ xs) (px, ps) s e = subst P (cc) px

    min_from-front :
        (x : A) (xs : List A) → P x → All P xs → min_from gt x xs ≡ front x (head? (sort_by gt xs))
    unfolding min_from front sort_by
    min_from-front x [] px ps = refl
    min_from-front x (y ∷ ys) px (py, ps) =
        min_from-front (lesser gt x y) ys (lesser-P x y px py) ps
        ∙ front-lesser x y (head? (sort_by gt ys)) px py
            (head?-All (sort_by gt ys) (sort_by-All P ys ps))
        ∙ sym (ap (front x) (head?-insert_by y (sort_by gt ys)))

    -- The least element that `min_by` picks is the one that a stable sort puts first.
    pub min_by-head? : (xs : List A) → All P xs → min_by gt xs ≡ head? (sort_by gt xs)
    unfolding min_by sort_by
    min_by-head? [] ps = refl
    min_by-head? (x ∷ xs) (px, ps) =
        ap some (min_from-front x xs px ps) ∙ sym (head?-insert_by x (sort_by gt xs))

    All-later :
        (x y : A) (ys : List A)
        → P x
        → P y
        → All P ys
        → gt x y ≡ false
        → All (λ z. gt y z ≡ false) ys
        → All (λ z. gt x z ≡ false) ys
    All-later x y [] px py ps e below = tt
    All-later x y (z ∷ zs) px py (pz, ps) e (b, below) =
        (trans x y z px py pz e b, All-later x y zs px py ps e below)

    insert_by-IsSorted :
        (x : A) (xs : List A) → P x → All P xs → IsSorted gt xs → IsSorted gt (insert_by gt x xs)
    unfolding insert_by
    insert_by-IsSorted x [] px ps s = (tt, tt)
    insert_by-IsSorted x (y ∷ ys) px (py, ps) (below, s) = elim (Bool-cases (gt x y)) [
      | inl e ↦
          rw (e, insert_by)
            (
              insert_by-All (λ a. gt y a ≡ false) x ys (asym x y px py e) below,
              insert_by-IsSorted x ys px ps s,
            )
      | inr e ↦ rw (e, insert_by) ((e, All-later x y ys px py ps e below), (below, s))
    ]

    -- The result is ascending.
    pub sort_by-IsSorted : (xs : List A) → All P xs → IsSorted gt (sort_by gt xs)
    unfolding sort_by
    sort_by-IsSorted [] ps = tt
    sort_by-IsSorted (x ∷ xs) (px, ps) =
        insert_by-IsSorted x (sort_by gt xs) px (sort_by-All P xs ps) (sort_by-IsSorted xs ps)
