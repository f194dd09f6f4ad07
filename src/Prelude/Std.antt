-- ===== src/Prelude/Std.antt =====
-- `Iterator::min_by` and `slice::sort_by` of Rust's standard library, for a comparison given by its
-- test for `Greater`. `min_by` keeps the first of equal elements, and `sort_by` is stable.
use mathlib.Core.Path.{◌≡◌}
use mathlib.Core.Bool.{Bool, true, false}
use mathlib.Core.Logic.{inl, inr}
use mathlib.Core.Option.{Option, none, some}
use mathlib.Core.List.{List, [], ◌∷◌, Perm}
use mathlib.Core.List.Perm
use vortex_proxy.Prelude.Tests.{Bool-cases}
use vortex_proxy.Prelude.Lists.{All}

module _ {ℓ} {A : Type ℓ} (gt : A → A → Bool) where
  -- The fold of `min_by`: the element kept so far, against the next one.
  abbrev pub lesser : A → A → A
  lesser kept next = elim (gt kept next) [ true ↦ next | false ↦ kept ]

  unfoldable pub min_from : A → List A → A
  min_from kept [] = kept
  min_from kept (x ∷ xs) = min_from (lesser kept x) xs

  unfoldable pub min_by : List A → Option A
  unfolding min_from
  min_by [] = none
  min_by (x ∷ xs) = some (min_from x xs)

  unfoldable pub insert_by : A → List A → List A
  insert_by x [] = x ∷ []
  insert_by x (y ∷ ys) = elim (gt x y) [ true ↦ y ∷ insert_by x ys | false ↦ x ∷ y ∷ ys ]

  unfoldable pub sort_by : List A → List A
  unfolding insert_by
  sort_by [] = []
  sort_by (x ∷ xs) = insert_by x (sort_by xs)

  -- No element is greater than a later one.
  abbrev pub IsSorted : List A → Type ℓ
  IsSorted [] = Unit
  IsSorted (x ∷ xs) = All (λ y. gt x y ≡ false) xs × IsSorted xs

  insert_by-perm : (x : A) (xs : List A) → Perm (insert_by x xs) (x ∷ xs)
  unfolding insert_by
  insert_by-perm x [] = Perm.rfl
  insert_by-perm x (y ∷ ys) = elim (Bool-cases (gt x y)) [
    | inl e ↦ rw (e, insert_by) (Perm.trans (Perm.cons y (insert_by-perm x ys)) (Perm.swap x y ys))
    | inr e ↦ rw (e, insert_by) Perm.rfl
  ]

  -- Sorting rearranges.
  pub sort_by-perm : (xs : List A) → Perm (sort_by xs) xs
  unfolding sort_by
  sort_by-perm [] = Perm.rfl
  sort_by-perm (x ∷ xs) = Perm.trans (insert_by-perm x (sort_by xs)) (Perm.cons x (sort_by-perm xs))
