-- ===== src/Prelude/Places.antt =====
-- Places of a list, and a number summed over its elements.
use Prim.Native.Nat.{ℕ, zero, suc, ◌+◌}
use mathlib.Core.Path.{◌≡◌, refl, subst}
use mathlib.Core.Option.{Option, none, some}
use mathlib.Core.List.{List, [], ◌∷◌, ◌++◌}
use native.Mathlib.Omega.{arith}
use vortex_proxy.Prelude.Lists.{length, All}

module _ {ℓ} {A : Type ℓ} where
  abbrev pub get_elem? : List A → ℕ → Option A
  get_elem? [] i = none
  get_elem? (x ∷ xs) zero = some x
  get_elem? (x ∷ xs) (suc i) = get_elem? xs i

  -- A write out of bounds changes nothing.
  abbrev pub set : List A → ℕ → A → List A
  set [] i v = []
  set (x ∷ xs) zero v = v ∷ xs
  set (x ∷ xs) (suc i) v = x ∷ set xs i v

  pub length-set : (xs : List A) (i : ℕ) (v : A) → length (set xs i v) ≡ length xs
  length-set [] i v = omega arith
  length-set (x ∷ xs) zero v = omega arith
  length-set (x ∷ xs) (suc i) v = omega (arith, length-set xs i v)

module _ {ℓ} {A : Type ℓ} (w : A → ℕ) where
  abbrev pub total : List A → ℕ
  total [] = 0
  total (x ∷ xs) = w x + total xs

  pub total-append : (xs ys : List A) → total (xs ++ ys) ≡ total xs + total ys
  total-append [] ys = omega arith
  total-append (x ∷ xs) ys = omega (arith, total-append xs ys)

  pub total-set :
      (xs : List A) (i : ℕ) (v : A) {x : A}
      → get_elem? xs i ≡ some x
      → total (set xs i v) + w x ≡ total xs + w v
  total-set [] i v e = cc
  total-set (x ∷ xs) zero v e = ground (arith, e)
  total-set (x ∷ xs) (suc i) v e = omega (arith, total-set xs i v e)

module _ {ℓ κ} {A : Type ℓ} (P : A → Type κ) where
  pub All-set : (xs : List A) (i : ℕ) (v : A) → All P xs → P v → All P (set xs i v)
  All-set [] i v h p = h
  All-set (x ∷ xs) zero v (q, h) p = (p, h)
  All-set (x ∷ xs) (suc i) v (q, h) p = (q, All-set xs i v h p)

  pub All-get_elem? : (xs : List A) (i : ℕ) {x : A} → get_elem? xs i ≡ some x → All P xs → P x
  All-get_elem? [] i e h = cc
  All-get_elem? (y ∷ xs) zero e (p, h) = subst P (ground (arith, e)) p
  All-get_elem? (y ∷ xs) (suc i) e (p, h) = All-get_elem? xs i e h

  pub All-mono : (Q : A → Type κ) (xs : List A) → ((x : A) → P x → Q x) → All P xs → All Q xs
  All-mono Q [] f h = h
  All-mono Q (x ∷ xs) f (p, h) = (f x p, All-mono Q xs f h)

  -- Elements that count nothing count nothing in all.
  pub total_none : (w : A → ℕ) (xs : List A) → ((x : A) → P x → w x ≡ 0) → All P xs → total w xs ≡ 0
  total_none w [] f h = omega arith
  total_none w (x ∷ xs) f (p, h) = omega (arith, f x p, total_none w xs f h)

module _ {ℓ} {A : Type ℓ} where
  pub get_elem?-append :
      (xs : List A) (y : A) (i : ℕ) {x : A}
      → get_elem? xs i ≡ some x
      → get_elem? (xs ++ y ∷ []) i ≡ some x
  get_elem?-append [] y i e = cc
  get_elem?-append (x ∷ xs) y zero e = e
  get_elem?-append (x ∷ xs) y (suc i) e = get_elem?-append xs y i e

  pub get_elem?-set :
      (xs : List A) (i : ℕ) (v : A) {x : A}
      → get_elem? xs i ≡ some x
      → get_elem? (set xs i v) i ≡ some v
  get_elem?-set [] i v e = cc
  get_elem?-set (x ∷ xs) zero v e = refl
  get_elem?-set (x ∷ xs) (suc i) v e = get_elem?-set xs i v e

  pub get_elem?-length :
      (xs : List A) (y : A)
      → (get_elem? xs (length xs) ≡ none) × (get_elem? (xs ++ y ∷ []) (length xs) ≡ some y)
  get_elem?-length [] y = (refl, refl)
  get_elem?-length (x ∷ xs) y = get_elem?-length xs y
