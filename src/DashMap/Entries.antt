-- ===== src/DashMap/Entries.antt =====
-- Lists of entries, and what `retain` does to one.
use mathlib.Core.Logic.{ite}
use vortex_proxy.Prelude.{
  ◌≡◌, ◌≢◌, refl, Bool, Option, none, some, List, [], ◌∷◌, arith, if◌then◌else◌,
}

module _ {K V : Type 0} where
  abbrev pub Lacks : K → List (K × V) → Type 0
  Lacks k [] = Unit
  Lacks k ((j, v) ∷ l) = (j ≢ k) × Lacks k l

  -- No key twice.
  abbrev pub IsDistinct : List (K × V) → Type 0
  IsDistinct [] = Unit
  IsDistinct ((k, v) ∷ l) = Lacks k l × IsDistinct l

-- The entries that the closure keeps, and the state that it leaves.
abbrev pub retain_entries :
    {K V S : Type 0} → (K → V → S → Bool × S) → List (K × V) → S → List (K × V) × S
retain_entries f [] s = ([], s)
retain_entries f ((k, v) ∷ l) s =
    let (keep, s') = f k v s in
    let (rest, s'') = retain_entries f l s' in (if keep then (k, v) ∷ rest else rest, s'')

module _ {K V : Type 0} (dec : Discrete K) where
  abbrev pub find : K → List (K × V) → Option V
  find k [] = none
  find k ((j, v) ∷ l) = ite (dec j k) (some v) (find k l)

  abbrev pub without : K → List (K × V) → List (K × V)
  without k [] = []
  without k ((j, v) ∷ l) = ite (dec j k) (without k l) ((j, v) ∷ without k l)

  pub find-without_self : (k : K) (l : List (K × V)) → find k (without k l) ≡ none
  find-without_self k [] = refl
  find-without_self k ((j, v) ∷ l) = ground (arith, find-without_self k l)

  pub find-without_ne : (k q : K) (l : List (K × V)) → q ≢ k → find q (without k l) ≡ find q l
  find-without_ne k q [] n = refl
  find-without_ne k q ((j, v) ∷ l) n = ground (arith, find-without_ne k q l)

  pub find-Lacks : (k : K) (l : List (K × V)) → Lacks k l → find k l ≡ none
  find-Lacks k [] h = refl
  find-Lacks k ((j, v) ∷ l) (n, h) = ground (arith, find-Lacks k l h)

  pub Lacks-without_self : (k : K) (l : List (K × V)) → Lacks k (without k l)
  Lacks-without_self k [] = tt
  Lacks-without_self k ((j, v) ∷ l) = ground (arith, Lacks-without_self k l)

  pub Lacks-without : (k q : K) (l : List (K × V)) → Lacks q l → Lacks q (without k l)
  Lacks-without k q [] h = tt
  Lacks-without k q ((j, v) ∷ l) (n, h) = ground (arith, Lacks-without k q l h)

  pub without-IsDistinct : (k : K) (l : List (K × V)) → IsDistinct l → IsDistinct (without k l)
  without-IsDistinct k [] d = tt
  without-IsDistinct k ((j, v) ∷ l) (h, d) =
      ground (arith, without-IsDistinct k l d, Lacks-without k j l h)

module _ {K V S : Type 0} (f : K → V → S → Bool × S) where
  pub Lacks-retain_entries :
      (k : K) (l : List (K × V)) (s : S) → Lacks k l → Lacks k (retain_entries f l s).0
  Lacks-retain_entries k [] s h = tt
  Lacks-retain_entries k ((j, v) ∷ l) s (n, h) =
      ground (arith, Lacks-retain_entries k l (f j v s).1 h)

  pub retain_entries-IsDistinct :
      (l : List (K × V)) (s : S) → IsDistinct l → IsDistinct (retain_entries f l s).0
  retain_entries-IsDistinct [] s d = tt
  retain_entries-IsDistinct ((j, v) ∷ l) s (h, d) =
      ground
        (arith, retain_entries-IsDistinct l (f j v s).1 d, Lacks-retain_entries j l (f j v s).1 h)
