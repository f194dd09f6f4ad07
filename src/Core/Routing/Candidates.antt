-- ===== src/Core/Routing/Candidates.antt =====
-- The order by score that the selections of routing.rs and selector.rs share.
use mathlib.Core.Bool.{false≢true}
use vortex_proxy.Prelude.{
  inl, inr, Bool-cases, ℕ, ◌≡◌, sym, ◌∙◌, Bool, true, false, not, List, arith, All, Has, filter,
  some, none, min_by, IsComparison, Option, Option-cases, min_by-Has, min_by-least, of_All, to_All,
  Has-filter, filter-nil, filter_none, Has-filter_of, ◌↔◌, min_by-eq-none_iff,
}
use vortex_proxy.Float.{Float, ◌≼◌, IsOrdered}
use vortex_proxy.Core.Ewma.{calculate_score}
use vortex_proxy.Core.Backend.{SharedBackend, Heap}
use vortex_proxy.Core.Routing.{score_gt}

not-false : (b : Bool) → not b ≡ false → b ≡ true
not-false b h = ground arith

false-not : (b : Bool) → b ≡ true → not b ≡ false
false-not b h = ground arith

not-true : (b : Bool) → not b ≡ true → b ≡ false
not-true b h = ground arith

module _ {ℓ} {F : Type ℓ} ⦃f : Float F⦄ (laws : IsOrdered F) (h : Heap F) where
  open laws use {IsAmount, le_refl, le_trans, gt-eq-not-le, le_of_not_le, is_greater-partial_cmp}

  abbrev pub score : SharedBackend → F
  score b = calculate_score (h b).ewma

  -- The score is a number: no NaN and not infinite.
  abbrev pub IsScored : SharedBackend → Type 0
  IsScored b = IsAmount (score b)

  score_gt-eq-not-le :
      (a b : SharedBackend)
      → IsScored a
      → IsScored b
      → score_gt h a b ≡ not (f.le (score a) (score b))
  unfolding score_gt
  score_gt-eq-not-le a b sa sb =
      is_greater-partial_cmp (score a) (score b) ∙ gt-eq-not-le (score a) (score b) sa sb

  pub le_of_not_score_gt :
      (a b : SharedBackend) → IsScored a → IsScored b → score_gt h a b ≡ false → score a ≼ score b
  le_of_not_score_gt a b sa sb e = not-false _ (sym (score_gt-eq-not-le a b sa sb) ∙ e)

  not_score_gt_of_le :
      (a b : SharedBackend) → IsScored a → IsScored b → score a ≼ score b → score_gt h a b ≡ false
  not_score_gt_of_le a b sa sb e = score_gt-eq-not-le a b sa sb ∙ false-not _ e

  pub score_gt-IsComparison : IsComparison (score_gt h) IsScored
  score_gt-IsComparison = record {
    asym = λ a b sa sb e. not_score_gt_of_le b a sb sa (
        le_of_not_le (score a) (score b) sa sb
          (not-true _ (sym (score_gt-eq-not-le a b sa sb) ∙ e)));
    irrefl = λ a sa. not_score_gt_of_le a a sa sa (le_refl (score a) sa);
    trans = λ a b c sa sb sc p q.
        not_score_gt_of_le a c sa sc
          (le_trans _ _ _ (le_of_not_score_gt a b sa sb p) (le_of_not_score_gt b c sb sc q));
  }

  -- `b` is one of the usable backends, and none of those has a lower score.
  pub record IsBest (Usable : SharedBackend → Type 0) (backends : List SharedBackend)
      (b : SharedBackend) : Type 0 where
    pub listed : Has b backends
    pub usable : Usable b
    pub least : (c : SharedBackend) → Has c backends → Usable c → score b ≼ score c

  pub filter-All :
      (test : SharedBackend → Bool) (backends : List SharedBackend)
      → All IsScored backends
      → All IsScored (filter test backends)
  filter-All test backends scored =
      to_All IsScored (filter test backends)
        (λ a m. of_All IsScored backends scored (Has-filter test backends m).0)

  pub min_by-IsBest :
      (Usable : SharedBackend → Type 0) (test : SharedBackend → Bool)
      (backends : List SharedBackend)
      → ((c : SharedBackend) → (test c ≡ true) ↔ Usable c)
      → All IsScored backends
      → {b : SharedBackend} → min_by (score_gt h) (filter test backends) ≡ some b
      → IsBest Usable backends b
  min_by-IsBest Usable test backends decides scored {b} e = record {
    listed = (Has-filter test backends found).0;
    usable = (decides b).0 (Has-filter test backends found).1;
    least = λ c m u.
        le_of_not_score_gt b c (of_All IsScored backends scored (Has-filter test backends found).0)
          (of_All IsScored backends scored m)
          (of_All (λ y. score_gt h b y ≡ false) (filter test backends)
            (min_by-least (score_gt h) IsScored score_gt-IsComparison (filter test backends)
              (filter-All test backends scored) e)
            (Has-filter_of test backends ((decides c).1 u) m));
  }
    where
      found : Has b (filter test backends)
      found = min_by-Has (score_gt h) (filter test backends) e

-- Nothing is selected exactly when no backend is usable.
pub min_by-filter-none_iff :
    (Usable : ℕ → Type 0) (gt : ℕ → ℕ → Bool) (test : ℕ → Bool) (backends : List ℕ)
    → ((c : ℕ) → (test c ≡ true) ↔ Usable c)
    → (min_by gt (filter test backends) ≡ none) ↔ ((c : ℕ) → Has c backends → ¬ Usable c)
min_by-filter-none_iff Usable gt test backends decides = (
  λ e c m u. false≢true (
      sym (filter-nil test backends ((min_by-eq-none_iff gt (filter test backends)).0 e) c m)
      ∙ (decides c).1 u),
  λ h. (min_by-eq-none_iff gt (filter test backends)).1 (
      filter_none test backends (λ c m. elim (Bool-cases (test c)) [
        | inl p ↦ absurd (h c m ((decides c).0 p))
        | inr p ↦ p
      ])),
)

module _ {ℓ} {F : Type ℓ} ⦃f : Float F⦄ (laws : IsOrdered F) (h : Heap F) where
  -- What a selection may return: a best usable backend, or nothing where none is usable.
  abbrev pub IsChoice :
      (Usable : SharedBackend → Type 0) → List SharedBackend → Option SharedBackend → Type 0
  IsChoice Usable backends none = All (λ c. ¬ Usable c) backends
  IsChoice Usable backends (some b) = IsBest laws h Usable backends b

  pub min_by-IsChoice :
      (Usable : SharedBackend → Type 0) (test : SharedBackend → Bool)
      (backends : List SharedBackend)
      → ((c : SharedBackend) → (test c ≡ true) ↔ Usable c)
      → All (IsScored laws h) backends
      → IsChoice Usable backends (min_by (score_gt h) (filter test backends))
  min_by-IsChoice Usable test backends decides scored =
      elim (Option-cases (min_by (score_gt h) (filter test backends))) [
        | inl e ↦ rw e (
            to_All _ backends
              ((min_by-filter-none_iff Usable (score_gt h) test backends decides).0 e))
        | inr (b, e) ↦ rw e (min_by-IsBest laws h Usable test backends decides scored e)
      ]
