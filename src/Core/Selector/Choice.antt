-- ===== src/Core/Selector/Choice.antt =====
-- What the two functions of selector.rs return.
use vortex_proxy.Prelude.{
  Has, some, min_by-Has, Has-filter, sort_by-All, ℕ, ◌≡◌, ◌≢◌, refl, true, false, List, [], ◌∷◌,
  arith, All, ◌↔◌, filter, head?, sort_by, IsSorted, sort_by-perm, sort_by-IsSorted, min_by-head?,
  to_All, of_All,
}
use mathlib.Core.List.{Perm}
use vortex_proxy.Float.{Float, IsOrdered, ◌≼◌}
use vortex_proxy.Core.ArcSwap.{ArcSwap}
use vortex_proxy.Core.Backend.{SharedBackend, Heap, is_healthy}
use vortex_proxy.Core.CircuitBreaker.{CircuitState, closed, open_circuit, half_open, state}
use vortex_proxy.Core.Routing.{RoutingTable, snapshot, score_gt}
use vortex_proxy.Core.Routing.Candidates.{
  IsScored, IsChoice, min_by-IsChoice, score_gt-IsComparison, filter-All, score, le_of_not_score_gt,
}
use vortex_proxy.Core.Selector.{
  is_not_open, is_eligible, select_best_backend, select_healthy_backends,
}

pub is_not_open_iff : (s : CircuitState) → (is_not_open s ≡ true) ↔ (s ≢ open_circuit)
is_not_open_iff closed = (λ _ e. cc, λ _. refl)
is_not_open_iff open_circuit = (λ e _. cc, λ n. absurd (n refl))
is_not_open_iff half_open = (λ _ e. cc, λ _. refl)

module _ {ℓ} {F : Type ℓ} (h : Heap F) (now : ℕ) where
  -- A backend that a request may be sent to.
  abbrev pub IsUsable : SharedBackend → Type 0
  IsUsable b = (is_healthy (h b) ≡ true) × (state (h b).circuit_breaker now ≢ open_circuit)

  is_eligible_iff : (b : SharedBackend) → (is_eligible h now b ≡ true) ↔ IsUsable b
  unfolding is_eligible
  is_eligible_iff b = (
    λ e. (ground arith, (is_not_open_iff (state (h b).circuit_breaker now)).0 (ground arith)),
    λ (p, q). ground (arith, (is_not_open_iff (state (h b).circuit_breaker now)).1 q),
  )

module _ {ℓ} {F : Type ℓ} ⦃f : Float F⦄ (laws : IsOrdered F) (h : Heap F) where
  abbrev pub IsAscending : List SharedBackend → Type 0
  IsAscending [] = Unit
  IsAscending (x ∷ xs) = All (λ y. score laws h x ≼ score laws h y) xs × IsAscending xs

  IsAscending-of_IsSorted :
      (bs : List SharedBackend)
      → All (IsScored laws h) bs
      → IsSorted (score_gt h) bs
      → IsAscending bs
  IsAscending-of_IsSorted [] scored s = tt
  IsAscending-of_IsSorted (b ∷ bs) (sb, scored) (below, s) = (
    to_All _ bs λ c m.
        le_of_not_score_gt laws h b c sb (of_All (IsScored laws h) bs scored m)
          (of_All (λ y. score_gt h b y ≡ false) bs below m),
    IsAscending-of_IsSorted bs scored s,
  )

module _ {ℓ} (A : ArcSwap (List SharedBackend)) {F : Type ℓ} ⦃f : Float F⦄ (h : Heap F)
    (now : ℕ) where
  module _ (laws : IsOrdered F) (t : RoutingTable A)
      (scored : All (IsScored laws h) (snapshot A t)) where
    -- A selected backend is in the table, healthy, and not behind an open circuit, and no other such
    -- backend has a lower score; and one is selected whenever there is such a backend at all. (The
    -- scores are numbers.)
    pub select_best_backend-IsChoice :
        IsChoice laws h (IsUsable h now) (snapshot A t) (select_best_backend A h now t)
    unfolding select_best_backend
    select_best_backend-IsChoice =
        min_by-IsChoice laws h (IsUsable h now) (is_eligible h now) (snapshot A t)
          (is_eligible_iff h now) scored

    -- The backend that `select_best_backend` picks is the one that `select_healthy_backends` puts
    -- first, also where scores are equal. (The scores are numbers.)
    pub select_best-head? :
        select_best_backend A h now t ≡ head? (select_healthy_backends A h now t)
    unfolding select_best_backend select_healthy_backends
    select_best-head? =
        min_by-head? (score_gt h) (IsScored laws h) (score_gt-IsComparison laws h)
          (filter (is_eligible h now) (snapshot A t))
          (filter-All laws h (is_eligible h now) (snapshot A t) scored)

    -- `select_healthy_backends` returns the usable backends of the table, each as often as it is
    -- listed, in the order of their scores. (The scores are numbers.)
    pub select_healthy_backends-sorted :
        Perm (select_healthy_backends A h now t) (filter (is_eligible h now) (snapshot A t))
        × IsAscending laws h (select_healthy_backends A h now t)
        × ((b : SharedBackend) → (is_eligible h now b ≡ true) ↔ IsUsable h now b)
    unfolding select_healthy_backends
    select_healthy_backends-sorted =
        let eligible = filter (is_eligible h now) (snapshot A t) in
        let kept = filter-All laws h (is_eligible h now) (snapshot A t) scored in
        (
          sort_by-perm (score_gt h) eligible,
          IsAscending-of_IsSorted laws h (sort_by (score_gt h) eligible)
              (sort_by-All (score_gt h) (IsScored laws h) eligible kept)
              (sort_by-IsSorted (score_gt h) (IsScored laws h) (score_gt-IsComparison laws h)
                eligible kept),
          (is_eligible_iff h now),
        )

  -- Also where scores are not numbers, what is selected is in the table and may be used.
  pub select_best_backend-IsUsable :
      (t : RoutingTable A) {b : SharedBackend}
      → select_best_backend A h now t ≡ some b
      → Has b (snapshot A t) × IsUsable h now b
  unfolding select_best_backend
  select_best_backend-IsUsable t e =
      let (there, passes) =
        Has-filter (is_eligible h now) (snapshot A t) (min_by-Has (score_gt h) _ e) in
      (there, (is_eligible_iff h now _).0 passes)
