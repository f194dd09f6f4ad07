-- ===== src/Core/Routing/Swap.antt =====
-- Hot reloads of the table of routing.rs.
use vortex_proxy.Prelude.{◌≡◌, true, List, [], ◌∷◌, All}
use vortex_proxy.Float.{Float, IsOrdered}
use vortex_proxy.Core.ArcSwap.{ArcSwap}
use vortex_proxy.Core.Backend.{SharedBackend, Heap, is_healthy}
use vortex_proxy.Core.Routing.{RoutingTable, update_backends, get_best_backend}
use vortex_proxy.Core.Routing.Candidates.{IsScored, IsChoice, min_by-IsChoice}

abbrev pub IsHealthy {ℓ} : {F : Type ℓ} → Heap F → SharedBackend → Type 0
IsHealthy h b = is_healthy (h b) ≡ true

-- The table after any number of reloads, the latest first.
abbrev pub reloaded :
    (A : ArcSwap (List SharedBackend)) → RoutingTable A → List (List SharedBackend) → RoutingTable A
reloaded A t [] = t
reloaded A t (bs ∷ reloads) = update_backends A (reloaded A t reloads) bs

module _ {ℓ} (A : ArcSwap (List SharedBackend)) {F : Type ℓ} ⦃f : Float F⦄ (h : Heap F) where
  -- After any reloads, `get_best_backend` chooses from the latest set of backends alone: what it
  -- returns is in that set, healthy, and of least score among the healthy ones of the set; it returns
  -- nothing exactly when none of the set is healthy. (The scores are numbers.)
  pub get_best_backend-reloaded :
      (laws : IsOrdered F) (t : RoutingTable A) (bs : List SharedBackend)
      (earlier : List (List SharedBackend))
      → All (IsScored laws h) bs
      → IsChoice laws h (IsHealthy h) bs (get_best_backend A h (reloaded A t (bs ∷ earlier)))
  unfolding get_best_backend update_backends
  get_best_backend-reloaded laws t bs earlier scored = rw A.load-store (
      min_by-IsChoice laws h (IsHealthy h) (λ c. is_healthy (h c)) bs (λ c. (λ p. p, λ p. p))
        scored)
