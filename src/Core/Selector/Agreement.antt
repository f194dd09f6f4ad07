-- ===== src/Core/Selector/Agreement.antt =====
-- `get_best_backend` of routing.rs beside `select_best_backend` of selector.rs.
use vortex_proxy.Prelude.{ℕ, ◌≡◌, true, List, [], ◌∷◌, arith, none, some, min_by}
use vortex_proxy.Float.{Float}
use vortex_proxy.Core.ArcSwap.{ArcSwap}
use vortex_proxy.Core.Backend.{SharedBackend, Heap, is_healthy}
use vortex_proxy.Core.CircuitBreaker.{open_circuit, state}
use vortex_proxy.Core.Routing.{RoutingTable, snapshot, get_best_backend}
use vortex_proxy.Core.Selector.{is_eligible, select_best_backend}

module _ {ℓ} (A : ArcSwap (List SharedBackend)) {F : Type ℓ} ⦃f : Float F⦄ (h : Heap F)
    (now : ℕ) where
  -- For a table of one healthy backend with an open circuit, `select_best_backend` returns nothing
  -- and `get_best_backend` returns the backend.
  pub get_best_backend-bypass :
      (t : RoutingTable A) (b : SharedBackend)
      → snapshot A t ≡ b ∷ []
      → is_healthy (h b) ≡ true
      → state (h b).circuit_breaker now ≡ open_circuit
      → (get_best_backend A h t ≡ some b) × (select_best_backend A h now t ≡ none)
  unfolding get_best_backend select_best_backend is_eligible min_by
  get_best_backend-bypass t b alone healthy opened =
      (rw alone (ground arith), rw alone (ground arith))
