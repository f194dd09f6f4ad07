-- ===== src/Core/Selector.antt =====
-- vortex-core/src/load_balancer/selector.rs. One reading of the clock, `now`, serves a whole
-- selection.
pub mod Choice
pub mod Agreement
mod Tests
use vortex_proxy.Prelude.{ℕ, Bool, true, false, ◌&&◌, Option, List, filter, min_by, sort_by}
use vortex_proxy.Float.{Float}
use vortex_proxy.Core.ArcSwap.{ArcSwap}
use vortex_proxy.Core.CircuitBreaker.{CircuitState, closed, open_circuit, half_open, state}
use vortex_proxy.Core.Backend.{SharedBackend, Heap, is_healthy}
use vortex_proxy.Core.Routing.{RoutingTable, snapshot, score_gt}

-- `state != CircuitState::Open`
abbrev pub is_not_open : CircuitState → Bool
is_not_open closed = true
is_not_open open_circuit = false
is_not_open half_open = true

module _ {ℓ} {F : Type ℓ} (h : Heap F) (now : ℕ) where
  -- The filter of both functions.
  unfoldable pub is_eligible : SharedBackend → Bool
  unfolding is_healthy state
  is_eligible b = is_healthy (h b) && is_not_open (state (h b).circuit_breaker now)

module _ {ℓ} (A : ArcSwap (List SharedBackend)) {F : Type ℓ} ⦃f : Float F⦄ (h : Heap F)
    (now : ℕ) where
  unfoldable pub select_best_backend : RoutingTable A → Option SharedBackend
  unfolding is_eligible snapshot
  select_best_backend t = min_by (score_gt h) (filter (is_eligible h now) (snapshot A t))

  unfoldable pub select_healthy_backends : RoutingTable A → List SharedBackend
  unfolding is_eligible snapshot
  select_healthy_backends t = sort_by (score_gt h) (filter (is_eligible h now) (snapshot A t))
