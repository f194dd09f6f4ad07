-- ===== src/Core/Routing.antt =====
-- vortex-core/src/domain/routing.rs, over a heap of backends. `A` is the crate arc_swap.
pub mod Candidates
pub mod Fallback
pub mod Swap
mod Tests
use vortex_proxy.Prelude.{
  ℕ, Bool, true, false, ◌&&◌, ◌||◌, Option, none, some, List, [], ◌∷◌, Text, text_eq, filter,
  min_by,
}
use vortex_proxy.Float.{Float, is_greater}
use vortex_proxy.Core.ArcSwap.{ArcSwap}
use vortex_proxy.Core.Ewma.{calculate_score}
use vortex_proxy.Core.Backend.{
  Backend, SharedBackend, Heap, is_healthy, AiMetadata, ModelFallbackConfig,
}

-- `Vec<String>::contains`
unfoldable pub contains : List Text → Text → Bool
contains [] model = false
contains (m ∷ ms) model = text_eq m model || contains ms model

module _ {ℓ} {F : Type ℓ} ⦃f : Float F⦄ (h : Heap F) where
  -- The comparison by score that every selection makes: `Greater` or not.
  unfoldable pub score_gt : SharedBackend → SharedBackend → Bool
  score_gt a b =
      is_greater (f.partial_cmp (calculate_score (h a).ewma) (calculate_score (h b).ewma))

  unfoldable pub serves : Text → SharedBackend → Bool
  unfolding contains is_healthy
  serves model b = is_healthy (h b) && contains (h b).ai_models model

  -- The filter and the minimum of `get_ai_backend`, for one model.
  unfoldable pub best_for : List SharedBackend → Text → Option SharedBackend
  unfolding serves
  best_for backends model = min_by score_gt (filter (serves model) backends)

  -- The loop over the fallback models; `none` when it runs to its end.
  unfoldable pub first_fallback : List SharedBackend → List Text → Option SharedBackend
  first_fallback backends [] = none
  first_fallback backends (m ∷ ms) =
      let rest = first_fallback backends ms in
      elim (best_for backends m) [ none ↦ rest | some b ↦ some b ]

module _ (A : ArcSwap (List SharedBackend)) where
  pub record RoutingTable : Type 0 where
    pub backends : A.Cell

  unfoldable pub new : List SharedBackend → RoutingTable
  new initial_backends = record { backends = A.from_pointee initial_backends }

  unfoldable pub update_backends : RoutingTable → List SharedBackend → RoutingTable
  update_backends t new_backends = record { backends = A.store t.backends new_backends }

  unfoldable pub snapshot : RoutingTable → List SharedBackend
  snapshot t = A.load t.backends

  module _ {ℓ} {F : Type ℓ} ⦃f : Float F⦄ (h : Heap F) where
    unfoldable pub get_best_backend : RoutingTable → Option SharedBackend
    unfolding is_healthy
    get_best_backend t = min_by (score_gt h) (filter (λ b. is_healthy (h b)) (A.load t.backends))

    unfoldable pub get_ai_backend :
        RoutingTable → AiMetadata → Option ModelFallbackConfig → Option SharedBackend
    get_ai_backend t metadata fallback_config =
        let guard = A.load t.backends in
        let best_primary = best_for h guard metadata.model in
        elim best_primary [
          | some b ↦ some b
          | none ↦ elim fallback_config [
            | none ↦ none
            | some fallback ↦ first_fallback h guard fallback.fallback_models
          ]
        ]
