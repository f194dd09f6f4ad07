-- ===== src/Core/Routing/Tests.antt =====
-- The theorems on routing.rs at a concrete heap: backend 1 is at 200 ms, backend 2 at 20 ms and 3 is down.
use vortex_proxy.Prelude.{
  Text, ◌≡◌, refl, [], ◌∷◌, bytes, some, none, Option, text_eq, text_gt, sort_by, min_by,
}
use vortex_proxy.Float.Fraction.{fraction_float, fraction_laws}
use vortex_proxy.Core.Fleet.{cells, fleet, table}
use vortex_proxy.Core.Ewma
use vortex_proxy.Core.Backend
use vortex_proxy.Core.Backend.{
  Backend, SharedBackend, Heap, AiMetadata, ModelFallbackConfig, is_healthy,
}
use vortex_proxy.Core.Routing.{
  new, update_backends, snapshot, contains, score_gt, serves, best_for, first_fallback,
  get_best_backend, get_ai_backend,
}
use vortex_proxy.Core.Routing.Fallback.{Answers, get_ai_backend-Answers}

program : Unit {0}
unfolding Backend.new Backend.with_models Backend.set_healthy is_healthy Ewma.new
    Ewma.observe_latency Ewma.calculate_score sort_by text_gt text_eq min_by score_gt contains
    serves best_for first_fallback new update_backends snapshot get_best_backend get_ai_backend
program = tt

best : get_best_backend cells fleet table ≡ some 2
unfolding program
best = refl

models_sorted : (fleet 2).ai_models ≡ bytes "gpt-4" ∷ bytes "llama" ∷ []
unfolding program
models_sorted = refl

abbrev for_model : Text → AiMetadata
for_model m = record { model = m; estimated_tokens = 10; semantic_hash = none }

abbrev to_llama : Option ModelFallbackConfig
to_llama =
    some (record {
      primary_model = bytes "claude";
      fallback_models = bytes "opus" ∷ bytes "llama" ∷ [];
    })

falls_back :
    (get_ai_backend cells fleet table (for_model (bytes "claude")) to_llama ≡ some 2)
    × (get_ai_backend cells fleet table (for_model (bytes "claude")) none ≡ none)
unfolding program
falls_back = (refl, refl)

get_ai_backend-Answers_example :
    Answers fraction_laws fleet
      (snapshot cells table)
      (bytes "claude" ∷ bytes "opus" ∷ bytes "llama" ∷ [])
      (get_ai_backend cells fleet table (for_model (bytes "claude")) to_llama)
unfolding snapshot
get_ai_backend-Answers_example =
    get_ai_backend-Answers fraction_laws fleet cells table (for_model (bytes "claude")) to_llama
      (tt, (tt, (tt, tt)))
