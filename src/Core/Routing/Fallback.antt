-- ===== src/Core/Routing/Fallback.antt =====
-- `get_ai_backend` of routing.rs: which model is served, and by whom.
use vortex_proxy.Prelude.{
  text_eq, eq_of_text_eq, text_eq_refl, Bool-cases, ◌≡◌, sym, true, List, [], ◌∷◌, arith, All,
  to_All, Has, Option, none, some, Text, ◌⊎◌, inl, inr, ◌↔◌, Option-cases,
}
use vortex_proxy.Float.{Float, IsOrdered}
use vortex_proxy.Core.ArcSwap.{ArcSwap}
use vortex_proxy.Core.Backend.{SharedBackend, Heap, AiMetadata, ModelFallbackConfig, is_healthy}
use vortex_proxy.Core.Routing.{
  RoutingTable, snapshot, serves, best_for, first_fallback, get_ai_backend, contains, score_gt,
}
use vortex_proxy.Core.Routing.Candidates.{IsScored, IsBest, min_by-IsBest, min_by-filter-none_iff}

-- The models in the order in which they are tried.
abbrev pub tried : AiMetadata → Option ModelFallbackConfig → List Text
tried metadata none = metadata.model ∷ []
tried metadata (some fallback) = metadata.model ∷ fallback.fallback_models

Has-contains : (ms : List Text) (model : Text) → contains ms model ≡ true → Has model ms
unfolding contains
Has-contains [] model h = cc
Has-contains (m ∷ ms) model h = elim (Bool-cases (text_eq m model)) [
  | inl e ↦ inl (sym (eq_of_text_eq m model e))
  | inr e ↦ inr (Has-contains ms model (ground arith))
]

contains-Has : (ms : List Text) (model : Text) → Has model ms → contains ms model ≡ true
unfolding contains
contains-Has [] model h = absurd h
contains-Has (m ∷ ms) model (inl e) = rw (e, text_eq_refl)
contains-Has (m ∷ ms) model (inr there) = ground (arith, contains-Has ms model there)

module _ {ℓ} {F : Type ℓ} ⦃f : Float F⦄ (laws : IsOrdered F) (h : Heap F) where
  -- A backend that is healthy and has the model.
  abbrev pub Serves : Text → SharedBackend → Type 0
  Serves model b = (is_healthy (h b) ≡ true) × Has model (h b).ai_models

  serves_iff : (model : Text) (b : SharedBackend) → (serves h model b ≡ true) ↔ Serves model b
  unfolding serves
  serves_iff model b = (
    λ e. (ground arith, Has-contains (h b).ai_models model (ground arith)),
    λ (p, q). ground (arith, contains-Has (h b).ai_models model q),
  )

  -- `b` is the best backend for the first of the models that any healthy backend has.
  abbrev pub IsServed : List SharedBackend → List Text → SharedBackend → Type 0
  IsServed backends [] b = ⊥
  IsServed backends (m ∷ ms) b =
      IsBest laws h (Serves m) backends b
      ⊎ (All (λ c. ¬ Serves m c) backends × IsServed backends ms b)

  abbrev pub Unserved : List SharedBackend → List Text → Type 0
  Unserved backends [] = Unit
  Unserved backends (m ∷ ms) = All (λ c. ¬ Serves m c) backends × Unserved backends ms

  -- What a search through the models gives: the first that is served, or nothing if none is.
  abbrev pub Answers : List SharedBackend → List Text → Option SharedBackend → Type 0
  Answers backends ms none = Unserved backends ms
  Answers backends ms (some b) = IsServed backends ms b

  Answers-cons :
      (backends : List SharedBackend) (m : Text) (ms : List Text) (r : Option SharedBackend)
      → best_for h backends m ≡ none
      → Answers backends ms r
      → Answers backends (m ∷ ms) r
  unfolding best_for
  Answers-cons backends m ms none e rest = (
    to_All _ backends
        ((min_by-filter-none_iff (Serves m) (score_gt h) (serves h m) backends (serves_iff m)).0 e),
    rest,
  )
  Answers-cons backends m ms (some b) e rest = inr (
    to_All _ backends
        ((min_by-filter-none_iff (Serves m) (score_gt h) (serves h m) backends (serves_iff m)).0 e),
    rest,
  )

  module _ (backends : List SharedBackend) (scored : All (IsScored laws h) backends) where
    best_for-IsBest :
        (m : Text) {b : SharedBackend}
        → best_for h backends m ≡ some b
        → IsBest laws h (Serves m) backends b
    unfolding best_for
    best_for-IsBest m e =
        min_by-IsBest laws h (Serves m) (serves h m) backends (serves_iff m) scored e

    first_fallback-Answers : (ms : List Text) → Answers backends ms (first_fallback h backends ms)
    unfolding first_fallback
    first_fallback-Answers [] = tt
    first_fallback-Answers (m ∷ ms) = elim (Option-cases (best_for h backends m)) [
      | inl e ↦
          rw (e, first_fallback)
            (Answers-cons backends m ms (first_fallback h backends ms) e
              (first_fallback-Answers ms))
      | inr (b, e) ↦ rw (e, first_fallback) (inl (best_for-IsBest m e))
    ]

  -- The models are tried in order, the requested one before the fallbacks: the answer is a backend
  -- of least score among the healthy ones that have the first model that any healthy backend has,
  -- and there is no answer exactly when no healthy backend has any of them. (The scores are numbers.)
  pub get_ai_backend-Answers :
      (A : ArcSwap (List SharedBackend)) (t : RoutingTable A) (metadata : AiMetadata)
      (fallback_config : Option ModelFallbackConfig)
      → All (IsScored laws h) (snapshot A t)
      → Answers
          (snapshot A t)
          (tried metadata fallback_config)
          (get_ai_backend A h t metadata fallback_config)
  unfolding get_ai_backend snapshot
  get_ai_backend-Answers A t metadata config scored =
      elim (Option-cases (best_for h (snapshot A t) metadata.model)) [
        | inl e ↦ rw (e, get_ai_backend) (fall_back config e)
        | inr (b, e) ↦
            rw (e, get_ai_backend) (served config (best_for-IsBest _ scored metadata.model e))
      ]
    where
      served :
          (c : Option ModelFallbackConfig) {b : SharedBackend}
          → IsBest laws h (Serves metadata.model) (snapshot A t) b
          → IsServed (snapshot A t) (tried metadata c) b
      served none best = inl best
      served (some _) best = inl best

      fall_back :
          (c : Option ModelFallbackConfig)
          → best_for h (snapshot A t) metadata.model ≡ none
          → Answers (snapshot A t) (tried metadata c) (elim c [
            | none ↦ none
            | some fallback ↦ first_fallback h (snapshot A t) fallback.fallback_models
          ])
      fall_back none e = Answers-cons _ metadata.model [] none e tt
      fall_back (some fallback) e =
          Answers-cons _ metadata.model fallback.fallback_models _ e
            (first_fallback-Answers _ scored fallback.fallback_models)
