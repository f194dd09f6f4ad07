-- ===== src/Core/Backend.antt =====
-- vortex-core/src/domain/backend.rs and ai_gateway.rs. A `SharedBackend` is a pointer into a heap of
-- backends: clones of an `Arc` are equal pointers, and what one holder writes all others read. An
-- `Arc` keeps its backend alive, so a pointer never dangles and reading it is total.
use vortex_proxy.Prelude.{ℕ, Bool, true, Option, none, List, [], Text, bytes, text_gt, sort_by}
use vortex_proxy.Float.{Float}
use vortex_proxy.Net.{SocketAddr}
use vortex_proxy.Core.CircuitBreaker.{CircuitBreaker}
use vortex_proxy.Core.CircuitBreaker
use vortex_proxy.Core.Ewma.{PeakEwma}
use vortex_proxy.Core.Ewma

-- `BackendId` is its number.
pub record Backend {ℓ} (F : Type ℓ) : Type ℓ where
  pub id : ℕ
  pub addr : SocketAddr
  pub healthy : Bool
  pub ewma : PeakEwma F
  pub circuit_breaker : CircuitBreaker
  pub ai_models : List Text

pub record AiMetadata : Type 0 where
  pub model : Text
  pub estimated_tokens : ℕ
  pub semantic_hash : Option Text

-- `AiMetadata::empty`
unfoldable pub empty_metadata : AiMetadata
empty_metadata = record { model = bytes "unknown"; estimated_tokens = 1; semantic_hash = none }

pub record ModelFallbackConfig : Type 0 where
  pub primary_model : Text
  pub fallback_models : List Text

-- `baseline` and `balanced` are the literals 50.0 and 0.5.
module _ {ℓ} {F : Type ℓ} ⦃f : Float F⦄ (baseline balanced : F) where
  -- `Backend::with_models`
  unfoldable pub with_models : ℕ → SocketAddr → List Text → Backend F
  unfolding Ewma.new CircuitBreaker.new
  with_models id addr models = record {
    id = id;
    addr = addr;
    healthy = true;
    ewma = Ewma.new baseline balanced;
    circuit_breaker = CircuitBreaker.new;
    ai_models = sort_by text_gt models;
  }

  -- `Backend::new`
  unfoldable pub new : ℕ → SocketAddr → Backend F
  unfolding Ewma.new CircuitBreaker.new
  new id addr = record {
    id = id;
    addr = addr;
    healthy = true;
    ewma = Ewma.new baseline balanced;
    circuit_breaker = CircuitBreaker.new;
    ai_models = [];
  }

module _ {ℓ} {F : Type ℓ} where
  unfoldable pub is_healthy : Backend F → Bool
  is_healthy b = b.healthy

  unfoldable pub set_healthy : Backend F → Bool → Backend F
  set_healthy b healthy = record b { healthy = healthy }

-- `Arc<Backend>`
abbrev pub SharedBackend : Type 0
SharedBackend = ℕ

abbrev pub Heap {ℓ} : Type ℓ → Type ℓ
Heap F = SharedBackend → Backend F
