-- ===== src/Core/Ewma.antt =====
-- vortex-core/src/load_balancer/ewma.rs, over any `Float`. `F` is the bits of an `f64`, which is what
-- the atomic holds, so `to_bits` and `from_bits` do not show. The functions here are the operations
-- as they act when no other thread comes between; `Concurrent` has the compare-exchange loop.
pub mod Bounds
pub mod Active
pub mod Concurrent
pub mod Score
mod Tests
use vortex_proxy.Prelude.{ℕ, Bool, if◌then◌else◌, incr64, decr64, List, foldl}
use vortex_proxy.Float.{Float}

pub record PeakEwma {ℓ} (F : Type ℓ) : Type ℓ where
  pub ewma : F
  pub decay_alpha : F
  pub active_requests : ℕ

module _ {ℓ} {F : Type ℓ} ⦃f : Float F⦄ where
  unfoldable pub new : F → F → PeakEwma F
  new initial_latency_ms decay_alpha = record {
    ewma = initial_latency_ms;
    decay_alpha = decay_alpha;
    active_requests = 0;
  }

  unfoldable pub get_ewma : PeakEwma F → F
  get_ewma e = e.ewma

  -- `next_ewma` of the loop in `observe_latency`, for the decay, the sample and the current average.
  unfoldable pub next_ewma : F → F → F → F
  next_ewma alpha rtt_ms current =
      if f.gt rtt_ms current
      then rtt_ms
      else f.add (f.mul rtt_ms (f.sub f.one alpha)) (f.mul current alpha)

  -- `observe_latency` by a thread that runs alone.
  unfoldable pub observe_latency : PeakEwma F → F → PeakEwma F
  unfolding next_ewma
  observe_latency e rtt_ms = record e { ewma = next_ewma e.decay_alpha rtt_ms e.ewma }

  -- `increment_active`; the guard that it returns is dropped by `drop_guard`.
  unfoldable pub increment_active : PeakEwma F → PeakEwma F
  increment_active e = record e { active_requests = incr64 e.active_requests }

  unfoldable pub drop_guard : PeakEwma F → PeakEwma F
  drop_guard e = record e { active_requests = decr64 e.active_requests }

  unfoldable pub calculate_score : PeakEwma F → F
  unfolding get_ewma
  calculate_score e = f.mul (f.add (get_ewma e) f.one) (f.add (f.of_nat e.active_requests) f.one)

  -- Samples in the order in which they are observed.
  unfoldable pub observe_all : PeakEwma F → List F → PeakEwma F
  unfolding observe_latency
  observe_all = foldl observe_latency
