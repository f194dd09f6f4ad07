-- ===== src/Core/RateLimit.antt =====
-- vortex-core/src/domain/rate_limit.rs. A `Duration` is its milliseconds.
use vortex_proxy.Prelude.{ℕ, Bool, Option, Text}

pub record RateLimitResult : Type 0 where
  pub allowed : Bool
  pub remaining : ℕ
  pub reset_after : ℕ

-- The trait `RateStore`, for a store whose state is an `R`: from the key, the limit, the period and the
-- cost to a result, or none where the call fails.
pub record RateStore (R : Type 0) : Type 0 where
  pub check_rate_limit : R → Text → ℕ → ℕ → ℕ → R × Option RateLimitResult
