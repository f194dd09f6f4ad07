-- ===== src/Core.antt =====
-- The crate vortex-core.
pub mod CircuitBreaker
pub mod Ewma
pub mod ArcSwap
pub mod Backend
pub mod RateLimit
pub mod Routing
pub mod Selector
pub mod Fleet
