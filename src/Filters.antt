-- ===== src/Filters.antt =====
-- The crate vortex-filters.
pub mod ProxyWasm
pub mod RedisStore
pub mod WasmEngine
