-- ===== src/Proxy.antt =====
-- The crate vortex-proxy.
pub mod BanManager
pub mod ConnectionPool
pub mod Headers
pub mod HealthChecker
pub mod Server
pub mod Telemetry
pub mod Tls
pub mod Main
pub mod Metrics
pub mod Quic
