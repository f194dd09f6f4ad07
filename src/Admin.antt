-- ===== src/Admin.antt =====
-- The crate vortex-admin.
pub mod Watcher
pub mod AdminServer
