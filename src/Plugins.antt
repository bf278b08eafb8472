-- ===== src/Plugins.antt =====
-- Plugins (internal/plugins).
pub mod Canary
pub mod Cache
