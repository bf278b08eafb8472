-- ===== src/Authz.antt =====
-- Authorization (internal/security/authz).
pub mod Types
pub mod Audit
pub mod Engine
pub mod Filter
