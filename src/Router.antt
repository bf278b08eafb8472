-- ===== src/Router.antt =====
-- The router (internal/router/router.go).
pub mod Types
pub mod Hosts
pub mod Compile
pub mod Match
pub mod Retry
