-- ===== src/Ingress.antt =====
-- Ingress (internal/ingress).
pub mod Sessions
