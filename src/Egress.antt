-- ===== src/Egress.antt =====
-- What guards the calls to upstreams (internal/egress).
pub mod Bulkhead
pub mod Fallback
