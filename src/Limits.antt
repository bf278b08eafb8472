-- ===== src/Limits.antt =====
-- Rate limits and token budgets (internal/limits).
pub mod Types
pub mod TokenBucket
pub mod Store
pub mod Limiter
pub mod Usage
pub mod Filter
