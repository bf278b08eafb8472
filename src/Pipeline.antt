-- ===== src/Pipeline.antt =====
-- The filter pipeline (internal/pipeline).
pub mod Breaker
pub mod Types
pub mod Chain
