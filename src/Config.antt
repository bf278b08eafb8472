-- ===== src/Config.antt =====
-- The configuration of the gateway (internal/config/config.go).
pub mod Types
pub mod Trie
pub mod Compile
pub mod Holder
