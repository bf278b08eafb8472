-- ===== src/Authn.antt =====
-- Authentication (internal/security/authn).
pub mod Identity
pub mod Revocation
pub mod Provider
pub mod Filter
pub mod ApiKeys
pub mod Jwks
pub mod Claims
pub mod Signature
pub mod Jwt
pub mod Mtls
