-- ===== src/Samples.antt =====
-- The theorems at concrete inputs.
mod Pipeline
mod Authz
mod Limits
mod Router
mod Egress
mod Authn
mod Config
mod Chains
mod Usage
mod Credentials
mod Tokens
mod Canary
mod Artifacts
