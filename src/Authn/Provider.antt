-- ===== src/Authn/Provider.antt =====
-- The errors and the interface of authentication providers (internal/security/authn/provider.go), and
-- SetIdentity and GetIdentity (identity.go). A provider works on a world `W`.
use torana_enterprise.Prelude.{Bool, true, false, List, [], ◌∷◌, ◌++◌, Option, none, some}
use torana_enterprise.Prelude.Maps.{lookup, insert}
use torana_enterprise.Prelude.Bytes.{Bytes, bytes, bytes_key}
use torana_enterprise.Prelude.Json.{Json}
use torana_enterprise.Prelude.Results.{Result}
use torana_enterprise.Authn.Identity.{Identity, claim_text}
use torana_enterprise.Pipeline.Types.{Envelope}

-- `because` is fmt.Errorf with %w and a text after it.
pub data AuthnError : Type 0 where
  no_credentials invalid_credentials expired wrong_audience unknown_kid : AuthnError
  revoked issuer_mismatch untrusted_cert signature_invalid : AuthnError
  because : AuthnError → Bytes → AuthnError
  other : Bytes → AuthnError

-- errors.Is(err, ErrNoCredentials)
unfoldable pub is_no_credentials : AuthnError → Bool
is_no_credentials no_credentials = true
is_no_credentials (because e s) = is_no_credentials e
is_no_credentials _ = false

unfoldable pub authn_text : AuthnError → Bytes
authn_text no_credentials = bytes "no credentials provided"
authn_text invalid_credentials = bytes "invalid credentials"
authn_text expired = bytes "credential expired"
authn_text wrong_audience = bytes "invalid audience"
authn_text unknown_kid = bytes "unknown key id"
authn_text revoked = bytes "credential revoked"
authn_text issuer_mismatch = bytes "untrusted or unknown issuer"
authn_text untrusted_cert = bytes "untrusted client certificate"
authn_text signature_invalid = bytes "invalid cryptographic signature"
authn_text (because e s) = authn_text e ++ bytes ": " ++ s
authn_text (other s) = s

pub record Provider (W : Type 0) : Type 0 where
  pub name : Bytes
  pub authenticate : Envelope → W → Result AuthnError Identity × W

set_text : Bytes → Bytes → List (Bytes × Bytes) → List (Bytes × Bytes)
set_text key [] claims = claims
set_text key (c ∷ s) claims = insert key (c ∷ s) claims

set_missing : Bytes → Bytes → Option Bytes → List (Bytes × Bytes) → List (Bytes × Bytes)
set_missing key value none claims = insert key value claims
set_missing key value (some old) claims = claims

-- the loop over the claims of the identity
add_claims : (Json → Bytes) → List (Bytes × Json) → List (Bytes × Bytes) → List (Bytes × Bytes)
unfolding set_missing
add_claims show [] claims = claims
add_claims show ((k, v) ∷ vs) claims =
    add_claims show vs (set_missing k (claim_text show v) (lookup k claims) claims)

unfoldable pub set_identity : (Json → Bytes) → Option Identity → Envelope → Envelope
unfolding set_text add_claims
set_identity show none env = env
set_identity show (some i) env = record env {
  identity = some i;
  peer_info = record (env.peer_info) { client_identity = i.subject };
  claims =
      add_claims show i.claims
        (set_text (bytes "tenant") i.tenant (set_text (bytes "sub") i.subject env.claims));
}

unfoldable pub get_identity : Envelope → Option Identity
get_identity env = env.identity
