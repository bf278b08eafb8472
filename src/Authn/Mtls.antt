-- ===== src/Authn/Mtls.antt =====
-- MTLSProvider (internal/security/authn/mtls.go). `certificates` gives the certificates of the peer, which
-- the TLS state of the envelope holds; a URI of a certificate is never nil.
use torana_enterprise.Prelude.{
  Bool, true, false, List, [], ◌∷◌, Option, none, some, map, if◌then◌else◌,
}
use torana_enterprise.Prelude.Maps.{◌≟◌, insert}
use torana_enterprise.Prelude.Bytes.{Bytes, bytes, bytes_key, to_lower, trim, split}
use torana_enterprise.Prelude.Json.{Json, str, arr, Items, nil, cons}
use torana_enterprise.Prelude.Results.{Result, ok, err}
use torana_enterprise.Authn.Identity.{Identity}
use torana_enterprise.Authn.Provider.{AuthnError, no_credentials, untrusted_cert, Provider}
use torana_enterprise.Pipeline.Types.{Envelope}

-- a URI with its text
pub record Uri : Type 0 where
  pub text : Bytes
  pub scheme : Bytes
  pub path : Bytes

pub record Certificate : Type 0 where
  pub uris : List Uri
  pub dns_names : List Bytes
  pub email_addresses : List Bytes
  pub common_name : Bytes
  pub organization : List Bytes
  pub organizational_unit : List Bytes
  pub serial_number : Bytes
  pub issuer_name : Bytes

-- the first, where what is there is empty
or_first : Bytes → List Bytes → Bytes
or_first (c ∷ s) names = c ∷ s
or_first [] [] = []
or_first [] (n ∷ names) = n

first_uri : List Uri → Bytes
first_uri [] = []
first_uri (u ∷ us) = u.text

unfoldable pub subject_of : Certificate → Bytes
unfolding or_first first_uri
subject_of cert =
    or_first (or_first (or_first (first_uri cert.uris) cert.dns_names) cert.email_addresses)
      (cert.common_name ∷ [])

-- what follows the first segment `ns` that is not the last
namespace_in : List Bytes → Bytes
namespace_in [] = []
namespace_in (a ∷ []) = []
namespace_in (a ∷ b ∷ ss) = let rest = namespace_in (b ∷ ss) in if a ≟ bytes "ns" then b else rest

spiffe_namespace : List Uri → Bytes
unfolding namespace_in
spiffe_namespace [] = []
spiffe_namespace (u ∷ us) =
    if to_lower u.scheme ≟ bytes "spiffe" then namespace_in (split b'/' (trim b'/' u.path)) else []

extracted : Option (Certificate → Bytes) → Certificate → Bytes
unfolding spiffe_namespace
extracted none cert = spiffe_namespace cert.uris
extracted (some f) cert = f cert

unfoldable pub tenant_of : Option (Certificate → Bytes) → Certificate → Bytes
unfolding or_first extracted
tenant_of extractor cert = or_first (extracted extractor cert) cert.organization

items_of : List Bytes → Items
items_of [] = nil
items_of (s ∷ ss) = cons (str s) (items_of ss)

add_names : Bytes → List Bytes → List (Bytes × Json) → List (Bytes × Json)
unfolding items_of
add_names key [] claims = claims
add_names key (n ∷ ns) claims = insert key (arr (items_of (n ∷ ns))) claims

add_name : Bytes → Bytes → List (Bytes × Json) → List (Bytes × Json)
add_name key [] claims = claims
add_name key (c ∷ s) claims = insert key (str (c ∷ s)) claims

uri_text : Uri → Bytes
uri_text u = u.text

certificate_claims : Certificate → List (Bytes × Json)
unfolding add_names add_name uri_text
certificate_claims cert = add_name (bytes "cert_cn") cert.common_name (
    add_names (bytes "san_dns") cert.dns_names (
      add_names (bytes "san_uris") (map uri_text cert.uris) (
        insert (bytes "cert_issuer") (str cert.issuer_name)
          (insert (bytes "cert_serial") (str cert.serial_number) []))))

identity_for : Bytes → Option (Certificate → Bytes) → Certificate → Result AuthnError Identity
unfolding certificate_claims
identity_for [] extractor cert = err untrusted_cert
identity_for (c ∷ s) extractor cert = ok (record {
  subject = c ∷ s;
  tenant = tenant_of extractor cert;
  groups = cert.organizational_unit;
  scopes = [];
  claims = certificate_claims cert;
  auth_method = bytes "mtls";
})

unfoldable pub extract_identity :
    Option (Certificate → Bytes) → Certificate → Result AuthnError Identity
unfolding identity_for
extract_identity extractor cert = identity_for (subject_of cert) extractor cert

by_certificates :
    Bool → Option (Certificate → Bytes) → List Certificate → Result AuthnError Identity
by_certificates true extractor [] = err untrusted_cert
by_certificates false extractor [] = err no_credentials
by_certificates required extractor (cert ∷ certs) = extract_identity extractor cert

unfoldable pub mtls_provider :
    {W : Type 0} → (Envelope → List Certificate) → Bool → Option (Certificate → Bytes) → Provider W
unfolding by_certificates
mtls_provider certificates required extractor = record {
  name = bytes "mtls";
  authenticate = λ env w. (by_certificates required extractor (certificates env), w);
}
