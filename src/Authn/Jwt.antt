-- ===== src/Authn/Jwt.antt =====
-- JWTProvider (internal/security/authn/jwt.go), over the keys of Authn/Jwks and the signatures of
-- Authn/Signature. The JSON of a token is a parameter, and hexadecimal text too; a time is in nanoseconds.
pub mod Verified
use torana_enterprise.Prelude.{
  ℕ, Bool, true, false, List, [], ◌∷◌, ◌++◌, Option, none, some, ◌||◌, not, drop, if◌then◌else◌,
}
use torana_enterprise.Prelude.Int.{ℤ, pos, wrap64, ◌+ℤ◌, ◌-ℤ◌, ltb_ℤ}
use torana_enterprise.Prelude.Maps.{◌≟◌, lookup, insert}
use torana_enterprise.Prelude.Bytes.{
  Bytes, bytes, bytes_key, bytes_eq, split, to_lower, has_prefix, trim_space,
}
use torana_enterprise.Prelude.Json.{Json}
use torana_enterprise.Prelude.Results.{Result, ok, err, ◌>>=◌, ◌>>◌}
use torana_enterprise.Authn.Identity.{Identity}
use torana_enterprise.Authn.Provider.{
  AuthnError, no_credentials, invalid_credentials, expired, wrong_audience, unknown_kid, revoked,
  issuer_mismatch, signature_invalid, because, Provider,
}
use torana_enterprise.Authn.Revocation.{RevocationList, is_token_revoked}
use torana_enterprise.Authn.Jwks.{
  PublicKey, Web, JwksCache, KeyError, unknown_key, no_fetch, get_key,
}
use torana_enterprise.Authn.Signature.{Crypto, verify_signature}
use torana_enterprise.Authn.Claims.{
  Claims, parse_numeric_date, text_claim, match_audience, build_identity_from_claims,
}
use torana_enterprise.Pipeline.Types.{Envelope, header_get}

-- the skew is that which NewJWTProvider sets: a minute for 0
pub record IssuerConfig : Type 0 where
  pub issuer : Bytes
  pub audiences : List Bytes
  pub clock_skew : ℤ
  pub allowed_algorithms : List Bytes
  pub cache : JwksCache

pub record JwtHeader : Type 0 where
  pub alg : Bytes
  pub kid : Bytes

-- json.Unmarshal of the two parts of a token, %x, and int64 of a number that is out of its range
pub record TokenText : Type 0 where
  pub read_header : Bytes → Option JwtHeader
  pub read_claims : Bytes → Option Claims
  pub hex : Bytes → Bytes
  pub overflow : ℤ → ℤ

pub record Token : Type 0 where
  pub header : JwtHeader
  pub claims : Claims
  pub signed_content : Bytes
  pub signature : Bytes

-- the issuers by their names, with what they have cached, and the network
pub record JwtState (W : Type 0) : Type 0 where
  pub issuers : List (Bytes × IssuerConfig)
  pub net : W

-- the value, or ErrX under %w with a text
or_because : {A : Type 0} → AuthnError → Bytes → Option A → Result AuthnError A
or_because e text none = err (because e text)
or_because e text (some a) = ok a

decoded : {A : Type 0} → AuthnError → Bytes → Result Bytes A → Result AuthnError A
decoded e text (err s) = err (because e text)
decoded e text (ok a) = ok a

require : Bool → AuthnError → Result AuthnError (Unit {0})
require true e = ok tt
require false e = err e

is_permitted : Bytes → List Bytes → Bool
is_permitted alg [] = false
is_permitted alg (a ∷ as') = to_lower a ≟ to_lower alg || is_permitted alg as'

-- any algorithm, where none is configured
unfoldable pub permits : List Bytes → Bytes → Bool
unfolding is_permitted
permits [] alg = true
permits (a ∷ as') alg = is_permitted alg (a ∷ as')

issuer_in : Option Bytes → Result AuthnError Bytes
issuer_in none = err (because issuer_mismatch (bytes "missing iss claim"))
issuer_in (some []) = err (because issuer_mismatch (bytes "missing iss claim"))
issuer_in (some (c ∷ s)) = ok (c ∷ s)

-- %q of a name with nothing to escape
quoted : Bytes → Bytes
quoted s = b'"' ∷ s ++ b'"' ∷ []

-- a date of the claims, if there is one, and whether the test passes
unfoldable pub date_passes : (ℤ → ℤ) → (ℤ → Bool) → Option Json → Option Bool
date_passes overflow test none = some true
date_passes overflow test (some v) = elim (parse_numeric_date overflow v) [
  | none ↦ none
  | some t ↦ some (test t)
]

-- Time.Add stops at the ends of the range of times, which no reading of the clock comes near
unfoldable pub is_current : ℤ → ℤ → ℤ → Bool
is_current now skew exp = not (ltb_ℤ (exp +ℤ skew) now)

unfoldable pub is_started : ℤ → ℤ → ℤ → Bool
is_started now skew nbf = not (ltb_ℤ now (nbf +ℤ wrap64 (pos 0 -ℤ skew)))

unfoldable pub audience_fits : List Bytes → Option Json → Bool
audience_fits [] aud = true
audience_fits (a ∷ as') aud = match_audience aud (a ∷ as')

jti_listed : RevocationList → Option Bytes → Bool
jti_listed list none = false
jti_listed list (some id) = is_token_revoked id list

unfoldable pub is_listed : Option RevocationList → Option Bytes → Bytes → Bool
unfolding jti_listed
is_listed none jti hash = false
is_listed (some list) jti hash = jti_listed list jti || is_token_revoked hash list

-- the error of a verification under ErrSignatureInvalid
signature_error : Result Bytes (Unit {0}) → Result AuthnError (Unit {0})
signature_error (ok u) = ok u
signature_error (err s) = err (because signature_invalid s)

key_error : Result KeyError PublicKey → Result AuthnError PublicKey
key_error (ok k) = ok k
key_error (err unknown_key) = err unknown_kid
key_error (err (no_fetch s)) = err (because unknown_kid s)

module _ {W : Type 0} (web : Web W) (crypto : Crypto) (text : TokenText) where
  parse_parts : List Bytes → Result AuthnError Token
  unfolding or_because decoded
  parse_parts (a ∷ b ∷ c ∷ []) = do
    header_bytes ← decoded invalid_credentials (bytes "invalid header encoding") (web.base64 a)
    header ←
        or_because invalid_credentials (bytes "invalid header json") (text.read_header header_bytes)
    payload_bytes ← decoded invalid_credentials (bytes "invalid payload encoding") (web.base64 b)
    claims ←
        or_because invalid_credentials (bytes "invalid payload json")
          (text.read_claims payload_bytes)
    ok (record { header = header; claims = claims; signed_content = a ++ b'.' ∷ b; signature = c })
  parse_parts _ = err invalid_credentials

  unfoldable pub parse_token : Bytes → Result AuthnError Token
  unfolding parse_parts
  parse_token raw = parse_parts (split b'.' raw)

  -- up to the key: the token, the name of its issuer and the issuer
  unfoldable pub identify :
      Bytes → List (Bytes × IssuerConfig) → Result AuthnError (Token × Bytes × IssuerConfig)
  unfolding issuer_in or_because require quoted
  identify raw issuers = do
    t ← parse_token raw
    iss ← issuer_in (text_claim (bytes "iss") t.claims)
    cfg ← or_because issuer_mismatch (bytes "unknown issuer " ++ quoted iss) (lookup iss issuers)
    require (permits cfg.allowed_algorithms t.header.alg)
        (because signature_invalid (bytes "algorithm " ++ t.header.alg ++ bytes " not permitted"))
    ok (t, iss, cfg)

  -- from the key on
  unfoldable pub check_token :
      Option RevocationList
      → ℤ
      → Bytes
      → IssuerConfig
      → Token
      → PublicKey
      → Result AuthnError Identity
  unfolding decoded or_because require signature_error
  check_token list now raw cfg t key = do
    sig ← decoded signature_invalid (bytes "invalid signature encoding") (web.base64 t.signature)
    signature_error (verify_signature crypto t.header.alg key t.signed_content sig)
    current ←
        or_because invalid_credentials (bytes "malformed exp claim") (
          date_passes text.overflow (is_current now cfg.clock_skew) (lookup (bytes "exp") t.claims))
    require current expired
    started ←
        or_because invalid_credentials (bytes "malformed nbf claim") (
          date_passes text.overflow (is_started now cfg.clock_skew) (lookup (bytes "nbf") t.claims))
    require started invalid_credentials
    require (audience_fits cfg.audiences (lookup (bytes "aud") t.claims)) wrong_audience
    require
        (not (is_listed list (text_claim (bytes "jti") t.claims) (text.hex (crypto.sha 256 raw))))
        revoked
    ok (build_identity_from_claims t.claims)

  with_key :
      Option RevocationList
      → ℤ
      → Bytes
      → Token
      → Bytes
      → IssuerConfig
      → List (Bytes × IssuerConfig)
      → Result KeyError PublicKey × JwksCache × W
      → Result AuthnError Identity × JwtState W
  unfolding key_error
  with_key list now raw t iss cfg issuers (r, cache, w) = (
    do key ← key_error r; check_token list now raw cfg t key,
    record { issuers = insert iss (record cfg { cache = cache }) issuers; net = w },
  )

  identified :
      Option RevocationList
      → ℕ
      → Bytes
      → JwtState W
      → Result AuthnError (Token × Bytes × IssuerConfig)
      → Result AuthnError Identity × JwtState W
  unfolding with_key
  identified list now raw st (err e) = (err e, st)
  identified list now raw st (ok (t, iss, cfg)) =
      with_key list (pos now) raw t iss cfg st.issuers
        (get_key web now t.header.kid cfg.cache st.net)

  unfoldable pub validate_token :
      Option RevocationList → ℕ → Bytes → JwtState W → Result AuthnError Identity × JwtState W
  unfolding identified
  validate_token list now raw st = identified list now raw st (identify raw st.issuers)

  with_token :
      Option RevocationList → ℕ → Bytes → JwtState W → Result AuthnError Identity × JwtState W
  with_token list now [] st = (err invalid_credentials, st)
  with_token list now (c ∷ raw) st = validate_token list now (c ∷ raw) st

  with_header :
      Option RevocationList → ℕ → Bytes → JwtState W → Result AuthnError Identity × JwtState W
  unfolding with_token
  with_header list now value st = elim (has_prefix (to_lower value) (bytes "bearer ")) [
    | true ↦ with_token list now (trim_space (drop 7 value)) st
    | false ↦ (err no_credentials, st)
  ]

  -- an empty header has no such prefix
  unfoldable pub jwt_provider : Option RevocationList → ℕ → Provider (JwtState W)
  unfolding with_header
  jwt_provider list now = record {
    name = bytes "jwt_oidc";
    authenticate =
        λ env st. with_header list now (header_get (bytes "Authorization") env.headers) st;
  }
