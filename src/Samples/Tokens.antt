-- ===== src/Samples/Tokens.antt =====
-- Tokens and their keys at concrete inputs.
use torana_enterprise.Prelude.{ℕ, ◌+◌, ◌-◌, ◌^◌, ◌≡◌, refl, true, false, [], ◌∷◌, none, some}
use torana_enterprise.Prelude.Int.{pos, negsuc, wrap64, ◌+ℤ◌, ◌-ℤ◌, ◌*ℤ◌}
use torana_enterprise.Prelude.Maps.{lookup, insert}
use torana_enterprise.Prelude.Bytes.{bytes, bytes_key, bytes_eq, split, to_upper}
use torana_enterprise.Prelude.Json.{str, num}
use torana_enterprise.Prelude.Results.{ok, err}
use torana_enterprise.Authn.Jwks.{Jwk, Web, JwksCache, parse_jwk, refresh, get_key}
use torana_enterprise.Authn.Claims.{
  Claims, to_int64, unix_time, parse_numeric_date, text_claim, build_identity_from_claims,
}
use torana_enterprise.Authn.Signature.{Crypto, verify_signature}
use torana_enterprise.Authn.Jwt.{
  TokenText, JwtState, permits, date_passes, is_current, is_started, audience_fits, is_listed,
  parse_token, identify, check_token, validate_token,
}
use torana_enterprise.Authn.Jwt.Verified.{Accepted, validate_token-Accepted}

abbrev key : Jwk
key = record {
  kty = bytes "OKP";
  kid = bytes "k2";
  intended_use = [];
  alg = [];
  n = [];
  e = [];
  crv = bytes "Ed25519";
  x = bytes "pub";
  y = [];
}

-- a network that counts its requests and answers with one key
abbrev web : Web ℕ
web = record {
  base64 = λ s. ok s;
  unmarshal_jwks = λ s. ok (key ∷ []);
  get = λ url n. (ok (record { status_code = 200; body = ok [] }), n + 1);
}

-- every signature holds
abbrev crypto : Crypto
crypto = record {
  sha = λ bits s. s;
  verify_rsa = λ bits n e s sig. err [];
  verify_ecdsa = λ c x y s r t. false;
  verify_asn1 = λ c x y s sig. false;
  verify_ed25519 = λ k s sig. true;
}

abbrev claims : Claims
claims =
    (bytes "iss", str (bytes "idp"))
    ∷ (bytes "sub", str (bytes "alice"))
    ∷ (bytes "exp", num (pos 100))
    ∷ []

abbrev text : TokenText
text = record {
  read_header = λ s. some (record { alg = bytes "EdDSA"; kid = bytes "k2" });
  read_claims = λ s. some claims;
  hex = λ s. s;
  overflow = λ n. negsuc (2 ^ 63 - 1);
}

abbrev cache : JwksCache
cache = record { keys = []; last_fetched = none; jwks_url = bytes "http://idp" }

abbrev state : JwtState ℕ
state = record {
  issuers =
      (
        bytes "idp",
        record {
          issuer = bytes "idp";
          audiences = [];
          clock_skew = pos 60000000000;
          allowed_algorithms = [];
          cache = cache;
        },
      )
      ∷ [];
  net = 0;
}

-- where int64 of a number too large is the least one, a date far in the future counts as past
far_nbf :
    date_passes
      (λ n. negsuc (2 ^ 63 - 1))
      (is_started (pos 5) (pos 60000000000))
      (some (num (pos (10 ^ 19))))
    ≡ some true
unfolding date_passes is_started parse_numeric_date unix_time to_int64 wrap64 ◌+ℤ◌ ◌-ℤ◌ ◌*ℤ◌
far_nbf = refl

accepted :
    (validate_token web crypto text none 5 (bytes "h.p.s") state).0
    ≡ ok (build_identity_from_claims claims)
unfolding validate_token identify parse_token split text_claim lookup bytes_eq permits get_key
    refresh parse_jwk insert check_token verify_signature to_upper date_passes is_current is_started
    audience_fits is_listed parse_numeric_date unix_time to_int64 wrap64 ◌+ℤ◌ ◌-ℤ◌ ◌*ℤ◌
accepted = refl

validate_token-Accepted_example :
    Accepted web crypto text none 5
      (bytes "h.p.s")
      state
      (validate_token web crypto text none 5 (bytes "h.p.s") state).1
      (build_identity_from_claims claims)
validate_token-Accepted_example =
    validate_token-Accepted web crypto text none 5 (bytes "h.p.s") state
      (build_identity_from_claims claims) accepted
