-- ===== src/Samples/Credentials.antt =====
-- Credentials and the authentication filter at concrete inputs.
use torana_enterprise.Prelude.{◌≡◌, refl, ◌↔◌, true, [], ◌∷◌, none, some, arith}
use torana_enterprise.Prelude.Int.{pos}
use torana_enterprise.Prelude.Maps.{lookup}
use torana_enterprise.Prelude.Bytes.{Bytes, bytes, bytes_key, bytes_eq, has_prefix, trim_space}
use torana_enterprise.Prelude.Json.{Json}
use torana_enterprise.Prelude.Results.{ok, err}
use torana_enterprise.Authn.Identity.{new_identity, clone}
use torana_enterprise.Authn.Provider.{no_credentials, is_no_credentials, Provider}
use torana_enterprise.Authn.Revocation.{RevocationList, is_revoked}
use torana_enterprise.Authn.Filter.{FilterConfig, authn_filter, authenticate_with}
use torana_enterprise.Authn.Filter.Authenticated.{
  Vouches, Authenticates, authenticate_with-Authenticates, continue-Vouches,
}
use torana_enterprise.Authn.ApiKeys.{
  Argon2Params, default_argon2_params, StoredApiKey, KeyStore, store_key, identity_of, split_key,
  validate_api_key, is_past, is_listed, computed, hash_key_sha256,
}
use torana_enterprise.Authn.ApiKeys.Admission.{IsFor, Admits, validate_api_key-ok}
use torana_enterprise.Authn.ApiKeys.Keys.{validate_api_key-store_key}
use torana_enterprise.Pipeline.Types.{authn, unspecified, Envelope, same_phase, continue_decision}
use torana_enterprise.Pipeline.Breaker.{new_circuit_breaker, allow}
use torana_enterprise.Pipeline.Chain.{FilterWrapper, execute_phase, context_err}
use torana_enterprise.Pipeline.Chain.FailClosed.{Passed}
use torana_enterprise.Samples.Chains.{envelope, moment}

abbrev no_show : Json → Bytes
no_show v = []

abbrev nothing_revoked : Unit {0} → RevocationList
nothing_revoked u = record { tokens = []; keys = []; subscribers = [] }

-- one provider that finds nothing, and one that knows the caller
abbrev blind : Provider (Unit {0})
blind = record { name = bytes "api_key"; authenticate = λ env w. (err no_credentials, w) }

abbrev knowing : Provider (Unit {0})
knowing = record {
  name = bytes "mtls";
  authenticate = λ env w. (ok (new_identity (bytes "alice") [] (bytes "mtls")), w);
}

abbrev config : FilterConfig (Unit {0})
config = record {
  name = [];
  providers = blind ∷ knowing ∷ [];
  checks_revocation = true;
  require_auth = true;
  phase = unspecified;
}

authenticate_with-Authenticates_example :
    Authenticates no_show nothing_revoked true true
      (blind ∷ knowing ∷ [])
      envelope
      tt
      (authenticate_with no_show nothing_revoked true true (blind ∷ knowing ∷ []) envelope tt)
authenticate_with-Authenticates_example =
    authenticate_with-Authenticates no_show nothing_revoked true true (blind ∷ knowing ∷ [])
      envelope tt

abbrev guard : FilterWrapper (Unit {0})
guard = record {
  filter = authn_filter no_show nothing_revoked config;
  cb = new_circuit_breaker (pos 5) 10000000000;
}

continue-Vouches_example :
    (env' : Envelope) × (w' : Unit {0}) × Passed 0 10 authn
      (λ i. moment)
      []
      (record envelope { phase = authn })
      tt
      env'
      w'
    × ((env2 : Envelope) × (w2 : Unit {0}) × Vouches no_show nothing_revoked true
          (blind ∷ knowing ∷ [])
          env'
          w'
          env2
          w2)
unfolding execute_phase context_err same_phase authn_filter allow new_circuit_breaker
    authenticate_with is_no_credentials is_revoked new_identity lookup continue_decision
continue-Vouches_example =
    continue-Vouches no_show nothing_revoked 0 10 authn (λ i. moment) config
      (new_circuit_breaker (pos 5) 10000000000) [] [] (guard ∷ []) envelope tt refl refl refl refl

-- the hash of a text is the text
abbrev plain_hash : Bytes → Bytes
plain_hash s = s

abbrev plain_argon2 : Bytes → Bytes → Argon2Params → Bytes
plain_argon2 secret salt params = secret

abbrev stored : StoredApiKey
stored = record {
  id = bytes "k1";
  prefix = bytes "tk";
  hashed_secret = bytes "xyz";
  salt = [];
  algorithm = bytes "sha256";
  argon2_params = default_argon2_params;
  identity = none;
  expires_at = some 500;
}

abbrev keys : KeyStore
keys = (bytes "t", stored) ∷ []

validate_api_key-ok_example :
    (validate_api_key plain_hash plain_argon2 8 none 100 keys (bytes "t_xyz")
      ≡ ok (new_identity (bytes "t") [] (bytes "api_key")))
    ↔ Admits plain_hash plain_argon2 none 100 keys
        (split_key 8 keys (bytes "t_xyz"))
        (new_identity (bytes "t") [] (bytes "api_key"))
validate_api_key-ok_example =
    validate_api_key-ok plain_hash plain_argon2 8 none 100 keys (bytes "t_xyz")
      (new_identity (bytes "t") [] (bytes "api_key"))

stored-IsFor : IsFor plain_hash plain_argon2 none 100 (bytes "tk") (bytes "xyz") stored
unfolding is_past is_listed computed bytes_eq hash_key_sha256
stored-IsFor = record { current = refl; unlisted = refl; hash = refl }

validate_api_key-store_key_example :
    validate_api_key plain_hash plain_argon2 8 none 100
      (store_key (some stored) keys)
      (bytes "tk_xyz")
    ≡ ok (identity_of (bytes "tk") none)
unfolding trim_space has_prefix clone
validate_api_key-store_key_example =
    validate_api_key-store_key plain_hash plain_argon2 8 none 100 keys stored b't' (bytes "k") b'x'
      (bytes "yz") refl stored-IsFor refl (λ e. cc e) ((λ h. omega arith), tt)
