-- ===== src/Authn/ApiKeys.antt =====
-- InMemoryKeyStore and APIKeyProvider (internal/security/authn/apikey.go). `sha256` and `argon2` stand for
-- the hash functions, the second of a secret, a salt and parameters; times are nanoseconds. The dummy
-- comparisons, which only take time, are left out.
pub mod Admission
pub mod Keys
use torana_enterprise.Prelude.{
  ℕ, Bool, true, false, List, [], ◌∷◌, ◌++◌, Option, none, some, length, take, drop, ltb, ◌==◌,
  ◌||◌, ◌&&◌, not, if◌then◌else◌,
}
use torana_enterprise.Prelude.Int.{ℤ, pos, leb_ℤ, pos_part}
use torana_enterprise.Prelude.Maps.{◌≟◌, lookup, insert, delete}
use torana_enterprise.Prelude.Bytes.{
  Bytes, bytes, bytes_key, bytes_eq, has_prefix, drop_prefix, trim_space, to_lower, split,
}
use torana_enterprise.Prelude.Results.{Result, ok, err}
use torana_enterprise.Authn.Identity.{Identity, new_identity, clone}
use torana_enterprise.Authn.Revocation.{RevocationList, is_key_revoked}
use torana_enterprise.Authn.Provider.{
  AuthnError, no_credentials, invalid_credentials, expired, revoked, because, Provider,
}
use torana_enterprise.Pipeline.Types.{Envelope, header_get}

pub record Argon2Params : Type 0 where
  pub memory : ℕ
  pub iterations : ℕ
  pub parallelism : ℕ
  pub key_length : ℕ

abbrev pub default_argon2_params : Argon2Params
default_argon2_params = record { memory = 65536; iterations = 1; parallelism = 4; key_length = 32 }

pub record StoredApiKey : Type 0 where
  pub id : Bytes
  pub prefix : Bytes
  pub hashed_secret : Bytes
  pub salt : Bytes
  pub algorithm : Bytes
  pub argon2_params : Argon2Params
  pub identity : Option Identity
  pub expires_at : Option ℕ

abbrev pub KeyStore : Type 0
KeyStore = List (Bytes × StoredApiKey)

unfoldable pub get_by_prefix : Bytes → KeyStore → Option StoredApiKey
get_by_prefix prefix keys = lookup prefix keys

store_at : Bytes → StoredApiKey → KeyStore → KeyStore
store_at [] key keys = keys
store_at (c ∷ prefix) key keys = insert (c ∷ prefix) key keys

unfoldable pub store_key : Option StoredApiKey → KeyStore → KeyStore
unfolding store_at
store_key none keys = keys
store_key (some key) keys = store_at key.prefix key keys

unfoldable pub delete_key : Bytes → KeyStore → KeyStore
delete_key prefix keys = delete prefix keys

-- strings.TrimPrefix
or_same : Bytes → Option Bytes → Bytes
or_same s none = s
or_same s (some rest) = rest

trim_prefix : Bytes → Bytes → Bytes
unfolding or_same
trim_prefix p s = or_same s (drop_prefix p s)

-- the longest registered prefix of a key, from the best so far
unfoldable pub best_prefix : Bytes → Bytes → KeyStore → Bytes
best_prefix key best [] = best
best_prefix key best ((p, k) ∷ keys) =
    best_prefix key (if has_prefix key p && ltb (length best) (length p) then p else best) keys

is_delimiter : ℕ → Bool
is_delimiter c = c == b'.' || c == b'_'

put_first : ℕ → Bool → Bytes → Option (Bytes × Bytes) → Option (Bytes × Bytes)
put_first c d s (some (a, b)) = some (c ∷ a, b)
put_first c true s none = some ([], s)
put_first c false s none = none

-- what stands before and after the last delimiter
last_delimiter : Bytes → Option (Bytes × Bytes)
unfolding put_first is_delimiter
last_delimiter [] = none
last_delimiter (c ∷ s) = put_first c (is_delimiter c) s (last_delimiter s)

fixed_length : ℕ → Bytes → Bytes × Bytes
fixed_length n key = if ltb n (length key) then (take n key, drop n key) else ([], [])

by_delimiter : ℕ → Bytes → Option (Bytes × Bytes) → Bytes × Bytes
unfolding fixed_length
by_delimiter n key none = fixed_length n key
by_delimiter n key (some ([], b)) = fixed_length n key
by_delimiter n key (some (c ∷ a, [])) = fixed_length n key
by_delimiter n key (some (c ∷ a, d ∷ b)) = (c ∷ a, d ∷ b)

-- without a registered prefix
unregistered : ℕ → Bytes → Bytes × Bytes
unfolding by_delimiter last_delimiter
unregistered n key = by_delimiter n key (last_delimiter key)

by_secret : ℕ → Bytes → Bytes → Bytes → Bytes × Bytes
unfolding unregistered
by_secret n key prefix [] = unregistered n key
by_secret n key prefix (c ∷ secret) = (prefix, c ∷ secret)

by_prefix : ℕ → Bytes → Bytes → Bytes × Bytes
unfolding by_secret trim_prefix
by_prefix n key [] = unregistered n key
by_prefix n key (c ∷ prefix) =
    by_secret n key (c ∷ prefix)
      (trim_prefix (bytes ".") (trim_prefix (bytes "_") (trim_prefix (c ∷ prefix) key)))

split_trimmed : ℕ → KeyStore → Bytes → Bytes × Bytes
unfolding by_prefix
split_trimmed n keys [] = ([], [])
split_trimmed n keys (c ∷ key) = by_prefix n (c ∷ key) (best_prefix (c ∷ key) [] keys)

unfoldable pub split_key : ℕ → KeyStore → Bytes → Bytes × Bytes
unfolding split_trimmed
split_key n keys raw = split_trimmed n keys (trim_space raw)

-- strings.Count(token, ".") == 2
unfoldable pub is_likely_jwt : Bytes → Bool
is_likely_jwt token = length (split b'.' token) == 3

-- the key in one header, or none to go on
from_authorization : Bytes → Option Bytes
from_authorization val =
    if has_prefix (to_lower val) (bytes "bearer ")
    then (let token = trim_space (drop 7 val) in if is_likely_jwt token then none else some token)
    else if has_prefix (to_lower val) (bytes "apikey ")
    then some (trim_space (drop 7 val))
    else none

from_header : Bytes → Bytes → Option Bytes
unfolding from_authorization
from_header name [] = none
from_header name (c ∷ val) =
    if to_lower name ≟ bytes "authorization"
    then from_authorization (c ∷ val)
    else some (trim_space (c ∷ val))

or_next : Option Bytes → Bytes → Bytes
or_next none rest = rest
or_next (some key) rest = key

unfoldable pub extract_key : List Bytes → Envelope → Bytes
unfolding from_header or_next
extract_key [] env = []
extract_key (h ∷ hs) env = or_next (from_header h (header_get h env.headers)) (extract_key hs env)

-- whether the time is past, if there is one
unfoldable pub is_past : Option ℕ → ℕ → Bool
is_past none now = false
is_past (some t) now = ltb t now

unfoldable pub is_listed : Option RevocationList → Bytes → Bytes → Bool
is_listed none id prefix = false
is_listed (some list) id prefix = is_key_revoked id list || is_key_revoked prefix list

unfoldable pub identity_of : Bytes → Option Identity → Identity
identity_of prefix none = new_identity prefix [] (bytes "api_key")
identity_of prefix (some i) = record i { auth_method = bytes "api_key" }

module _ (sha256 : Bytes → Bytes) (argon2 : Bytes → Bytes → Argon2Params → Bytes) where
  unfoldable pub hash_key_sha256 : Bytes → Bytes → Bytes
  hash_key_sha256 secret salt = sha256 (secret ++ salt)

  unfoldable pub hash_key_argon2id : Bytes → Bytes → Argon2Params → Bytes
  hash_key_argon2id secret salt params =
      argon2 secret salt (if params.memory == 0 then default_argon2_params else params)

  -- the hash by the algorithm of the key, if it is supported
  unfoldable pub computed : Bytes → StoredApiKey → Option Bytes
  computed secret k =
      if k.algorithm ≟ bytes "argon2id"
      then some (hash_key_argon2id secret k.salt k.argon2_params)
      else if k.algorithm ≟ bytes "sha256" || k.algorithm ≟ []
      then some (hash_key_sha256 secret k.salt)
      else none

  compared : Bytes → StoredApiKey → Option Bytes → Result AuthnError Identity
  compared prefix k none =
      err (because invalid_credentials (bytes "unsupported hash algorithm " ++ k.algorithm))
  compared prefix k (some h) =
      if h ≟ k.hashed_secret
      then ok (identity_of prefix (clone k.identity))
      else err invalid_credentials

  checked : Option RevocationList → ℕ → Bytes → Bytes → StoredApiKey → Result AuthnError Identity
  unfolding compared
  checked list now prefix secret k =
      if is_past k.expires_at now
      then err expired
      else if is_listed list k.id prefix
      then err revoked
      else compared prefix k (computed secret k)

  found :
      Option RevocationList → ℕ → Bytes → Bytes → Option StoredApiKey → Result AuthnError Identity
  unfolding checked
  found list now prefix secret none = err invalid_credentials
  found list now prefix secret (some k) = checked list now prefix secret k

  unfoldable pub validate_parts :
      Option RevocationList → ℕ → KeyStore → Bytes × Bytes → Result AuthnError Identity
  unfolding found
  validate_parts list now keys ([], secret) = err invalid_credentials
  validate_parts list now keys (c ∷ prefix, []) = err invalid_credentials
  validate_parts list now keys (c ∷ prefix, d ∷ secret) =
      found list now (c ∷ prefix) (d ∷ secret) (get_by_prefix (c ∷ prefix) keys)

  unfoldable pub validate_api_key :
      ℕ → Option RevocationList → ℕ → KeyStore → Bytes → Result AuthnError Identity
  validate_api_key n list now keys raw = validate_parts list now keys (split_key n keys raw)

  with_key : ℕ → Option RevocationList → ℕ → KeyStore → Bytes → Result AuthnError Identity
  with_key n list now keys [] = err no_credentials
  with_key n list now keys (c ∷ raw) = validate_api_key n list now keys (c ∷ raw)

  or_default_headers : List Bytes → List Bytes
  or_default_headers [] = bytes "X-API-Key" ∷ bytes "Authorization" ∷ []
  or_default_headers (h ∷ hs) = h ∷ hs

  unfoldable pub default_length : ℤ → ℕ
  default_length n = if leb_ℤ n (pos 0) then 8 else pos_part n

  -- NewAPIKeyProvider; `keys_of` and `list_of` are the store and the revocation list of the world
  unfoldable pub api_key_provider :
      {W : Type 0} → (W → KeyStore) → (W → Option RevocationList) → List Bytes → ℤ → ℕ → Provider W
  unfolding with_key or_default_headers
  api_key_provider keys_of list_of headers n now = record {
    name = bytes "api_key";
    authenticate = λ env w. (
      with_key (default_length n) (list_of w) now (keys_of w)
          (extract_key (or_default_headers headers) env),
      w,
    );
  }
