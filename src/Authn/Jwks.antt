-- ===== src/Authn/Jwks.antt =====
-- The keys of token issuers (internal/security/authn/jwt.go: JWK, jwksCache, parseJWK). Base64, JSON and
-- the HTTP client are parameters; times are nanoseconds.
pub mod Cached
use torana_enterprise.Prelude.{
  ℕ, ◌+◌, ◌-◌, ◌*◌, Bool, true, false, List, [], ◌∷◌, ◌++◌, Option, none, some, ltb, ◌==◌, ◌&&◌,
  not, if◌then◌else◌,
}
use torana_enterprise.Prelude.Int.{ℤ, pos, wrap64, ◌+ℤ◌, ◌*ℤ◌}
use torana_enterprise.Prelude.Maps.{◌≟◌, lookup, insert}
use torana_enterprise.Prelude.Bytes.{Bytes, bytes, bytes_key, bytes_eq, to_upper}
use torana_enterprise.Prelude.Decimal.{format_ℕ}
use torana_enterprise.Prelude.Results.{Result, ok, err, ◌>>=◌}

pub record Jwk : Type 0 where
  pub kty : Bytes
  pub kid : Bytes
  pub intended_use : Bytes
  pub alg : Bytes
  pub n : Bytes
  pub e : Bytes
  pub crv : Bytes
  pub x : Bytes
  pub y : Bytes

-- crypto.PublicKey: a modulus and an exponent, a curve by its name and a point, or 32 bytes
pub data PublicKey : Type 0 where
  rsa : ℕ → ℤ → PublicKey
  ecdsa : Bytes → ℕ → ℕ → PublicKey
  ed25519 : Bytes → PublicKey

pub record Response : Type 0 where
  pub status_code : ℕ
  pub body : Result Bytes Bytes

-- what the code calls, with the text of an error; `W` is the world of the network
pub record Web (W : Type 0) : Type 0 where
  pub base64 : Bytes → Result Bytes Bytes
  pub unmarshal_jwks : Bytes → Result Bytes (List Jwk)
  pub get : Bytes → W → Result Bytes Response × W

-- big.Int.SetBytes
unfoldable pub number_of : ℕ → Bytes → ℕ
number_of n [] = n
number_of n (b ∷ s) = number_of (n * 256 + b) s

exponent_of : ℤ → Bytes → ℤ
exponent_of n [] = n
exponent_of n (b ∷ s) = exponent_of (wrap64 (n *ℤ pos 256 +ℤ pos b)) s

-- lastFetched is none before the first fetch
pub record JwksCache : Type 0 where
  pub keys : List (Bytes × PublicKey)
  pub last_fetched : Option ℕ
  pub jwks_url : Bytes

abbrev pub cooldown : ℕ
cooldown = 1000000000

unfoldable pub new_jwks_cache : Bytes → List (Bytes × PublicKey) → JwksCache
new_jwks_cache url static_keys = record { keys = static_keys; last_fetched = none; jwks_url = url }

-- ErrUnknownKID, or another error by its text
pub data KeyError : Type 0 where
  unknown_key : KeyError
  no_fetch : Bytes → KeyError

pub no_keys : List (Bytes × PublicKey) → Bool
no_keys [] = true
no_keys (k ∷ ks) = false

-- time.Since(last) < cooldown
pub is_recent : ℕ → Option ℕ → Bool
is_recent now none = false
is_recent now (some last) = ltb now (last + cooldown)

-- fmt.Errorf with a text before the error
with_text : {A : Type 0} → Bytes → Result Bytes A → Result Bytes A
with_text s (ok a) = ok a
with_text s (err e) = err (s ++ e)

found_key : Option PublicKey → Result KeyError PublicKey
found_key none = err unknown_key
found_key (some k) = ok k

module _ {W : Type 0} (web : Web W) where
  rsa_key : Jwk → Result Bytes PublicKey
  unfolding exponent_of
  rsa_key jwk = do
    n ← web.base64 jwk.n
    e ← web.base64 jwk.e
    ok (rsa (number_of 0 n) (exponent_of (pos 0) e))

  ec_key : Jwk → Result Bytes PublicKey
  ec_key jwk = do
    x ← web.base64 jwk.x
    y ← web.base64 jwk.y
    ok (ecdsa jwk.crv (number_of 0 x) (number_of 0 y))

  okp_key : Jwk → Result Bytes PublicKey
  okp_key jwk = do x ← web.base64 jwk.x; ok (ed25519 x)

  is_curve : Bytes → Bool
  is_curve c =
      if c ≟ bytes "P-256" then true else if c ≟ bytes "P-384" then true else c ≟ bytes "P-521"

  unfoldable pub parse_jwk : Jwk → Result Bytes PublicKey
  unfolding rsa_key ec_key okp_key is_curve
  parse_jwk jwk =
      if to_upper jwk.kty ≟ bytes "RSA"
      then rsa_key jwk
      else if to_upper jwk.kty ≟ bytes "EC"
      then (if is_curve jwk.crv
          then ec_key jwk
          else err (bytes "unsupported EC curve: " ++ jwk.crv))
      else if to_upper jwk.kty ≟ bytes "OKP"
      then (if jwk.crv ≟ bytes "Ed25519"
          then okp_key jwk
          else err (bytes "unsupported OKP curve: " ++ jwk.crv))
      else err (bytes "unsupported key type: " ++ jwk.kty)

  insert_parsed :
      Bytes → Result Bytes PublicKey → List (Bytes × PublicKey) → List (Bytes × PublicKey)
  insert_parsed kid (err e) m = m
  insert_parsed kid (ok k) m = insert kid k m

  -- the keys of an answer over those that are there; one that does not parse is left out
  merge_keys : List Jwk → List (Bytes × PublicKey) → List (Bytes × PublicKey)
  unfolding insert_parsed
  merge_keys [] m = m
  merge_keys (j ∷ js) m = merge_keys js (insert_parsed j.kid (parse_jwk j) m)

  read_keys : Response → Result Bytes (List Jwk)
  unfolding with_text
  read_keys r = elim (r.status_code == 200) [
    | false ↦ err (bytes "jwks endpoint returned HTTP status " ++ format_ℕ r.status_code)
    | true ↦ do
      body ← r.body
      with_text (bytes "failed to parse JWKS JSON: ") (web.unmarshal_jwks body)
  ]

  fetched : ℕ → JwksCache → Result Bytes (List Jwk) → W → Result Bytes (Unit {0}) × JwksCache × W
  unfolding merge_keys
  fetched now c (err e) w = (err e, c, w)
  fetched now c (ok js) w =
      (ok tt, record c { keys = merge_keys js c.keys; last_fetched = some now }, w)

  fetch_from : ℕ → JwksCache → Result Bytes Response × W → Result Bytes (Unit {0}) × JwksCache × W
  unfolding fetched read_keys
  fetch_from now c (r, w) = fetched now c (do x ← r; read_keys x) w

  fetch_url : ℕ → Bytes → JwksCache → W → Result Bytes (Unit {0}) × JwksCache × W
  unfolding fetch_from
  fetch_url now [] c w = (ok tt, c, w)
  fetch_url now (u ∷ url) c w = fetch_from now c (web.get (u ∷ url) w)

  -- fetchLocked, and Refresh
  unfoldable pub refresh : ℕ → JwksCache → W → Result Bytes (Unit {0}) × JwksCache × W
  unfolding fetch_url
  refresh now c w = fetch_url now c.jwks_url c w

  after_fetch :
      Bytes → Result Bytes (Unit {0}) × JwksCache × W → Result KeyError PublicKey × JwksCache × W
  unfolding found_key
  after_fetch kid (err e, c, w) =
      (err (no_fetch (bytes "failed to fetch JWKS from " ++ c.jwks_url ++ bytes ": " ++ e)), c, w)
  after_fetch kid (ok u, c, w) = (found_key (lookup kid c.keys), c, w)

  rotate : Bool → ℕ → Bytes → JwksCache → W → Result KeyError PublicKey × JwksCache × W
  unfolding after_fetch
  rotate true now kid c w = (err unknown_key, c, w)
  rotate false now kid c w = after_fetch kid (refresh now c w)

  missing : Bytes → ℕ → Bytes → JwksCache → W → Result KeyError PublicKey × JwksCache × W
  unfolding rotate is_recent no_keys
  missing [] now kid c w = (err unknown_key, c, w)
  missing (u ∷ url) now kid c w =
      rotate (is_recent now c.last_fetched && not (no_keys c.keys)) now kid c w

  get_cached :
      Option PublicKey → ℕ → Bytes → JwksCache → W → Result KeyError PublicKey × JwksCache × W
  unfolding missing
  get_cached (some k) now kid c w = (ok k, c, w)
  get_cached none now kid c w = missing c.jwks_url now kid c w

  unfoldable pub get_key : ℕ → Bytes → JwksCache → W → Result KeyError PublicKey × JwksCache × W
  unfolding get_cached
  get_key now kid c w = get_cached (lookup kid c.keys) now kid c w
