-- ===== src/Authn/Signature.antt =====
-- verifySignature and verifyECDSA (internal/security/authn/jwt.go), over the hashes and the verifications
-- of the crypto packages, which are parameters.
use torana_enterprise.Prelude.{
  ℕ, ◌*◌, Bool, true, false, ◌++◌, length, take, drop, ◌==◌, if◌then◌else◌,
}
use torana_enterprise.Prelude.Int.{ℤ}
use torana_enterprise.Prelude.Maps.{◌≟◌}
use torana_enterprise.Prelude.Bytes.{Bytes, bytes, bytes_key, to_upper}
use torana_enterprise.Prelude.Results.{Result, ok, err}
use torana_enterprise.Authn.Jwks.{PublicKey, rsa, ecdsa, ed25519, number_of}

-- `bits` names the hash: 256, 384 or 512
pub record Crypto : Type 0 where
  pub sha : ℕ → Bytes → Bytes
  pub verify_rsa : ℕ → ℕ → ℤ → Bytes → Bytes → Result Bytes (Unit {0})
  pub verify_ecdsa : Bytes → ℕ → ℕ → Bytes → ℕ → ℕ → Bool
  pub verify_asn1 : Bytes → ℕ → ℕ → Bytes → Bytes → Bool
  pub verify_ed25519 : Bytes → Bytes → Bytes → Bool

module _ (crypto : Crypto) where
  holds : Bytes → Bool → Result Bytes (Unit {0})
  holds text true = ok tt
  holds text false = err text

  unfoldable pub verify_raw_ecdsa : Bytes → ℕ → ℕ → Bytes → Bytes → ℕ → Result Bytes (Unit {0})
  unfolding holds
  verify_raw_ecdsa curve x y hash sig byte_len =
      if length sig == 2 * byte_len
      then holds (bytes "ecdsa raw signature verification failed") (
          crypto.verify_ecdsa curve x y hash (number_of 0 (take byte_len sig))
            (number_of 0 (drop byte_len sig)))
      else holds (bytes "ecdsa verification failed") (crypto.verify_asn1 curve x y hash sig)

  by_rsa : ℕ → PublicKey → Bytes → Bytes → Result Bytes (Unit {0})
  by_rsa bits (rsa n e) content sig = crypto.verify_rsa bits n e (crypto.sha bits content) sig
  by_rsa bits _ content sig = err (bytes "expected RSA public key")

  by_ecdsa : ℕ → ℕ → PublicKey → Bytes → Bytes → Result Bytes (Unit {0})
  by_ecdsa bits byte_len (ecdsa curve x y) content sig =
      verify_raw_ecdsa curve x y (crypto.sha bits content) sig byte_len
  by_ecdsa bits byte_len _ content sig = err (bytes "expected ECDSA public key")

  by_ed25519 : PublicKey → Bytes → Bytes → Result Bytes (Unit {0})
  unfolding holds
  by_ed25519 (ed25519 k) content sig =
      holds (bytes "ed25519 verification failed") (crypto.verify_ed25519 k content sig)
  by_ed25519 _ content sig = err (bytes "expected Ed25519 public key")

  unfoldable pub verify_signature : Bytes → PublicKey → Bytes → Bytes → Result Bytes (Unit {0})
  unfolding by_rsa by_ecdsa by_ed25519
  verify_signature alg key content sig =
      if to_upper alg ≟ bytes "RS256"
      then by_rsa 256 key content sig
      else if to_upper alg ≟ bytes "RS384"
      then by_rsa 384 key content sig
      else if to_upper alg ≟ bytes "RS512"
      then by_rsa 512 key content sig
      else if to_upper alg ≟ bytes "ES256"
      then by_ecdsa 256 32 key content sig
      else if to_upper alg ≟ bytes "ES384"
      then by_ecdsa 384 48 key content sig
      else if to_upper alg ≟ bytes "ES512"
      then by_ecdsa 512 66 key content sig
      else if to_upper alg ≟ bytes "EDDSA"
      then by_ed25519 key content sig
      else err (bytes "unsupported JWT signature algorithm: " ++ alg)
