-- ===== src/Authn/ApiKeys/Admission.antt =====
-- Which API keys are accepted (internal/security/authn/apikey.go, ValidateAPIKey).
use torana_enterprise.Prelude.{
  ℕ, ◌≡◌, ◌≢◌, refl, subst, ap, ◌↔◌, inl, inr, false, [], ◌∷◌, Option, none, some, Bool-cases,
}
use torana_enterprise.Prelude.Maps.{◌≟◌, ≟_iff}
use torana_enterprise.Prelude.Bytes.{Bytes, bytes_key}
use torana_enterprise.Prelude.Results.{ok}
use torana_enterprise.Authn.Identity.{Identity, clone}
use torana_enterprise.Authn.Revocation.{RevocationList}
use torana_enterprise.Authn.ApiKeys.{
  Argon2Params, StoredApiKey, KeyStore, get_by_prefix, is_past, is_listed, identity_of, computed,
  compared, checked, found, split_key, validate_parts, validate_api_key,
}

module _ (sha256 : Bytes → Bytes) (argon2 : Bytes → Bytes → Argon2Params → Bytes) where
  -- A stored key is for this secret: neither expired nor revoked, and with the hash of the secret.
  pub record IsFor (list : Option RevocationList) (now : ℕ) (prefix secret : Bytes)
      (k : StoredApiKey) : Type 0 where
    pub current : is_past k.expires_at now ≡ false
    pub unlisted : is_listed list k.id prefix ≡ false
    pub hash : computed sha256 argon2 secret k ≡ some k.hashed_secret

  compared-ok :
      (prefix : Bytes) (k : StoredApiKey) (o : Option Bytes) (i : Identity)
      → (compared sha256 argon2 prefix k o ≡ ok i)
        ↔ ((o ≡ some k.hashed_secret) × (identity_of prefix (clone k.identity) ≡ i))
  unfolding compared
  compared-ok prefix k none i = ((λ h. cc), λ h. cc (h.0))
  compared-ok prefix k (some h) i = elim (Bool-cases (h ≟ k.hashed_secret)) [
    | inl t ↦
        rw t
          ((λ q. (ap (λ x. some x) ((≟_iff h k.hashed_secret).0 t), cc q)), λ q. ap (λ x. ok x) q.1)
    | inr f ↦ rw f (
      (λ q. cc q),
      λ q. (let e : h ≡ k.hashed_secret = cc (q.0) in cc ((≟_iff h k.hashed_secret).1 e, f)),
    )
  ]

  checked-ok :
      (list : Option RevocationList) (now : ℕ) (prefix secret : Bytes) (k : StoredApiKey)
      (i : Identity)
      → (checked sha256 argon2 list now prefix secret k ≡ ok i)
        ↔ (IsFor list now prefix secret k × (identity_of prefix (clone k.identity) ≡ i))
  unfolding checked
  checked-ok list now prefix secret k i = elim (Bool-cases (is_past k.expires_at now)) [
    | inl t ↦ rw t ((λ h. cc), λ h. cc (h.0.current, t))
    | inr f ↦ elim (Bool-cases (is_listed list k.id prefix)) [
      | inl t ↦ rw (f, t) ((λ h. cc), λ h. cc (h.0.unlisted, t))
      | inr g ↦
          let c = compared-ok prefix k (computed sha256 argon2 secret k) i in
          rw (f, g)
            (
              (λ h. (record { current = f; unlisted = g; hash = (c.0 h).0 }, (c.0 h).1)),
              λ h. c.1 (h.0.hash, h.1),
            )
    ]
  ]

  -- What the parts of an accepted key are, and the identity that they give.
  abbrev pub Admits : Option RevocationList → ℕ → KeyStore → Bytes × Bytes → Identity → Type 0
  Admits list now keys (prefix, secret) i =
      (prefix ≢ [])
      × (secret ≢ [])
      × ((k : StoredApiKey) × (get_by_prefix prefix keys ≡ some k)
          × IsFor list now prefix secret k
          × (identity_of prefix (clone k.identity) ≡ i))

  found-ok :
      (list : Option RevocationList) (now : ℕ) (prefix secret : Bytes) (o : Option StoredApiKey)
      (i : Identity)
      → (found sha256 argon2 list now prefix secret o ≡ ok i) ↔ (
          (k : StoredApiKey) × (o ≡ some k)
          × IsFor list now prefix secret k
          × (identity_of prefix (clone k.identity) ≡ i))
  unfolding found
  found-ok list now prefix secret none i = ((λ h. cc), λ h. cc (h.1))
  found-ok list now prefix secret (some k) i =
      let c = checked-ok list now prefix secret k i in
      (
        (λ h. (k, refl, (c.0 h).0, (c.0 h).1)),
        λ (k', e, f, same).
            (let s : k' ≡ k = cc e in
              c.1 (
                subst
                  (λ x.
                    IsFor list now prefix secret x × (identity_of prefix (clone x.identity) ≡ i))
                  s (f, same))),
      )

  validate_parts-ok :
      (list : Option RevocationList) (now : ℕ) (keys : KeyStore) (parts : Bytes × Bytes)
      (i : Identity)
      → (validate_parts sha256 argon2 list now keys parts ≡ ok i) ↔ Admits list now keys parts i
  unfolding validate_parts
  validate_parts-ok list now keys ([], secret) i = ((λ h. cc), λ h. absurd (h.0 refl))
  validate_parts-ok list now keys (c ∷ prefix, []) i = ((λ h. cc), λ h. absurd (h.1 refl))
  validate_parts-ok list now keys (c ∷ prefix, d ∷ secret) i =
      let f = found-ok list now (c ∷ prefix) (d ∷ secret) (get_by_prefix (c ∷ prefix) keys) i in
      ((λ h. ((λ e. cc e), (λ e. cc e), f.0 h)), λ h. f.1 h.2)

  -- ValidateAPIKey accepts a key exactly if its two parts are not empty and the store has, under the
  -- first, a key that is neither expired nor revoked and has the hash of the second by an algorithm that is
  -- supported; the identity is that of the stored key, or one named by the first part.
  pub validate_api_key-ok :
      (n : ℕ) (list : Option RevocationList) (now : ℕ) (keys : KeyStore) (raw : Bytes)
      (i : Identity)
      → (validate_api_key sha256 argon2 n list now keys raw ≡ ok i)
        ↔ Admits list now keys (split_key n keys raw) i
  unfolding validate_api_key
  validate_api_key-ok n list now keys raw i =
      validate_parts-ok list now keys (split_key n keys raw) i
