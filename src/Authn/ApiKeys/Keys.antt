-- ===== src/Authn/ApiKeys/Keys.antt =====
-- That a stored API key is accepted (internal/security/authn/apikey.go, Store and ValidateAPIKey).
use torana_enterprise.Prelude.{
  ℕ, ◌≤◌, ◌<◌, ◌≡◌, ◌≢◌, refl, ◌∙◌, ap, ◌⊎◌, inl, inr, true, ◌&&◌, [], ◌∷◌, ◌++◌, Option, some,
  arith, All, length, ltb, Bool-cases, if◌then◌else◌,
}
use torana_enterprise.Prelude.Maps.{◌≟◌, insert, lookup-insert_self}
use torana_enterprise.Prelude.Bytes.{Bytes, bytes, bytes_key, has_prefix, drop_prefix, trim_space}
use torana_enterprise.Prelude.Results.{ok}
use torana_enterprise.Authn.Identity.{clone}
use torana_enterprise.Authn.Revocation.{RevocationList}
use torana_enterprise.Authn.ApiKeys.{
  Argon2Params, StoredApiKey, KeyStore, get_by_prefix, store_at, store_key, or_same, trim_prefix,
  best_prefix, by_secret, by_prefix, split_trimmed, split_key, identity_of, validate_api_key,
}
use torana_enterprise.Authn.ApiKeys.Admission.{IsFor, validate_api_key-ok}

has_prefix-append : (p s : Bytes) → has_prefix (p ++ s) p ≡ true
unfolding has_prefix
has_prefix-append [] s = refl
has_prefix-append (c ∷ p) s = ground (arith, has_prefix-append p s)

drop_prefix-append : (p s : Bytes) → drop_prefix p (p ++ s) ≡ some s
unfolding drop_prefix
drop_prefix-append [] s = refl
drop_prefix-append (c ∷ p) s = ground (arith, drop_prefix-append p s)

-- Prefixes of one key with one length are one.
one_prefix :
    (key p q : Bytes)
    → has_prefix key p ≡ true
    → has_prefix key q ≡ true
    → length p ≡ length q
    → p ≡ q
unfolding has_prefix
one_prefix key [] [] h k e = refl
one_prefix key [] (d ∷ q) h k e = absurd (omega (arith, e))
one_prefix key (c ∷ p) [] h k e = absurd (omega (arith, e))
one_prefix [] (c ∷ p) (d ∷ q) h k e = cc
one_prefix (b ∷ key) (c ∷ p) (d ∷ q) h k e =
    let heads : c ≡ d = ground (arith, h, k) in
    let tails : p ≡ q =
      one_prefix key p q (ground (arith, h)) (ground (arith, k)) (omega (arith, e)) in
    cc (heads, tails)

-- No registered prefix of the key is longer.
abbrev pub IsLongest : Bytes → Bytes → KeyStore → Type 0
IsLongest key p keys =
    All (λ (e : Bytes × StoredApiKey). has_prefix key e.0 ≡ true → length e.0 ≤ length p) keys

best_prefix-kept :
    (key p : Bytes) (keys : KeyStore) → IsLongest key p keys → best_prefix key p keys ≡ p
unfolding best_prefix
best_prefix-kept key p [] h = refl
best_prefix-kept key p ((q, k) ∷ keys) (h, hs) =
    elim (Bool-cases (has_prefix key q && ltb (length p) (length q))) [
      | inl t ↦ absurd (ground (arith, h, t))
      | inr f ↦ rw f (best_prefix-kept key p keys hs)
    ]

-- one turn of the loop over the prefixes
abbrev better : Bytes → Bytes → Bytes → Bytes
better key best q = if has_prefix key q && ltb (length best) (length q) then q else best

taken :
    (key best p : Bytes)
    → has_prefix key p ≡ true
    → (best ≡ p) ⊎ (length best < length p)
    → better key best p ≡ p
taken key best p h (inl e) = elim (Bool-cases (has_prefix key p && ltb (length best) (length p))) [
  | inl t ↦ rw t refl
  | inr f ↦ rw f e
]
taken key best p h (inr l) = ground (arith, h, l)

still :
    (key best p q : Bytes)
    → has_prefix key p ≡ true
    → (best ≡ p) ⊎ (length best < length p)
    → (has_prefix key q ≡ true → length q ≤ length p)
    → (better key best q ≡ p) ⊎ (length (better key best q) < length p)
still key best p q h b l = elim (Bool-cases (has_prefix key q)) [
  | inl u ↦ elim (Bool-cases (ltb (length best) (length q))) [
    | inl t ↦ elim (Bool-cases (ltb (length q) (length p))) [
      | inl s ↦ rw (u, t) (inr (ground (arith, s)))
      | inr s ↦ rw (u, t) (inl (one_prefix key q p u h (ground (arith, s, l u))))
    ]
    | inr f ↦ rw (u, f) b
  ]
  | inr f ↦ rw f b
]

-- The best so far is the prefix itself or a shorter one.
best_prefix-insert :
    (key best p : Bytes) (k : StoredApiKey) (keys : KeyStore)
    → has_prefix key p ≡ true
    → (best ≡ p) ⊎ (length best < length p)
    → IsLongest key p keys
    → best_prefix key best (insert p k keys) ≡ p
unfolding best_prefix insert
best_prefix-insert key best p k [] h b l = taken key best p h b
best_prefix-insert key best p k ((q, j) ∷ keys) h b (l, ls) = elim (Bool-cases (q ≟ p)) [
  | inl t ↦
      rw t
        (ap (λ x. best_prefix key x keys) (taken key best p h b) ∙ best_prefix-kept key p keys ls)
  | inr f ↦
      rw f (best_prefix-insert key (better key best q) p k keys h (still key best p q h b l) ls)
]

-- the rest of a key after its prefix and an underscore
secret_part :
    (p : Bytes) (d : ℕ) (secret : Bytes)
    → d ≢ b'.'
    → trim_prefix (bytes ".") (trim_prefix (bytes "_") (trim_prefix p (p ++ b'_' ∷ d ∷ secret)))
      ≡ d ∷ secret
unfolding trim_prefix or_same
secret_part p d secret n =
    rw (drop_prefix-append p (b'_' ∷ d ∷ secret)) (unfold drop_prefix in ground (arith, n))

split_key-joined :
    (n : ℕ) (keys : KeyStore) (c : ℕ) (p : Bytes) (d : ℕ) (secret : Bytes)
    → trim_space ((c ∷ p) ++ b'_' ∷ d ∷ secret) ≡ (c ∷ p) ++ b'_' ∷ d ∷ secret
    → d ≢ b'.'
    → best_prefix ((c ∷ p) ++ b'_' ∷ d ∷ secret) [] keys ≡ c ∷ p
    → split_key n keys ((c ∷ p) ++ b'_' ∷ d ∷ secret) ≡ (c ∷ p, d ∷ secret)
unfolding split_key split_trimmed
split_key-joined n keys c p d secret t m b =
    rw (t, split_trimmed) (rw (b, by_prefix) (rw (secret_part (c ∷ p) d secret m, by_secret) refl))

module _ (sha256 : Bytes → Bytes) (argon2 : Bytes → Bytes → Argon2Params → Bytes) where
  -- A key that is stored with the hash of a secret, and is neither expired nor revoked, is accepted when it
  -- is presented as its prefix, an underscore and the secret, with the identity stored: if no registered
  -- prefix of what is presented is longer, the secret does not begin with a dot, and no space is around
  -- them.
  pub validate_api_key-store_key :
      (n : ℕ) (list : Option RevocationList) (now : ℕ) (keys : KeyStore) (k : StoredApiKey) (c : ℕ)
      (p : Bytes) (d : ℕ) (secret : Bytes)
      → k.prefix ≡ c ∷ p
      → IsFor sha256 argon2 list now (c ∷ p) (d ∷ secret) k
      → trim_space ((c ∷ p) ++ b'_' ∷ d ∷ secret) ≡ (c ∷ p) ++ b'_' ∷ d ∷ secret
      → d ≢ b'.'
      → IsLongest ((c ∷ p) ++ b'_' ∷ d ∷ secret) (c ∷ p) keys
      → validate_api_key sha256 argon2 n list now
          (store_key (some k) keys)
          ((c ∷ p) ++ b'_' ∷ d ∷ secret)
        ≡ ok (identity_of (c ∷ p) (clone k.identity))
  unfolding store_key store_at get_by_prefix
  validate_api_key-store_key n list now keys k c p d secret e f t m l =
      let raw : Bytes = (c ∷ p) ++ b'_' ∷ d ∷ secret in
      let stored : store_key (some k) keys ≡ insert (c ∷ p) k keys = rw (e, store_at) refl in
      let best : best_prefix raw [] (insert (c ∷ p) k keys) ≡ c ∷ p =
        best_prefix-insert raw [] (c ∷ p) k keys (has_prefix-append (c ∷ p) (b'_' ∷ d ∷ secret))
          (inr (omega arith)) l in
      rw stored (
        (validate_api_key-ok sha256 argon2 n list now (insert (c ∷ p) k keys) raw
            (identity_of (c ∷ p) (clone k.identity))).1
          (rw (split_key-joined n (insert (c ∷ p) k keys) c p d secret t m best)
            ((λ q. cc q), (λ q. cc q), (k, lookup-insert_self (c ∷ p) k keys, f, refl))))
