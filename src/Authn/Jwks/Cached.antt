-- ===== src/Authn/Jwks/Cached.antt =====
-- When the keys of an issuer are fetched (internal/security/authn/jwt.go, GetKey).
use torana_enterprise.Prelude.{
  ℕ, ◌≡◌, refl, ap, ◌⊎◌, inl, inr, Bool, true, false, ◌&&◌, not, [], ◌∷◌, Option, none, some,
}
use torana_enterprise.Prelude.Maps.{lookup}
use torana_enterprise.Prelude.Bytes.{Bytes, bytes_key}
use torana_enterprise.Prelude.Results.{Result, ok, err}
use torana_enterprise.Authn.Jwks.{
  PublicKey, Web, JwksCache, KeyError, no_keys, is_recent, found_key, after_fetch, rotate, missing,
  get_cached, get_key, refresh,
}

found_key-ok : (o : Option PublicKey) (k : PublicKey) → found_key o ≡ ok k → o ≡ some k
unfolding found_key
found_key-ok none k h = cc
found_key-ok (some j) k h = ap (λ x. some x) (cc h)

module _ {W : Type 0} (web : Web W) where
  -- The key is one of the cache, and nothing is fetched unless the cache has no such key and is empty or
  -- was not filled within the last second.
  abbrev pub Caches : ℕ → Bytes → JwksCache → W → Result KeyError PublicKey × JwksCache × W → Type 0
  Caches now kid c w r =
      ((k : PublicKey) → r.0 ≡ ok k → lookup kid r.1.keys ≡ some k)
      × (((r.1 ≡ c) × (r.2 ≡ w))
          ⊎ ((lookup kid c.keys ≡ none)
              × ((is_recent now c.last_fetched && not (no_keys c.keys)) ≡ false)))

  fetched-key :
      (kid : Bytes) (r : Result Bytes (Unit {0}) × JwksCache × W) (k : PublicKey)
      → (after_fetch web kid r).0 ≡ ok k
      → lookup kid (after_fetch web kid r).1.keys ≡ some k
  unfolding after_fetch
  fetched-key kid (err e, c, w) k h = cc
  fetched-key kid (ok u, c, w) k h = found_key-ok (lookup kid c.keys) k h

  rotate-Caches :
      (b : Bool) (now : ℕ) (kid : Bytes) (c : JwksCache) (w : W)
      → lookup kid c.keys ≡ none
      → (is_recent now c.last_fetched && not (no_keys c.keys)) ≡ b
      → Caches now kid c w (rotate web b now kid c w)
  unfolding rotate
  rotate-Caches true now kid c w m e = ((λ k h. cc), inl (refl, refl))
  rotate-Caches false now kid c w m e =
      ((λ k h. fetched-key kid (refresh web now c w) k h), inr (m, e))

  missing-Caches :
      (url : Bytes) (now : ℕ) (kid : Bytes) (c : JwksCache) (w : W)
      → lookup kid c.keys ≡ none
      → Caches now kid c w (missing web url now kid c w)
  unfolding missing
  missing-Caches [] now kid c w m = ((λ k h. cc), inl (refl, refl))
  missing-Caches (u ∷ url) now kid c w m = rotate-Caches _ now kid c w m refl

  cached-Caches :
      (o : Option PublicKey) (now : ℕ) (kid : Bytes) (c : JwksCache) (w : W)
      → lookup kid c.keys ≡ o
      → Caches now kid c w (get_cached web o now kid c w)
  unfolding get_cached
  cached-Caches (some j) now kid c w m =
      ((λ k h. (let same : j ≡ k = cc h in cc (m, same))), inl (refl, refl))
  cached-Caches none now kid c w m = missing-Caches c.jwks_url now kid c w m

  pub get_key-Caches :
      (now : ℕ) (kid : Bytes) (c : JwksCache) (w : W) → Caches now kid c w (get_key web now kid c w)
  unfolding get_key
  get_key-Caches now kid c w = cached-Caches (lookup kid c.keys) now kid c w refl
