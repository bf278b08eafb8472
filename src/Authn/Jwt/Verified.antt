-- ===== src/Authn/Jwt/Verified.antt =====
-- What an accepted token has passed (internal/security/authn/jwt.go, ValidateToken).
use torana_enterprise.Prelude.{
  ℕ, ◌^◌, ◌<◌, arith, ◌≡◌, refl, subst, ◌∙◌, ap, Bool, true, false, not, List, [], ◌∷◌, Option,
  none, some,
}
use torana_enterprise.Prelude.Int.{
  ℤ, pos, negsuc, pos_part, neg_part, wrap64, wrap64_id, IsInt64, ◌+ℤ◌, ◌-ℤ◌, ◌≤ℤ◌, ltb_ℤ,
  eq_of_parts,
}
use torana_enterprise.Prelude.Maps.{lookup, lookup-insert_self}
use torana_enterprise.Prelude.Bytes.{Bytes, bytes, bytes_key}
use torana_enterprise.Prelude.Json.{num}
use torana_enterprise.Prelude.Results.{Result, ok, err, >>=-ok}
use torana_enterprise.Authn.Identity.{Identity}
use torana_enterprise.Authn.Provider.{AuthnError}
use torana_enterprise.Authn.Revocation.{RevocationList}
use torana_enterprise.Authn.Jwks.{
  PublicKey, Web, JwksCache, KeyError, unknown_key, no_fetch, get_key,
}
use torana_enterprise.Authn.Jwks.Cached.{get_key-Caches}
use torana_enterprise.Authn.Signature.{Crypto, verify_signature}
use torana_enterprise.Authn.Claims.{
  nanoseconds, to_int64, unix_time, parse_numeric_date, text_claim, build_identity_from_claims,
}
use torana_enterprise.Authn.Jwt.{
  IssuerConfig, TokenText, Token, JwtState, or_because, decoded, require, permits, issuer_in,
  date_passes, is_current, is_started, audience_fits, is_listed, key_error, parse_token, identify,
  signature_error, check_token, with_key, identified, validate_token,
}

or_because-ok :
    {A : Type 0} (e : AuthnError) (s : Bytes) (o : Option A) (a : A)
    → or_because e s o ≡ ok a
    → o ≡ some a
unfolding or_because
or_because-ok e s none a h = cc
or_because-ok e s (some b) a h = ap (λ x. some x) (cc h)

decoded-ok :
    {A : Type 0} (e : AuthnError) (s : Bytes) (r : Result Bytes A) (a : A)
    → decoded e s r ≡ ok a
    → r ≡ ok a
unfolding decoded
decoded-ok e s (err t) a h = cc
decoded-ok e s (ok b) a h = ap (λ x. ok x) (cc h)

require-ok : (b : Bool) (e : AuthnError) (u : Unit {0}) → require b e ≡ ok u → b ≡ true
unfolding require
require-ok true e u h = refl
require-ok false e u h = cc

issuer_in-ok : (o : Option Bytes) (s : Bytes) → issuer_in o ≡ ok s → o ≡ some s
unfolding issuer_in
issuer_in-ok none s h = cc
issuer_in-ok (some []) s h = cc
issuer_in-ok (some (c ∷ t)) s h = ap (λ x. some x) (cc h)

key_error-ok : (r : Result KeyError PublicKey) (k : PublicKey) → key_error r ≡ ok k → r ≡ ok k
unfolding key_error
key_error-ok (ok j) k h = ap (λ x. ok x) (cc h)
key_error-ok (err unknown_key) k h = cc
key_error-ok (err (no_fetch s)) k h = cc

signature_error-ok :
    (r : Result Bytes (Unit {0})) (u : Unit {0}) → signature_error r ≡ ok u → r ≡ ok u
unfolding signature_error
signature_error-ok (ok v) u h = refl
signature_error-ok (err s) u h = cc

at_most : (a b : ℤ) → not (ltb_ℤ a b) ≡ true → b ≤ℤ a
at_most a b h = ground arith

-- seconds that time.Unix takes as they are
abbrev pub IsDate : ℤ → Type 0
IsDate n = (pos_part n < 2 ^ 62) × (neg_part n < 2 ^ 62)

to_int64_exact : (overflow : ℤ → ℤ) (n : ℤ) → IsDate n → to_int64 overflow n ≡ n
unfolding to_int64
to_int64_exact overflow (pos n) h = ground arith
to_int64_exact overflow (negsuc n) h = ground arith

unix_time_exact : (n : ℤ) → IsDate n → unix_time n ≡ nanoseconds n
unfolding unix_time
unix_time_exact n h =
    ap nanoseconds
      (ap (λ x. x -ℤ pos 62135596800) (wrap64_id (n +ℤ pos 62135596800) (in_range n h)) ∙ back n)
  where
    in_range : (n : ℤ) → IsDate n → IsInt64 (n +ℤ pos 62135596800)
    in_range n h = unfold ◌+ℤ◌ in ground arith

    back : (n : ℤ) → n +ℤ pos 62135596800 -ℤ pos 62135596800 ≡ n
    back n = unfold ◌+ℤ◌ ◌-ℤ◌ in eq_of_parts _ _ (ground arith)

parse_numeric_date_exact :
    (overflow : ℤ → ℤ) (n : ℤ)
    → IsDate n
    → parse_numeric_date overflow (num n) ≡ some (nanoseconds n)
unfolding parse_numeric_date
parse_numeric_date_exact overflow n h =
    ap some (ap unix_time (to_int64_exact overflow n h) ∙ unix_time_exact n h)

date_tested :
    (overflow : ℤ → ℤ) (test : ℤ → Bool) (n : ℤ)
    → IsDate n
    → date_passes overflow test (some (num n)) ≡ some true
    → test (nanoseconds n) ≡ true
unfolding date_passes
date_tested overflow test n h e =
    let q : date_passes overflow test (some (num n)) ≡ some (test (nanoseconds n)) =
      simp (parse_numeric_date_exact overflow n h, date_passes) in
    cc (q, e)

current_date :
    (overflow : ℤ → ℤ) (now skew n : ℤ)
    → IsDate n
    → date_passes overflow (is_current now skew) (some (num n)) ≡ some true
    → now ≤ℤ nanoseconds n +ℤ skew
current_date overflow now skew n h e =
    at_most (nanoseconds n +ℤ skew) now
      (unfold is_current in date_tested overflow (is_current now skew) n h e)

started_date :
    (overflow : ℤ → ℤ) (now skew n : ℤ)
    → IsDate n
    → date_passes overflow (is_started now skew) (some (num n)) ≡ some true
    → nanoseconds n +ℤ wrap64 (pos 0 -ℤ skew) ≤ℤ now
started_date overflow now skew n h e =
    at_most now (nanoseconds n +ℤ wrap64 (pos 0 -ℤ skew))
      (unfold is_started in date_tested overflow (is_started now skew) n h e)

not-true : (b : Bool) → not b ≡ true → b ≡ false
not-true true h = cc
not-true false h = refl

module _ {W : Type 0} (web : Web W) (crypto : Crypto) (text : TokenText) where
  -- The token is of an issuer that is configured, by an algorithm that it permits.
  pub record IsIdentified (raw : Bytes) (issuers : List (Bytes × IssuerConfig)) (t : Token)
      (iss : Bytes) (cfg : IssuerConfig) : Type 0 where
    pub parsed : parse_token web crypto text raw ≡ ok t
    pub named : text_claim (bytes "iss") t.claims ≡ some iss
    pub configured : lookup iss issuers ≡ some cfg
    pub permitted : permits cfg.allowed_algorithms t.header.alg ≡ true

  -- Its signature is by the key, and its claims fit the time, the audiences and the revocation list.
  pub record IsValid (list : Option RevocationList) (now : ℤ) (raw : Bytes) (cfg : IssuerConfig)
      (t : Token) (key : PublicKey) : Type 0 where
    pub sig : Bytes
    pub sig_decoded : web.base64 t.signature ≡ ok sig
    pub signed : verify_signature crypto t.header.alg key t.signed_content sig ≡ ok tt
    pub current :
        date_passes text.overflow (is_current now cfg.clock_skew) (lookup (bytes "exp") t.claims)
        ≡ some true
    pub started :
        date_passes text.overflow (is_started now cfg.clock_skew) (lookup (bytes "nbf") t.claims)
        ≡ some true
    -- what that means for a date whose seconds are well within the range of an int64
    pub not_expired :
        (n : ℤ)
        → lookup (bytes "exp") t.claims ≡ some (num n)
        → IsDate n
        → now ≤ℤ nanoseconds n +ℤ cfg.clock_skew
    pub not_before :
        (n : ℤ)
        → lookup (bytes "nbf") t.claims ≡ some (num n)
        → IsDate n
        → nanoseconds n +ℤ wrap64 (pos 0 -ℤ cfg.clock_skew) ≤ℤ now
    pub audience : audience_fits cfg.audiences (lookup (bytes "aud") t.claims) ≡ true
    pub unlisted :
        is_listed list (text_claim (bytes "jti") t.claims) (text.hex (crypto.sha 256 raw)) ≡ false

  identify-ok :
      (raw : Bytes) (issuers : List (Bytes × IssuerConfig)) (t : Token) (iss : Bytes)
      (cfg : IssuerConfig)
      → identify web crypto text raw issuers ≡ ok (t, iss, cfg)
      → IsIdentified raw issuers t iss cfg
  unfolding identify
  identify-ok raw issuers t iss cfg h =
      let (t1, p, h1) = >>=-ok (parse_token web crypto text raw) _ h in
      let (iss1, n, h2) = >>=-ok (issuer_in (text_claim (bytes "iss") t1.claims)) _ h1 in
      let (cfg1, l, h3) = >>=-ok (or_because _ _ (lookup iss1 issuers)) _ h2 in
      let (u, a, h4) = >>=-ok (require (permits cfg1.allowed_algorithms t1.header.alg) _) _ h3 in
      let same : (t1, iss1, cfg1) ≡ (t, iss, cfg) = cc h4 in
      subst (λ (x : Token × Bytes × IssuerConfig). IsIdentified raw issuers x.0 x.1 x.2) same
        (record {
          parsed = p;
          named = issuer_in-ok (text_claim (bytes "iss") t1.claims) iss1 n;
          configured = or_because-ok _ _ (lookup iss1 issuers) cfg1 l;
          permitted = require-ok (permits cfg1.allowed_algorithms t1.header.alg) _ u a;
        })

  check_token-ok :
      (list : Option RevocationList) (now : ℤ) (raw : Bytes) (cfg : IssuerConfig) (t : Token)
      (key : PublicKey) (i : Identity)
      → check_token web crypto text list now raw cfg t key ≡ ok i
      → IsValid list now raw cfg t key × (i ≡ build_identity_from_claims t.claims)
  unfolding check_token
  check_token-ok list now raw cfg t key i h =
      let (sig, d, h1) = >>=-ok (decoded _ _ (web.base64 t.signature)) _ h in
      let (u, v, h2) =
        >>=-ok (signature_error (verify_signature crypto t.header.alg key t.signed_content sig)) _
          h1 in
      let (c, e, h3) =
        >>=-ok
          (or_because _ _ (
            date_passes text.overflow (is_current now cfg.clock_skew)
              (lookup (bytes "exp") t.claims)))
          _ h2 in
      let (u1, ce, h4) = >>=-ok (require c _) _ h3 in
      let (s, n1, h5) =
        >>=-ok
          (or_because _ _ (
            date_passes text.overflow (is_started now cfg.clock_skew)
              (lookup (bytes "nbf") t.claims)))
          _ h4 in
      let (u2, se, h6) = >>=-ok (require s _) _ h5 in
      let (u3, ae, h7) =
        >>=-ok (require (audience_fits cfg.audiences (lookup (bytes "aud") t.claims)) _) _ h6 in
      let (u4, le, h8) =
        >>=-ok
          (require
            (not
              (is_listed list (text_claim (bytes "jti") t.claims) (text.hex (crypto.sha 256 raw))))
            _)
          _ h7 in
      (
        record {
          sig = sig;
          sig_decoded = decoded-ok _ _ (web.base64 t.signature) sig d;
          signed = signature_error-ok _ u v;
          current = or_because-ok _ _ _ c e ∙ ap (λ b. some b) (require-ok c _ u1 ce);
          started = or_because-ok _ _ _ s n1 ∙ ap (λ b. some b) (require-ok s _ u2 se);
          not_expired = λ n at d. current_date text.overflow now cfg.clock_skew n d (
              subst (λ o. date_passes text.overflow (is_current now cfg.clock_skew) o ≡ some true)
                at (or_because-ok _ _ _ c e ∙ ap (λ b. some b) (require-ok c _ u1 ce)));
          not_before = λ n at d. started_date text.overflow now cfg.clock_skew n d (
              subst (λ o. date_passes text.overflow (is_started now cfg.clock_skew) o ≡ some true)
                at (or_because-ok _ _ _ s n1 ∙ ap (λ b. some b) (require-ok s _ u2 se)));
          audience = require-ok _ _ u3 ae;
          unlisted = not-true _ (require-ok _ _ u4 le);
        },
        cc h8,
      )

  -- What a token that is accepted has passed, at the state before and the state after.
  abbrev pub Accepted :
      Option RevocationList → ℕ → Bytes → JwtState W → JwtState W → Identity → Type 0
  Accepted list now raw st st' i =
      (t : Token) × (iss : Bytes) × (cfg : IssuerConfig) × (key : PublicKey) × IsIdentified raw
        st.issuers t iss cfg
      × IsValid list (pos now) raw cfg t key
      × (i ≡ build_identity_from_claims t.claims)
      × ((cfg' : IssuerConfig) × (lookup iss st'.issuers ≡ some cfg')
          × (lookup t.header.kid cfg'.cache.keys ≡ some key))

  with_key-ok :
      (list : Option RevocationList) (now : ℕ) (raw : Bytes) (t : Token) (iss : Bytes)
      (cfg : IssuerConfig) (st : JwtState W) (r : Result KeyError PublicKey × JwksCache × W)
      (i : Identity)
      → IsIdentified raw st.issuers t iss cfg
      → ((k : PublicKey) → r.0 ≡ ok k → lookup t.header.kid r.1.keys ≡ some k)
      → (with_key web crypto text list (pos now) raw t iss cfg st.issuers r).0 ≡ ok i
      → Accepted list now raw st
          (with_key web crypto text list (pos now) raw t iss cfg st.issuers r).1
          i
  unfolding with_key
  with_key-ok list now raw t iss cfg st (r, cache, w) i id keys h =
      let (key, k, h1) = >>=-ok (key_error r) _ h in
      let (v, same) = check_token-ok list (pos now) raw cfg t key i h1 in
      (
        t,
        iss,
        cfg,
        key,
        id,
        v,
        same,
        (
          record cfg { cache = cache },
          lookup-insert_self iss _ st.issuers,
          keys key (key_error-ok r key k),
        ),
      )

  identified-ok :
      (list : Option RevocationList) (now : ℕ) (raw : Bytes) (st : JwtState W)
      (x : Result AuthnError (Token × Bytes × IssuerConfig)) (i : Identity)
      → identify web crypto text raw st.issuers ≡ x
      → (identified web crypto text list now raw st x).0 ≡ ok i
      → Accepted list now raw st (identified web crypto text list now raw st x).1 i
  unfolding identified
  identified-ok list now raw st (err e) i q h = cc
  identified-ok list now raw st (ok (t, iss, cfg)) i q h =
      with_key-ok list now raw t iss cfg st (get_key web now t.header.kid cfg.cache st.net) i
        (identify-ok raw st.issuers t iss cfg q)
        (get_key-Caches web now t.header.kid cfg.cache st.net).0 h

  -- ValidateToken accepts a token only if it parses, its issuer is configured and permits its algorithm,
  -- its signature is by a key that the cache of the issuer then holds under the key id of the token,
  -- its exp and nbf claims, where it has them, pass the tests against the clock on the time that the code
  -- reads from them, so that a number of seconds within 2^62 of the epoch is met within the skew (a larger
  -- one is read as int64 and time.Unix make it), its audience is one of the issuer's
  -- where there are some, and neither its jti claim nor its hash is revoked. The identity is that of its
  -- claims.
  pub validate_token-Accepted :
      (list : Option RevocationList) (now : ℕ) (raw : Bytes) (st : JwtState W) (i : Identity)
      → (validate_token web crypto text list now raw st).0 ≡ ok i
      → Accepted list now raw st (validate_token web crypto text list now raw st).1 i
  unfolding validate_token
  validate_token-Accepted list now raw st i h =
      identified-ok list now raw st (identify web crypto text raw st.issuers) i refl h
