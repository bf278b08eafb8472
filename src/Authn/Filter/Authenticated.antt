-- ===== src/Authn/Filter/Authenticated.antt =====
-- Whom the authentication filter lets pass (internal/security/authn/filter.go).
use torana_enterprise.Prelude.{
  ℕ, ◌≡◌, refl, subst, ◌⊎◌, inl, inr, Bool, true, false, List, [], ◌∷◌, ◌++◌, Option, none, some,
  arith, if◌then◌else◌,
}
use torana_enterprise.Prelude.Bytes.{Bytes}
use torana_enterprise.Prelude.Json.{Json}
use torana_enterprise.Prelude.Results.{Result, ok, err}
use torana_enterprise.Authn.Identity.{Identity}
use torana_enterprise.Authn.Provider.{AuthnError, is_no_credentials, Provider, set_identity}
use torana_enterprise.Authn.Revocation.{RevocationList, is_revoked}
use torana_enterprise.Authn.Filter.{
  FilterConfig, phase_or_default, unauthorized, accept, refused, on_error, answered,
  authenticate_with, authn_filter,
}
use torana_enterprise.Pipeline.Types.{
  Phase, continue, halt, Err, Decision, Envelope, continue_decision, halt_decision, same_phase,
}
use torana_enterprise.Pipeline.Chain.{FilterWrapper, Moment, execute_phase}
use torana_enterprise.Pipeline.Chain.FailClosed.{Passed}
use torana_enterprise.Pipeline.Chain.Passage.{continue-Admits}
use torana_enterprise.Pipeline.Breaker.{CircuitBreaker}

only_if : (b x : Bool) → b ≡ true → (if b then x else false) ≡ false → x ≡ false
only_if b x c h = ground arith

module _ {W : Type 0} (show : Json → Bytes) (list_of : W → RevocationList) where
  -- A provider of the list accepts the credentials, after others that find none; its identity is not
  -- revoked where that is checked, and the envelope afterwards bears it.
  pub data Vouches (checks : Bool) : List (Provider W) → Envelope → W → Envelope → W → Type 0 where
    vouched :
        (p : Provider W) (ps : List (Provider W)) (env : Envelope) (w : W) (i : Identity) (w' : W)
        → p.authenticate env w ≡ (ok i, w')
        → (checks ≡ true → is_revoked i.subject (list_of w') ≡ false)
        → Vouches checks (p ∷ ps) env w (set_identity show (some i) env) w'
    skipped :
        (p : Provider W) (ps : List (Provider W)) (env : Envelope) (w : W) (e : AuthnError) (w1 : W)
        (env' : Envelope) (w' : W)
        → p.authenticate env w ≡ (err e, w1)
        → is_no_credentials e ≡ true
        → Vouches checks ps env w1 env' w'
        → Vouches checks (p ∷ ps) env w env' w'

  -- No provider of the list finds credentials.
  pub data Nobody : List (Provider W) → Envelope → W → W → Type 0 where
    no_provider : (env : Envelope) (w : W) → Nobody [] env w w
    found_none :
        (p : Provider W) (ps : List (Provider W)) (env : Envelope) (w : W) (e : AuthnError)
        (w1 w' : W)
        → p.authenticate env w ≡ (err e, w1)
        → is_no_credentials e ≡ true
        → Nobody ps env w1 w'
        → Nobody (p ∷ ps) env w w'

  -- What Process answers: without an error it continues, for a caller that a provider vouches for or, where
  -- authentication is not required, for one without credentials; with an error it halts the request
  -- with status 401 and leaves the envelope.
  abbrev pub Authenticates :
      Bool → Bool → List (Provider W) → Envelope → W → Decision × Option Err × Envelope × W → Type 0
  Authenticates checks require ps env w (d, none, env', w') =
      (d ≡ continue_decision)
      × (Vouches checks ps env w env' w' ⊎ ((require ≡ false) × (env' ≡ env) × Nobody ps env w w'))
  Authenticates checks require ps env w (d, some e, env', w') =
      (d.action ≡ halt) × (d.status_code ≡ 401) × (env' ≡ env)

  one_more :
      (checks require : Bool) (p : Provider W) (ps : List (Provider W)) (env : Envelope) (w : W)
      (e : AuthnError) (w1 : W) (r : Decision × Option Err × Envelope × W)
      → p.authenticate env w ≡ (err e, w1)
      → is_no_credentials e ≡ true
      → Authenticates checks require ps env w1 r
      → Authenticates checks require (p ∷ ps) env w r
  one_more checks require p ps env w e w1 (d, none, env', w') a n (c, inl v) =
      (c, inl (skipped p ps env w e w1 env' w' a n v))
  one_more checks require p ps env w e w1 (d, none, env', w') a n (c, inr (f, s, v)) =
      (c, inr (f, s, found_none p ps env w e w1 w' a n v))
  one_more checks require p ps env w e w1 (d, some x, env', w') a n h = h

  refused-Authenticates :
      (checks require : Bool) (env : Envelope) (w : W)
      → Authenticates checks require [] env w (refused show list_of require w env)
  unfolding refused unauthorized halt_decision
  refused-Authenticates checks true env w = (refl, refl, refl)
  refused-Authenticates checks false env w = (refl, inr (refl, refl, no_provider env w))

  accept-Authenticates :
      (checks require revoked : Bool) (p : Provider W) (ps : List (Provider W)) (env : Envelope)
      (w : W) (i : Identity) (w' : W)
      → p.authenticate env w ≡ (ok i, w')
      → (if checks then is_revoked i.subject (list_of w') else false) ≡ revoked
      → Authenticates checks require (p ∷ ps) env w (accept show list_of revoked i env w')
  unfolding accept unauthorized halt_decision
  accept-Authenticates checks require true p ps env w i w' a r = (refl, refl, refl)
  accept-Authenticates checks require false p ps env w i w' a r =
      (refl, inl (vouched p ps env w i w' a (λ c. only_if checks _ c r)))

  answered-Authenticates :
      (checks require : Bool) (p : Provider W) (ps : List (Provider W)) (env : Envelope) (w : W)
      (x : Result AuthnError Identity × W) (rest : W → Decision × Option Err × Envelope × W)
      → p.authenticate env w ≡ x
      → ((w1 : W) → Authenticates checks require ps env w1 (rest w1))
      → Authenticates checks require (p ∷ ps) env w (answered show list_of checks p.name env x rest)
  unfolding answered on_error unauthorized halt_decision
  answered-Authenticates checks require p ps env w (ok i, w1) rest a ih =
      accept-Authenticates checks require _ p ps env w i w1 a refl
  answered-Authenticates checks require p ps env w (err e, w1) rest a ih =
      failed (is_no_credentials e) refl
    where
      failed :
          (b : Bool)
          → is_no_credentials e ≡ b
          → Authenticates checks require
              (p ∷ ps)
              env
              w
              (on_error show list_of b p.name e env w1 rest)
      failed true t = one_more checks require p ps env w e w1 (rest w1) a t (ih w1)
      failed false f = (refl, refl, refl)

  -- Process answers in one of these ways, for any providers.
  pub authenticate_with-Authenticates :
      (checks require : Bool) (ps : List (Provider W)) (env : Envelope) (w : W)
      → Authenticates checks require ps env w
          (authenticate_with show list_of checks require ps env w)
  unfolding authenticate_with
  authenticate_with-Authenticates checks require [] env w =
      refused-Authenticates checks require env w
  authenticate_with-Authenticates checks require (p ∷ ps) env w =
      answered-Authenticates checks require p ps env w (p.authenticate env w) _ refl
        (λ w1. authenticate_with-Authenticates checks require ps env w1)

  required :
      (checks : Bool) (ps : List (Provider W)) (env : Envelope) (w : W)
      (r : Decision × Option Err × Envelope × W) (d : Decision) (env' : Envelope) (w' : W)
      → Authenticates checks true ps env w r
      → r ≡ (d, none, env', w')
      → (env2 : Envelope) × (w2 : W) × Vouches checks ps env w env2 w2
  required checks ps env w (d1, none, env1, w1) d env' w' (c, inl v) q = (env1, w1, v)
  required checks ps env w (d1, none, env1, w1) d env' w' (c, inr (f, s, v)) q = cc
  required checks ps env w (d1, some e, env1, w1) d env' w' h q = cc

  -- A chain with an authentication filter of its phase that requires authentication continues only if
  -- the request passed the filters before it and one of its providers vouches for the caller at the
  -- envelope that they made, whatever the other filters and the breakers.
  pub continue-Vouches :
      (budget start : ℕ) (phase : Phase) (ms : ℕ → Moment) (cfg : FilterConfig W)
      (cb : CircuitBreaker) (pre post fs : List (FilterWrapper W)) (env : Envelope) (w : W)
      → fs ≡ pre ++ record { filter = authn_filter show list_of cfg; cb = cb } ∷ post
      → cfg.require_auth ≡ true
      → same_phase (phase_or_default cfg.phase) phase ≡ true
      → (execute_phase budget start phase ms fs env w).decision.action ≡ continue
      → (env' : Envelope) × (w' : W) × Passed budget start phase ms pre
          (record env { phase = phase })
          w
          env'
          w'
        × ((env2 : Envelope) × (w2 : W) × Vouches cfg.checks_revocation cfg.providers env' w' env2
              w2)
  unfolding authn_filter
  continue-Vouches budget start phase ms cfg cb pre post fs env w e r p c =
      let fw : FilterWrapper W = record { filter = authn_filter show list_of cfg; cb = cb } in
      let (env1, w1, passed, (d, env2, w2, q)) =
        continue-Admits budget start phase fw post ms pre fs env w e p refl c in
      (
        env1,
        w1,
        passed,
        required cfg.checks_revocation cfg.providers env1 w1 _ d env2 w2
            (subst
              (λ b. Authenticates cfg.checks_revocation b cfg.providers env1 w1 (
                authenticate_with show list_of cfg.checks_revocation cfg.require_auth cfg.providers
                  env1 w1))
              r
              (authenticate_with-Authenticates cfg.checks_revocation cfg.require_auth cfg.providers
                env1 w1))
            q,
      )
