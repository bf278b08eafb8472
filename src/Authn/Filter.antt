-- ===== src/Authn/Filter.antt =====
-- Filter of internal/security/authn/filter.go, as a filter of the pipeline over the world of its
-- providers and the revocation list.
pub mod Authenticated
use torana_enterprise.Prelude.{
  Bool, true, false, List, [], ◌∷◌, ◌++◌, Option, none, some, if◌then◌else◌,
}
use torana_enterprise.Prelude.Bytes.{Bytes, bytes}
use torana_enterprise.Prelude.Json.{Json}
use torana_enterprise.Prelude.Results.{Result, ok, err}
use torana_enterprise.Authn.Identity.{Identity}
use torana_enterprise.Authn.Provider.{
  AuthnError, is_no_credentials, authn_text, Provider, set_identity,
}
use torana_enterprise.Authn.Revocation.{RevocationList, is_revoked}
use torana_enterprise.Pipeline.Types.{
  Phase, unspecified, authn, none_mode, fail_closed, Err, message, wrapped, Decision, Envelope,
  continue_decision, halt_decision,
}
use torana_enterprise.Pipeline.Chain.{Filter}

pub record FilterConfig (W : Type 0) : Type 0 where
  pub name : Bytes
  pub providers : List (Provider W)
  -- whether there is a revocation list
  pub checks_revocation : Bool
  pub require_auth : Bool
  pub phase : Phase

name_or_default : Bytes → Bytes
name_or_default [] = bytes "authn_filter"
name_or_default (c ∷ s) = c ∷ s

unfoldable pub phase_or_default : Phase → Phase
phase_or_default unspecified = authn
phase_or_default p = p

quoted : Bytes → Bytes
quoted s = b'"' ∷ s ++ b'"' ∷ []

unauthorized : Bytes → Decision
unauthorized reason = halt_decision 401 reason

-- %q of a name with nothing to escape
failure : Bytes → AuthnError → Err
unfolding quoted
failure name e =
    wrapped (bytes "authentication provider " ++ quoted name ++ bytes " failed")
      (message (authn_text e))

module _ {W : Type 0} (show : Json → Bytes) (list_of : W → RevocationList) where
  -- what follows a provider that accepts the credentials
  accept : Bool → Identity → Envelope → W → Decision × Option Err × Envelope × W
  unfolding unauthorized
  accept true i env w =
      (unauthorized (bytes "identity revoked"), some (message (bytes "credential revoked")), env, w)
  accept false i env w = (continue_decision, none, set_identity show (some i) env, w)

  refused : Bool → W → Envelope → Decision × Option Err × Envelope × W
  unfolding unauthorized
  refused true w env = (
    unauthorized (bytes "unauthorized: authentication required"),
    some (message (bytes "unauthorized request")),
    env,
    w,
  )
  refused false w env = (continue_decision, none, env, w)

  -- an error other than ErrNoCredentials ends the loop
  on_error :
      Bool
      → Bytes
      → AuthnError
      → Envelope
      → W
      → (W → Decision × Option Err × Envelope × W)
      → Decision × Option Err × Envelope × W
  unfolding unauthorized failure
  on_error true name e env w rest = rest w
  on_error false name e env w rest = (unauthorized (authn_text e), some (failure name e), env, w)

  -- one turn of the loop, before the rest of it
  answered :
      Bool
      → Bytes
      → Envelope
      → Result AuthnError Identity × W
      → (W → Decision × Option Err × Envelope × W)
      → Decision × Option Err × Envelope × W
  unfolding accept on_error
  answered checks name env (ok i, w) rest =
      accept (if checks then is_revoked i.subject (list_of w) else false) i env w
  answered checks name env (err e, w) rest = on_error (is_no_credentials e) name e env w rest

  unfoldable pub authenticate_with :
      Bool → Bool → List (Provider W) → Envelope → W → Decision × Option Err × Envelope × W
  unfolding answered refused
  authenticate_with checks require [] env w = refused require w env
  authenticate_with checks require (p ∷ ps) env w =
      answered checks p.name env (p.authenticate env w)
        (λ w'. authenticate_with checks require ps env w')

  -- Process and NewFilter
  unfoldable pub authn_filter : FilterConfig W → Filter W
  unfolding name_or_default phase_or_default
  authn_filter cfg = record {
    name = name_or_default cfg.name;
    phase = phase_or_default cfg.phase;
    body_mode = none_mode;
    failure_policy = fail_closed;
    process = λ env w. authenticate_with cfg.checks_revocation cfg.require_auth cfg.providers env w;
  }
