-- ===== src/Authz/Filter.antt =====
-- Filter of internal/security/authz/filter.go, as a filter of the pipeline over the engine's audit
-- buffer. `start` and `latency` are what the clock reads in Evaluate.
pub mod Enforced
use torana_enterprise.Prelude.{
  ℕ, Bool, true, false, List, [], ◌∷◌, ◌++◌, map, Option, none, some, ◌&&◌, not, if◌then◌else◌,
}
use torana_enterprise.Prelude.Maps.{◌≟◌, lookup}
use torana_enterprise.Prelude.Bytes.{Bytes, bytes, bytes_key}
use torana_enterprise.Prelude.Json.{Json, str}
use torana_enterprise.Authn.Identity.{Identity}
use torana_enterprise.Config.Types.{RouteRule}
use torana_enterprise.Pipeline.Types.{
  Phase, request_headers, BodyMode, none_mode, FailurePolicy, fail_closed, Err, message, Decision,
  Envelope, continue_decision, halt_decision,
}
use torana_enterprise.Pipeline.Chain.{Filter}
use torana_enterprise.Authz.Types.{
  valid_resource_type, Resource, Action, RequestAttributes, CompiledRule,
}
use torana_enterprise.Authz.Audit.{AuditBuffer}
use torana_enterprise.Authz.Engine.{
  AuthzError, invalid_resource_type, default_deny, eval_failed, denied_by, new_policy_engine,
  PolicyEngine, evaluate,
}

-- m[key], if it is there and passes a test, or else the other value
checked : (Bytes → Bool) → Option Bytes → Bytes → Bytes
checked test none other = other
checked test (some v) other = if test v then v else other

is_some_text : Bytes → Bool
is_some_text s = not (s ≟ [])

route_id : Option RouteRule → Bytes → Bytes
route_id none path = path
route_id (some r) path = r.id

route_upstream : Option RouteRule → Bytes
route_upstream none = []
route_upstream (some r) = r.upstream_id

text_property : Bytes × Bytes → Bytes × Json
text_property (k, v) = (k, str v)

unfoldable pub default_resource_resolver : Envelope → Resource
unfolding checked is_some_text route_id route_upstream text_property
default_resource_resolver env = record {
  kind = checked valid_resource_type (lookup (bytes "resource_type") env.metadata) (bytes "route");
  id =
      checked is_some_text (lookup (bytes "resource_id") env.metadata)
        (route_id env.route env.path);
  namespace = route_upstream env.route;
  properties = map text_property env.metadata;
}

unfoldable pub action_of : Envelope → Action
unfolding checked is_some_text
action_of env = record {
  name = checked is_some_text (lookup (bytes "action_name") env.metadata) env.method;
  method = env.method;
}

-- the first value of each header that has one
first_values : List (Bytes × List Bytes) → List (Bytes × Bytes)
first_values [] = []
first_values ((k, []) ∷ h) = first_values h
first_values ((k, v ∷ vs) ∷ h) = (k, v) ∷ first_values h

-- the host is never set
unfoldable pub attributes_of : Envelope → RequestAttributes
unfolding first_values
attributes_of env = record {
  path = env.path;
  method = env.method;
  host = [];
  remote_ip = env.peer_info.remote_ip;
  headers = first_values env.headers;
  time = 0;
}

-- err.Error(); %q of a text with nothing to escape
quoted : Bytes → Bytes
quoted s = b'"' ∷ s ++ b'"' ∷ []

authz_text : AuthzError → Bytes
unfolding quoted
authz_text invalid_resource_type = bytes "invalid or unsupported resource type"
authz_text default_deny = bytes "access denied: default deny"
authz_text (eval_failed id e) =
    bytes "access denied by authorization policy: evaluation error on rule "
    ++ quoted id
    ++ bytes ": "
    ++ e
authz_text (denied_by id) =
    bytes "access denied by authorization policy: matched deny rule " ++ quoted id

answer_of : Option AuthzError → Decision × Option Err
unfolding authz_text
answer_of none = (continue_decision, none)
answer_of (some e) = (halt_decision 403 (authz_text e), some (message (authz_text e)))

module _ (rules : List CompiledRule) (resolver : Envelope → Resource) (start latency : ℕ) where
  -- what Evaluate is asked by Process
  unfoldable pub evaluated : Envelope → Option AuditBuffer → Option AuthzError × Option AuditBuffer
  evaluated env buffer =
      evaluate (new_policy_engine rules buffer) env.identity (resolver env) (action_of env)
        (attributes_of env) start latency

  unfoldable pub process :
      Envelope → Option AuditBuffer → Decision × Option Err × Envelope × Option AuditBuffer
  unfolding answer_of
  process env buffer =
      let (e, buffer') = evaluated env buffer in let (d, o) = answer_of e in (d, o, env, buffer')

  unfoldable pub authz_filter : Filter (Option AuditBuffer)
  authz_filter = record {
    name = bytes "authz_cel_filter";
    phase = request_headers;
    body_mode = none_mode;
    failure_policy = fail_closed;
    process = process;
  }
