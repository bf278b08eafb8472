-- ===== src/Authz/Engine.antt =====
-- PolicyEngine of internal/security/authz/engine.go, and the Filter of filter.go that calls it. The
-- clock readings `start` and `latency` are arguments.
pub mod DenyOverrides
pub mod Sorting
use torana_enterprise.Prelude.{
  ℕ, ◌≡◌, Bool, true, false, List, [], ◌∷◌, ◌++◌, map, Option, none, some, if◌then◌else◌, not,
}
use torana_enterprise.Prelude.Int.{ℤ, ltb_ℤ}
use torana_enterprise.Prelude.Maps.{◌≟◌}
use torana_enterprise.Prelude.Bytes.{Bytes, bytes, bytes_key}
use torana_enterprise.Prelude.Json.{Json, Items, Fields, str, arr, obj, nil, cons, end, field}
use torana_enterprise.Authn.Identity.{Identity}
use torana_enterprise.Authz.Types.{
  Effect, allow, deny, other, valid_resource_type, Resource, Action, RequestAttributes, Rule,
  DecisionLog, EvalContext, EvalResult, failure, answer, no_bool, CompiledRule,
}
use torana_enterprise.Authz.Audit.{AuditBuffer, emit}

pub data AuthzError : Type 0 where
  invalid_resource_type default_deny : AuthzError
  eval_failed : Bytes → Bytes → AuthzError
  denied_by : Bytes → AuthzError

pub record PolicyEngine : Type 0 where
  pub rules : List CompiledRule
  pub audit_buffer : Option AuditBuffer

-- sort.SliceStable by descending priority: a rule goes before those that come later with the same
place : CompiledRule → List CompiledRule → List CompiledRule
place r [] = r ∷ []
place r (s ∷ ss) = if ltb_ℤ r.rule.priority s.rule.priority then s ∷ place r ss else r ∷ s ∷ ss

unfoldable pub sort_rules : List CompiledRule → List CompiledRule
unfolding place
sort_rules [] = []
sort_rules (r ∷ rs) = place r (sort_rules rs)

unfoldable pub new_policy_engine : List CompiledRule → Option AuditBuffer → PolicyEngine
new_policy_engine rules audit_buffer = record {
  rules = sort_rules rules;
  audit_buffer = audit_buffer;
}

string_items : List Bytes → Items
string_items [] = nil
string_items (s ∷ ss) = cons (str s) (string_items ss)

string_fields : List (Bytes × Bytes) → Fields
string_fields [] = end
string_fields ((k, v) ∷ m) = field k (str v) (string_fields m)

any_fields : List (Bytes × Json) → Fields
any_fields [] = end
any_fields ((k, v) ∷ m) = field k v (any_fields m)

identity_fields : Bytes → Bytes → Items → Items → Fields → Bytes → Fields
identity_fields subject tenant groups scopes claims auth_method =
    field (bytes "subject") (str subject) (
      field (bytes "tenant") (str tenant) (
        field (bytes "groups") (arr groups) (
          field (bytes "scopes") (arr scopes) (
            field (bytes "claims") (obj claims)
              (field (bytes "auth_method") (str auth_method) end)))))

pub build_identity_map : Option Identity → Fields
unfolding identity_fields string_items any_fields
build_identity_map none = identity_fields [] [] nil nil end []
build_identity_map (some id) =
    identity_fields id.subject id.tenant (string_items id.groups) (string_items id.scopes)
      (any_fields id.claims) id.auth_method

pub build_resource_map : Resource → Fields
unfolding any_fields
build_resource_map res = field (bytes "type") (str res.kind) (
    field (bytes "id") (str res.id) (
      field (bytes "namespace") (str res.namespace)
        (field (bytes "properties") (obj (any_fields res.properties)) end)))

pub build_action_map : Action → Fields
build_action_map act =
    field (bytes "name") (str act.name) (field (bytes "method") (str act.method) end)

pub build_request_map : RequestAttributes → Fields
unfolding string_fields
build_request_map req = field (bytes "path") (str req.path) (
    field (bytes "method") (str req.method) (
      field (bytes "host") (str req.host) (
        field (bytes "remote_ip") (str req.remote_ip)
          (field (bytes "headers") (obj (string_fields req.headers)) end))))

get_subject : Option Identity → Bytes
get_subject none = []
get_subject (some id) = id.subject

get_tenant : Option Identity → Bytes
get_tenant none = []
get_tenant (some id) = id.tenant

-- How the loop over the rules ends.
pub data Verdict : Type 0 where
  failed : Bytes → Bytes → Verdict
  denied : Bytes → Verdict
  allowed : Bytes → Verdict
  unmatched : Verdict

-- The variables hasAllow and matchingAllowRuleID; a rule may have the empty id.
pub record Found : Type 0 where
  pub has_allow : Bool
  pub rule_id : Bytes

note_allow : Bytes → Found → Found
note_allow id f = record { has_allow = true; rule_id = if f.rule_id ≟ [] then id else f.rule_id }

matched : Rule → Found → Found
unfolding note_allow
matched r f = elim r.effect [ allow ↦ note_allow r.id f | _ ↦ f ]

finish : Found → Verdict
finish f = if f.has_allow then allowed f.rule_id else unmatched

-- what one rule does to the loop: it ends it, or leaves new values of the variables
pub data Turn : Type 0 where
  stop : Verdict → Turn
  go_on : Found → Turn

match_rule : Rule → Found → Turn
unfolding matched
match_rule r f = elim r.effect [ deny ↦ stop (denied r.id) | _ ↦ go_on (matched r f) ]

consider : Rule → EvalResult → Found → Turn
unfolding match_rule
consider r (failure e) f = stop (failed r.id e)
consider r (answer true) f = match_rule r f
consider r (answer false) f = go_on f
consider r no_bool f = go_on f

-- the loop of Evaluate
pub decide : EvalContext → List CompiledRule → Found → Verdict
unfolding consider finish
decide ctx [] f = finish f
decide ctx (r ∷ rs) f = elim (consider r.rule (r.program ctx) f) [
  | stop v ↦ v
  | go_on f' ↦ decide ctx rs f'
]

-- %q of a text with nothing to escape
quoted : Bytes → Bytes
quoted s = b'"' ∷ s ++ b'"' ∷ []

-- the rule id, the effect and the reason that are logged, and the error that is returned
report : Verdict → Bytes × Effect × Bytes × Option AuthzError
unfolding quoted
report (failed id e) = (id, deny, bytes "cel eval error: " ++ e, some (eval_failed id e))
report (denied id) = (id, deny, bytes "denied by rule " ++ quoted id, some (denied_by id))
report (allowed id) = (id, allow, bytes "allowed by rule " ++ quoted id, none)
report unmatched = (
  bytes "default_deny",
  deny,
  bytes "no matching allow rule found (default deny)",
  some default_deny,
)

decision_log :
    Bytes × Effect × Bytes × Option AuthzError
    → Option Identity
    → Resource
    → Action
    → ℕ
    → ℕ
    → DecisionLog
unfolding get_subject get_tenant
decision_log (id, effect, reason, error) ident res act start latency = record {
  timestamp = start;
  rule_id = id;
  effect = effect;
  reason = reason;
  latency = latency;
  subject = get_subject ident;
  tenant = get_tenant ident;
  resource_type = res.kind;
  resource_id = res.id;
  action = act.name;
}

pub eval_context : Option Identity → Resource → Action → RequestAttributes → EvalContext
eval_context ident res act req = record {
  identity = build_identity_map ident;
  resource = build_resource_map res;
  action = build_action_map act;
  request = build_request_map req;
}

nothing_found : Found
nothing_found = record { has_allow = false; rule_id = [] }

-- what Evaluate logs and returns
outcome :
    List CompiledRule
    → Option Identity
    → Resource
    → Action
    → RequestAttributes
    → Bytes × Effect × Bytes × Option AuthzError
unfolding decide report nothing_found
outcome rules ident res act req =
    if valid_resource_type res.kind
    then report (decide (eval_context ident res act req) rules nothing_found)
    else ([], deny, bytes "invalid resource type " ++ quoted res.kind, some invalid_resource_type)

emit_decision : Option AuditBuffer → DecisionLog → Option AuditBuffer
emit_decision none entry = none
emit_decision (some b) entry = some (emit b entry).0

-- Evaluate: the error, or none where the request is allowed, and the audit buffer afterwards
unfoldable pub evaluate :
    PolicyEngine
    → Option Identity
    → Resource
    → Action
    → RequestAttributes
    → ℕ
    → ℕ
    → Option AuthzError × Option AuditBuffer
unfolding outcome decision_log emit_decision
evaluate e ident res act req start latency =
    let o = outcome e.rules ident res act req in
    (o.3, emit_decision e.audit_buffer (decision_log o ident res act start latency))
