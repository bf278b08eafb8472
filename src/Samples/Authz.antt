-- ===== src/Samples/Authz.antt =====
-- The policy engine and the audit buffer at concrete inputs.
use torana_enterprise.Prelude.{ℕ, ◌≡◌, ◌↔◌, Bool, true, List, [], ◌∷◌, none, some, All, Any, arith}
use torana_enterprise.Prelude.Int.{pos}
use torana_enterprise.Prelude.Bytes.{Bytes, bytes}
use torana_enterprise.Authz.Types.{
  Effect, allow, deny, valid_resource_type, Resource, Action, RequestAttributes, DecisionLog,
  answer, CompiledRule,
}
use torana_enterprise.Authz.Audit.{
  AuditBuffer, new_audit_buffer, emit, run, Event, starts, emits, works, stops,
}
use torana_enterprise.Authz.Audit.Accounting.{emissions, IsBalanced, new_audit_buffer-IsBalanced}
use torana_enterprise.Authz.Engine.{new_policy_engine, eval_context, evaluate}
use torana_enterprise.Authz.Engine.DenyOverrides.{Blocks, Grants, evaluate-none, evaluate-logs}

abbrev resource : Resource
resource = record { kind = bytes "route"; id = bytes "r1"; namespace = []; properties = [] }

abbrev act : Action
act = record { name = bytes "invoke"; method = bytes "GET" }

abbrev request : RequestAttributes
request = record {
  path = bytes "/v1";
  method = bytes "GET";
  host = [];
  remote_ip = bytes "10.0.0.1";
  headers = [];
  time = 7;
}

abbrev rule_of : Bytes → ℕ → Effect → Bool → CompiledRule
rule_of id priority effect b = record {
  rule = record { id = id; priority = pos priority; effect = effect; expression = [] };
  program = λ c. answer b;
}

abbrev rules : List CompiledRule
rules = rule_of (bytes "a") 1 allow true ∷ rule_of (bytes "d") 9 deny true ∷ []

abbrev entry : DecisionLog
entry = record {
  timestamp = 1;
  rule_id = bytes "a";
  effect = allow;
  reason = [];
  latency = 0;
  subject = [];
  tenant = [];
  resource_type = bytes "route";
  resource_id = bytes "r1";
  action = bytes "invoke";
}

abbrev events : List Event
events = starts ∷ emits entry ∷ emits entry ∷ works ∷ emits entry ∷ stops ∷ emits entry ∷ []

abbrev buffer : AuditBuffer
buffer = record {
  capacity = 2;
  started = true;
  queue = entry ∷ entry ∷ [];
  written = [];
  emitted_count = 2;
  dropped_count = 0;
}

evaluate-none_example :
    let ctx = eval_context none resource act request in
    ((evaluate (new_policy_engine rules none) none resource act request 3 1).0 ≡ none) ↔ (
      (valid_resource_type (bytes "route") ≡ true)
      × All (λ r. ¬ Blocks ctx r) rules
      × Any (Grants ctx) rules)
evaluate-none_example = evaluate-none rules none none resource act request 3 1

evaluate-logs_example :
    let (error, after) =
      evaluate (new_policy_engine rules (some buffer)) none resource act request 3 1 in
    (l : DecisionLog) × (after ≡ some (emit buffer l).0)
    × (l.resource_type ≡ bytes "route")
    × (l.resource_id ≡ bytes "r1")
    × (l.action ≡ bytes "invoke")
    × ((l.effect ≡ allow) ↔ (error ≡ none))
evaluate-logs_example = evaluate-logs rules buffer none resource act request 3 1

new_audit_buffer-IsBalanced_example :
    IsBalanced (run (new_audit_buffer 1) events) (emissions events)
new_audit_buffer-IsBalanced_example = new_audit_buffer-IsBalanced 1 events (omega arith)
