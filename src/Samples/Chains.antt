-- ===== src/Samples/Chains.antt =====
-- Chains with the filters of the other packages at concrete inputs.
use torana_enterprise.Prelude.{refl, true, List, [], ◌∷◌, Option, none}
use torana_enterprise.Prelude.Int.{pos}
use torana_enterprise.Prelude.Bytes.{bytes, bytes_eq}
use torana_enterprise.Prelude.Maps.{lookup}
use torana_enterprise.Pipeline.Types.{
  request_headers, unspecified, Envelope, same_phase, continue_decision,
}
use torana_enterprise.Pipeline.Breaker.{new_circuit_breaker, allow, record_success}
use torana_enterprise.Pipeline.Chain.{
  Moment, FilterWrapper, execute_phase, context_err, apply_mutations,
}
use torana_enterprise.Pipeline.Chain.FailClosed.{Passed}
use torana_enterprise.Authz.Types.{Effect, CompiledRule, answer, valid_resource_type}
use torana_enterprise.Authz.Audit.{AuditBuffer}
use torana_enterprise.Authz.Engine.{evaluate, sort_rules, new_policy_engine}
use torana_enterprise.Authz.Filter.{
  default_resource_resolver, authz_filter, process, evaluated, action_of, attributes_of,
}
use torana_enterprise.Authz.Filter.Enforced.{IsAllowed, continue-IsAllowed}

abbrev pub envelope : Envelope
envelope = record {
  request_id = bytes "q1";
  route = none;
  upstream = none;
  phase = unspecified;
  method = bytes "GET";
  path = bytes "/";
  headers = [];
  metadata = [];
  claims = [];
  identity = none;
  body = none;
  buffered_body = none;
  peer_info = record { remote_ip = []; protocol = []; client_identity = [] };
  start_time = 0;
}

abbrev pub moment : Moment
moment = record { cancelled = none; now = 10; cancelled_after = none; now_after = 10 }

abbrev rules : List CompiledRule
rules =
    record {
      rule = record { id = bytes "a"; priority = pos 1; effect = Effect.allow; expression = [] };
      program = λ c. answer true;
    }
    ∷ []

abbrev guard : FilterWrapper (Option AuditBuffer)
guard = record {
  filter = authz_filter rules default_resource_resolver 3 1;
  cb = new_circuit_breaker (pos 5) 10000000000;
}

continue-IsAllowed_example :
    (env' : Envelope) × (w' : Option AuditBuffer) × Passed 0 10 request_headers
      (λ i. moment)
      []
      (record envelope { phase = request_headers })
      none
      env'
      w'
    × IsAllowed rules default_resource_resolver 3 1 env'
unfolding execute_phase context_err same_phase authz_filter allow new_circuit_breaker process
    evaluated evaluate sort_rules new_policy_engine default_resource_resolver action_of
    attributes_of lookup bytes_eq valid_resource_type continue_decision apply_mutations
    record_success
continue-IsAllowed_example =
    continue-IsAllowed rules default_resource_resolver 3 1 0 10 (λ i. moment)
      (new_circuit_breaker (pos 5) 10000000000) [] [] (guard ∷ []) envelope none refl refl
