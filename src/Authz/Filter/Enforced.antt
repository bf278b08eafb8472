-- ===== src/Authz/Filter/Enforced.antt =====
-- A chain with an authorization filter lets no request pass that the rules do not allow
-- (internal/security/authz/filter.go and internal/pipeline/chain.go).
use torana_enterprise.Prelude.{ℕ, ◌≡◌, refl, true, List, ◌∷◌, ◌++◌, Option, none, some, All, Any}
use torana_enterprise.Pipeline.Types.{
  request_headers, continue, Err, Decision, Envelope, same_phase,
}
use torana_enterprise.Pipeline.Breaker.{CircuitBreaker}
use torana_enterprise.Pipeline.Chain.{FilterWrapper, Moment, execute_phase}
use torana_enterprise.Pipeline.Chain.FailClosed.{Passed}
use torana_enterprise.Pipeline.Chain.Passage.{continue-Admits}
use torana_enterprise.Authz.Types.{valid_resource_type, Resource, CompiledRule}
use torana_enterprise.Authz.Audit.{AuditBuffer}
use torana_enterprise.Authz.Engine.{AuthzError, eval_context}
use torana_enterprise.Authz.Engine.DenyOverrides.{Blocks, Grants, evaluate-none}
use torana_enterprise.Authz.Filter.{
  action_of, attributes_of, answer_of, evaluated, process, authz_filter,
}

module _ (rules : List CompiledRule) (resolver : Envelope → Resource) (t latency : ℕ) where
  -- The rules allow what the request asks for: all can be evaluated, none denies it and one allows it.
  abbrev pub IsAllowed : Envelope → Type 0
  IsAllowed env =
      let ctx = eval_context env.identity (resolver env) (action_of env) (attributes_of env) in
      (valid_resource_type (resolver env).kind ≡ true)
      × All (λ r. ¬ Blocks ctx r) rules
      × Any (Grants ctx) rules

  no_error :
      (r : Option AuthzError × Option AuditBuffer) (d : Decision) (env env1 : Envelope)
      (w' : Option AuditBuffer)
      → ◌≡◌ {A = Decision × Option Err × Envelope × Option AuditBuffer}
          (let (e, b) = r in let (d', o) = answer_of e in (d', o, env, b))
          (d, none, env1, w')
      → r.0 ≡ none
  unfolding answer_of
  no_error (none, b) d env env1 w' q = refl
  no_error (some e, b) d env env1 w' q = cc

  -- A chain of the request headers phase with an authorization filter among its filters continues
  -- only if the request passed the filters before it and, at the envelope they made, the resource
  -- type is valid, every rule can be evaluated, no deny rule matches and some allow rule matches,
  -- whatever the other filters and the state of the breakers.
  pub continue-IsAllowed :
      (budget start : ℕ) (ms : ℕ → Moment) (cb : CircuitBreaker)
      (pre post fs : List (FilterWrapper (Option AuditBuffer))) (env : Envelope)
      (w : Option AuditBuffer)
      → fs ≡ pre ++ record { filter = authz_filter rules resolver t latency; cb = cb } ∷ post
      → (execute_phase budget start request_headers ms fs env w).decision.action ≡ continue
      → (env' : Envelope) × (w' : Option AuditBuffer) × Passed budget start request_headers ms pre
          (record env { phase = request_headers })
          w
          env'
          w'
        × IsAllowed env'
  unfolding authz_filter same_phase process
  continue-IsAllowed budget start ms cb pre post fs env w e c =
      let fw : FilterWrapper (Option AuditBuffer) = record {
        filter = authz_filter rules resolver t latency;
        cb = cb;
      } in
      let (env1, w1, p, (d, env2, w2, q)) =
        continue-Admits budget start request_headers fw post ms pre fs env w e refl refl c in
      (
        env1,
        w1,
        p,
        (evaluate-none rules w1 env1.identity (resolver env1) (action_of env1) (attributes_of env1)
              t latency).0
            (unfold evaluated in
              no_error (evaluated rules resolver t latency env1 w1) d env1 env2 w2 q),
      )
