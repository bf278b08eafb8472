-- ===== src/Authz/Engine/DenyOverrides.antt =====
-- Deny overrides (internal/security/authz/engine.go, Evaluate).
use torana_enterprise.Prelude.{
  ℕ, ◌≡◌, refl, sym, ◌∙◌, ◌↔◌, ◌⊎◌, inl, inr, Bool, true, false, List, [], ◌∷◌, Option, none, some,
  All, Any, arith, Bool-cases, ap,
}
use torana_enterprise.Prelude.Bytes.{Bytes}
use torana_enterprise.Authn.Identity.{Identity}
use torana_enterprise.Authz.Types.{
  Effect, allow, deny, other, valid_resource_type, Resource, Action, RequestAttributes, DecisionLog,
  EvalContext, EvalResult, failure, answer, no_bool, CompiledRule,
}
use torana_enterprise.Authz.Audit.{AuditBuffer, emit}
use torana_enterprise.Authz.Engine.{
  sort_rules, new_policy_engine, Verdict, failed, denied, allowed, unmatched, Found, Turn, stop,
  go_on, note_allow, matched, match_rule, consider, finish, decide, report, eval_context,
  nothing_found, outcome, evaluate,
}
use torana_enterprise.Authz.Engine.Sorting.{All-sort_rules, Any-sort_rules}

-- The rule cannot be evaluated, or it denies the request.
abbrev pub Blocks : EvalContext → CompiledRule → Type 0
Blocks ctx r =
    ((e : Bytes) × (r.program ctx ≡ failure e))
    ⊎ ((r.program ctx ≡ answer true) × (r.rule.effect ≡ deny))

-- The rule allows the request.
abbrev pub Grants : EvalContext → CompiledRule → Type 0
Grants ctx r = (r.program ctx ≡ answer true) × (r.rule.effect ≡ allow)

is_allowed : Verdict → Bool
is_allowed (allowed id) = true
is_allowed _ = false

-- What a turn says of its rule.
abbrev Judged : EvalContext → CompiledRule → Found → Turn → Type 0
Judged ctx r f (stop v) = Blocks ctx r × (is_allowed v ≡ false)
Judged ctx r f (go_on f') =
    (¬ Blocks ctx r)
    × ((Grants ctx r × (f'.has_allow ≡ true)) ⊎ ((¬ Grants ctx r) × (f'.has_allow ≡ f.has_allow)))

consider-Judged :
    (ctx : EvalContext) (r : CompiledRule) (f : Found) (x : EvalResult) (e : Effect)
    → r.program ctx ≡ x
    → r.rule.effect ≡ e
    → Judged ctx r f (consider r.rule x f)
unfolding consider match_rule matched note_allow is_allowed
consider-Judged ctx r f (failure t) e p q = (inl (t, p), refl)
consider-Judged ctx r f (answer true) allow p q =
    simp (q, match_rule, matched) ((λ b. ground arith), inl ((p, refl), refl))
consider-Judged ctx r f (answer true) deny p q = simp (q, match_rule) (inr (p, refl), refl)
consider-Judged ctx r f (answer true) (other t) p q =
    simp (q, match_rule, matched) ((λ b. ground arith), inr ((λ g. ground arith), refl))
consider-Judged ctx r f (answer false) e p q =
    ((λ b. ground arith), inr ((λ g. ground arith), refl))
consider-Judged ctx r f no_bool e p q = ((λ b. ground arith), inr ((λ g. ground arith), refl))

turn_stop :
    (ctx : EvalContext) (r : CompiledRule) (rs : List CompiledRule) (f : Found) (v : Verdict)
    → consider r.rule (r.program ctx) f ≡ stop v
    → decide ctx (r ∷ rs) f ≡ v
unfolding decide
turn_stop ctx r rs f v e = rw (e, decide)

turn_on :
    (ctx : EvalContext) (r : CompiledRule) (rs : List CompiledRule) (f f' : Found)
    → consider r.rule (r.program ctx) f ≡ go_on f'
    → decide ctx (r ∷ rs) f ≡ decide ctx rs f'
unfolding decide
turn_on ctx r rs f f' e = rw (e, decide)

-- An evaluation from the variables `f` allows exactly if no rule blocks and, `f` apart, some rule
-- grants.
AllowsFrom : EvalContext → List CompiledRule → Found → Type 0
AllowsFrom ctx rs f = All (λ r. ¬ Blocks ctx r) rs × ((f.has_allow ≡ true) ⊎ Any (Grants ctx) rs)

sound_turn :
    (ctx : EvalContext) (r : CompiledRule) (rs : List CompiledRule) (f : Found) (t : Turn)
    → consider r.rule (r.program ctx) f ≡ t
    → Judged ctx r f t
    → ((f' : Found) → is_allowed (decide ctx rs f') ≡ true → AllowsFrom ctx rs f')
    → is_allowed (decide ctx (r ∷ rs) f) ≡ true
    → AllowsFrom ctx (r ∷ rs) f
unfolding decide AllowsFrom
sound_turn ctx r rs f (stop v) e (b, n) ih h = cc (n, ap is_allowed (turn_stop ctx r rs f v e), h)
sound_turn ctx r rs f (go_on f') e (nb, inl (g, k)) ih h =
    ((nb, (ih f' (ap is_allowed (sym (turn_on ctx r rs f f' e)) ∙ h)).0), inr (inl g))
sound_turn ctx r rs f (go_on f') e (nb, inr (ng, k)) ih h =
    let (a, o) = ih f' (ap is_allowed (sym (turn_on ctx r rs f f' e)) ∙ h) in ((nb, a), keep o)
  where
    keep :
        (f'.has_allow ≡ true) ⊎ Any (Grants ctx) rs
        → (f.has_allow ≡ true) ⊎ (Grants ctx r ⊎ Any (Grants ctx) rs)
    keep (inl y) = inl (sym k ∙ y)
    keep (inr y) = inr (inr y)

complete_turn :
    (ctx : EvalContext) (r : CompiledRule) (rs : List CompiledRule) (f : Found) (t : Turn)
    → consider r.rule (r.program ctx) f ≡ t
    → Judged ctx r f t
    → ((f' : Found) → AllowsFrom ctx rs f' → is_allowed (decide ctx rs f') ≡ true)
    → AllowsFrom ctx (r ∷ rs) f
    → is_allowed (decide ctx (r ∷ rs) f) ≡ true
unfolding AllowsFrom
complete_turn ctx r rs f (stop v) e (b, n) ih ((nb, a), o) = absurd (nb b)
complete_turn ctx r rs f (go_on f') e (nb, inl (g, k)) ih ((_, a), o) =
    ap is_allowed (turn_on ctx r rs f f' e) ∙ ih f' (a, inl k)
complete_turn ctx r rs f (go_on f') e (nb, inr (ng, k)) ih ((_, a), o) =
    ap is_allowed (turn_on ctx r rs f f' e) ∙ ih f' (a, keep o)
  where
    keep :
        (f.has_allow ≡ true) ⊎ (Grants ctx r ⊎ Any (Grants ctx) rs)
        → (f'.has_allow ≡ true) ⊎ Any (Grants ctx) rs
    keep (inl y) = inl (k ∙ y)
    keep (inr (inl y)) = absurd (ng y)
    keep (inr (inr y)) = inr y

judged :
    (ctx : EvalContext) (r : CompiledRule) (f : Found)
    → Judged ctx r f (consider r.rule (r.program ctx) f)
judged ctx r f = consider-Judged ctx r f (r.program ctx) r.rule.effect refl refl

decide_sound :
    (ctx : EvalContext) (rs : List CompiledRule) (f : Found)
    → is_allowed (decide ctx rs f) ≡ true
    → AllowsFrom ctx rs f
unfolding AllowsFrom decide finish is_allowed
decide_sound ctx [] f h = (tt, ground arith)
decide_sound ctx (r ∷ rs) f h =
    sound_turn ctx r rs f _ refl (judged ctx r f) (λ f'. decide_sound ctx rs f') h

decide_complete :
    (ctx : EvalContext) (rs : List CompiledRule) (f : Found)
    → AllowsFrom ctx rs f
    → is_allowed (decide ctx rs f) ≡ true
unfolding AllowsFrom decide finish is_allowed
decide_complete ctx [] f h = ground arith
decide_complete ctx (r ∷ rs) f h =
    complete_turn ctx r rs f _ refl (judged ctx r f) (λ f'. decide_complete ctx rs f') h

report-none : (v : Verdict) → ((report v).3 ≡ none) ↔ (is_allowed v ≡ true)
unfolding report is_allowed
report-none (failed id e) = ground arith
report-none (denied id) = ground arith
report-none (allowed id) = ground arith
report-none unmatched = ground arith

outcome-none :
    (rs : List CompiledRule) (ident : Option Identity) (res : Resource) (act : Action)
    (req : RequestAttributes)
    → ((outcome rs ident res act req).3 ≡ none) ↔ (
        (valid_resource_type res.kind ≡ true)
        × (is_allowed (decide (eval_context ident res act req) rs nothing_found) ≡ true))
unfolding outcome
outcome-none rs ident res act req =
    let ctx = eval_context ident res act req in
    elim (Bool-cases (valid_resource_type res.kind)) [
      | inl v ↦ rw v (
        (λ h. (refl, (report-none (decide ctx rs nothing_found)).0 h)),
        λ h. (report-none (decide ctx rs nothing_found)).1 h.1,
      )
      | inr v ↦ rw v ((λ h. cc), λ h. cc (h.0))
    ]

from_nothing :
    (ctx : EvalContext) (rs : List CompiledRule)
    → is_allowed (decide ctx rs nothing_found) ≡ true
    → All (λ r. ¬ Blocks ctx r) rs × Any (Grants ctx) rs
unfolding AllowsFrom nothing_found
from_nothing ctx rs h = some_rule (decide_sound ctx rs nothing_found h)
  where
    some_rule :
        All (λ r. ¬ Blocks ctx r) rs × ((false ≡ true) ⊎ Any (Grants ctx) rs)
        → All (λ r. ¬ Blocks ctx r) rs × Any (Grants ctx) rs
    some_rule (a, inl e) = absurd (cc e)
    some_rule (a, inr o) = (a, o)

to_nothing :
    (ctx : EvalContext) (rs : List CompiledRule)
    → All (λ r. ¬ Blocks ctx r) rs
    → Any (Grants ctx) rs
    → is_allowed (decide ctx rs nothing_found) ≡ true
unfolding AllowsFrom
to_nothing ctx rs a o = decide_complete ctx rs nothing_found (a, inr o)

-- Evaluate of an engine built from `rules` returns no error exactly if the resource type is valid,
-- every rule can be evaluated, no deny rule matches and some allow rule matches; the priorities have
-- no part in it.
pub evaluate-none :
    (rules : List CompiledRule) (buffer : Option AuditBuffer) (ident : Option Identity)
    (res : Resource) (act : Action) (req : RequestAttributes) (start latency : ℕ)
    → let ctx = eval_context ident res act req in
      ((evaluate (new_policy_engine rules buffer) ident res act req start latency).0 ≡ none) ↔ (
        (valid_resource_type res.kind ≡ true)
        × All (λ r. ¬ Blocks ctx r) rules
        × Any (Grants ctx) rules)
unfolding evaluate new_policy_engine
evaluate-none rules buffer ident res act req start latency = (forth, back)
  where
    ctx : EvalContext
    ctx = eval_context ident res act req

    at_outcome : ((outcome (sort_rules rules) ident res act req).3 ≡ none) ↔ (
        (valid_resource_type res.kind ≡ true)
        × (is_allowed (decide ctx (sort_rules rules) nothing_found) ≡ true))
    at_outcome = outcome-none (sort_rules rules) ident res act req

    forth :
        (outcome (sort_rules rules) ident res act req).3 ≡ none
        → (valid_resource_type res.kind ≡ true)
          × All (λ r. ¬ Blocks ctx r) rules
          × Any (Grants ctx) rules
    forth h =
        let (v, d) = at_outcome.0 h in
        let (a, o) = from_nothing ctx (sort_rules rules) d in
        (v, (All-sort_rules _ rules).0 a, (Any-sort_rules _ rules).0 o)

    back :
        (valid_resource_type res.kind ≡ true)
          × All (λ r. ¬ Blocks ctx r) rules
          × Any (Grants ctx) rules
        → (outcome (sort_rules rules) ident res act req).3 ≡ none
    back (v, a, o) = at_outcome.1 (
      v,
      to_nothing ctx (sort_rules rules) ((All-sort_rules _ rules).1 a)
          ((Any-sort_rules _ rules).1 o),
    )

report-effect : (v : Verdict) → ((report v).1 ≡ allow) ↔ ((report v).3 ≡ none)
unfolding report
report-effect (failed id e) = ground arith
report-effect (denied id) = ground arith
report-effect (allowed id) = ground arith
report-effect unmatched = ground arith

outcome-effect :
    (rs : List CompiledRule) (ident : Option Identity) (res : Resource) (act : Action)
    (req : RequestAttributes)
    → ((outcome rs ident res act req).1 ≡ allow) ↔ ((outcome rs ident res act req).3 ≡ none)
unfolding outcome
outcome-effect rs ident res act req = elim (Bool-cases (valid_resource_type res.kind)) [
  | inl v ↦ rw v (report-effect _)
  | inr v ↦ rw v ((λ h. cc), λ h. cc)
]

-- On every path, the denials and the evaluation errors included, Evaluate emits one decision log to
-- the audit buffer, if the engine has one: it bears the type and the id of the resource and the action
-- that were asked for, and its effect is to allow exactly if Evaluate returns no error.
pub evaluate-logs :
    (rules : List CompiledRule) (b : AuditBuffer) (ident : Option Identity) (res : Resource)
    (act : Action) (req : RequestAttributes) (start latency : ℕ)
    → let (error, buffer) =
        evaluate (new_policy_engine rules (some b)) ident res act req start latency in
      (l : DecisionLog) × (buffer ≡ some (emit b l).0)
      × (l.resource_type ≡ res.kind)
      × (l.resource_id ≡ res.id)
      × (l.action ≡ act.name)
      × ((l.effect ≡ allow) ↔ (error ≡ none))
unfolding evaluate new_policy_engine
evaluate-logs rules b ident res act req start latency =
    (_, refl, refl, refl, refl, outcome-effect (sort_rules rules) ident res act req)
