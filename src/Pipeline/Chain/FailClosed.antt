-- ===== src/Pipeline/Chain/FailClosed.antt =====
-- What a chain that lets a request continue has checked (internal/pipeline/chain.go, ExecutePhase).
use torana_enterprise.Prelude.{
  ℕ, suc, ◌≡◌, refl, sym, ap, ◌∙◌, ◌⊎◌, inl, inr, ◌≢◌, true, false, ◌||◌, List, [], ◌∷◌, Option,
  none, some, arith, Bool-cases, Option-cases,
}
use torana_enterprise.Pipeline.Breaker.{allow}
use torana_enterprise.Pipeline.Types.{
  Phase, FailurePolicy, fail_open, fail_closed, Action, continue, halt, mutate, drop, Err, Decision,
  Envelope, halt_decision, same_phase, is_deadline,
}
use torana_enterprise.Pipeline.Chain.{
  Filter, FilterWrapper, Moment, Turn, next, return, context_err, apply_mutations, expired,
  failure_decision, done_decision, failed, succeeded, processed, refused, admitted, arrived, visit,
  run, execute_phase,
}

pub policy_cases : (p : FailurePolicy) → (p ≡ fail_open) ⊎ (p ≡ fail_closed)
policy_cases fail_open = inl refl
policy_cases fail_closed = inr refl

action_cases : (a : Action) → (a ≡ halt) ⊎ (a ≡ drop) ⊎ ((a ≡ continue) ⊎ (a ≡ mutate))
action_cases halt = inl refl
action_cases drop = inr (inl refl)
action_cases continue = inr (inr (inl refl))
action_cases mutate = inr (inr (inr refl))

halts_done : (e : Err) → (done_decision e).action ≢ continue
unfolding done_decision halt_decision
halts_done e = elim (Bool-cases (is_deadline e)) [ inl t ↦ rw t (λ h. cc) | inr f ↦ rw f (λ h. cc) ]

-- The ways in which a filter lets a request pass, with the envelope and the world afterwards. Only a
-- fail-open filter can be bypassed.
module _ {W : Type 0} (budget start : ℕ) (phase : Phase) where
  pub data Accepts (m : Moment) (fw : FilterWrapper W) (env : Envelope) (w : W)
      : Envelope → W → Type 0 where
    other_phase : same_phase fw.filter.phase phase ≡ false → Accepts m fw env w env w
    bypassed_open :
        same_phase fw.filter.phase phase ≡ true
        → allow fw.cb m.now ≡ false
        → fw.filter.failure_policy ≡ fail_open
        → Accepts m fw env w env w
    bypassed_failed :
        same_phase fw.filter.phase phase ≡ true
        → allow fw.cb m.now ≡ true
        → fw.filter.failure_policy ≡ fail_open
        → (d : Decision) (e : Err) (env' : Envelope) (w' : W)
        → fw.filter.process env w ≡ (d, some e, env', w')
        → expired (context_err m.cancelled_after budget start m.now_after) ≡ false
        → is_deadline e ≡ false
        → Accepts m fw env w env' w'
    accepted :
        same_phase fw.filter.phase phase ≡ true
        → allow fw.cb m.now ≡ true
        → (d : Decision) (env' : Envelope) (w' : W) → fw.filter.process env w ≡ (d, none, env', w')
        → d.action ≢ halt
        → d.action ≢ drop
        → Accepts m fw env w (apply_mutations d env') w'

  -- Every filter of the list let the request pass, each at its moment, with the context alive.
  pub data Passed
      : (ℕ → Moment) → List (FilterWrapper W) → Envelope → W → Envelope → W → Type 0 where
    nil : (ms : ℕ → Moment) (env : Envelope) (w : W) → Passed ms [] env w env w
    cons :
        (ms : ℕ → Moment) (fw : FilterWrapper W) (rest : List (FilterWrapper W)) (env : Envelope)
        (w : W) (env' : Envelope) (w' : W) (env'' : Envelope) (w'' : W)
        → context_err (ms 0).cancelled budget start (ms 0).now ≡ none
        → Accepts (ms 0) fw env w env' w'
        → Passed (λ i. ms (suc i)) rest env' w' env'' w''
        → Passed ms (fw ∷ rest) env w env'' w''

  -- A turn lets the request pass on, or returns a decision that is no continue.
  Outcome : Moment → FilterWrapper W → Envelope → W → Turn W → Type 0
  Outcome m fw env w (next fw' env' w') = Accepts m fw env w env' w'
  Outcome m fw env w (return d e fw' env' w') = d.action ≢ continue

  failed-Outcome :
      (m : Moment) (fw fw' : FilterWrapper W) (d : Decision) (e : Err) (env env' : Envelope)
      (w w' : W)
      → fw'.filter ≡ fw.filter
      → same_phase fw.filter.phase phase ≡ true
      → allow fw.cb m.now ≡ true
      → fw.filter.process env w ≡ (d, some e, env', w')
      → Outcome m fw env w
          (failed fw' (context_err m.cancelled_after budget start m.now_after) d e env' w')
  unfolding failed Outcome failure_decision halt_decision
  failed-Outcome m fw fw' d e env env' w w' same p a q =
      elim (Bool-cases
        (expired (context_err m.cancelled_after budget start m.now_after) || is_deadline e)) [
          | inl t ↦ rw t (λ h. cc)
          | inr f ↦ elim (policy_cases fw'.filter.failure_policy) [
            | inl o ↦
                rw (f, o, failed)
                  (bypassed_failed p a (sym (ap (λ (g : Filter W). g.failure_policy) same) ∙ o) d e
                    env' w' q (ground arith) (ground arith))
            | inr c ↦ rw (f, c, failed) (λ h. cc)
          ]
        ]

  succeeded-Outcome :
      (m : Moment) (fw fw' : FilterWrapper W) (d : Decision) (env env' : Envelope) (w w' : W)
      → same_phase fw.filter.phase phase ≡ true
      → allow fw.cb m.now ≡ true
      → fw.filter.process env w ≡ (d, none, env', w')
      → Outcome m fw env w (succeeded fw' d env' w')
  unfolding succeeded Outcome
  succeeded-Outcome m fw fw' d env env' w w' p a q = elim (action_cases d.action) [
    | inl h ↦ rw (h, succeeded) (λ g. cc)
    | inr (inl h) ↦ rw (h, succeeded) (λ g. cc)
    | inr (inr (inl c)) ↦ rw (c, succeeded) (accepted p a d env' w' q (λ h. cc) (λ h. cc))
    | inr (inr (inr c)) ↦ rw (c, succeeded) (accepted p a d env' w' q (λ h. cc) (λ h. cc))
  ]

  processed-Outcome :
      (m : Moment) (fw : FilterWrapper W) (env : Envelope) (w : W)
      (r : Decision × Option Err × Envelope × W)
      → same_phase fw.filter.phase phase ≡ true
      → allow fw.cb m.now ≡ true
      → fw.filter.process env w ≡ r
      → Outcome m fw env w (processed fw budget start m r)
  unfolding processed
  processed-Outcome m fw env w (d, none, env', w') p a q =
      succeeded-Outcome m fw _ d env env' w w' p a q
  processed-Outcome m fw env w (d, some e, env', w') p a q =
      failed-Outcome m fw _ d e env env' w w' refl p a q

  refused-Outcome :
      (m : Moment) (fw : FilterWrapper W) (env : Envelope) (w : W)
      → same_phase fw.filter.phase phase ≡ true
      → allow fw.cb m.now ≡ false
      → Outcome m fw env w (refused fw env w)
  unfolding refused Outcome halt_decision
  refused-Outcome m fw env w p a = elim (policy_cases fw.filter.failure_policy) [
    | inl o ↦ simp (o, refused) (bypassed_open p a o)
    | inr c ↦ simp (c, refused) (λ h. cc)
  ]

  admitted-Outcome :
      (m : Moment) (fw : FilterWrapper W) (env : Envelope) (w : W)
      → Outcome m fw env w (admitted budget start phase m fw env w)
  unfolding admitted Outcome
  admitted-Outcome m fw env w = elim (Bool-cases (same_phase fw.filter.phase phase)) [
    | inl p ↦ elim (Bool-cases (allow fw.cb m.now)) [
      | inl a ↦ rw (p, a) (processed-Outcome m fw env w _ p a refl)
      | inr a ↦ rw (p, a) (refused-Outcome m fw env w p a)
    ]
    | inr p ↦ rw p (other_phase p)
  ]

  -- a turn that goes on, with the context alive
  pub Lives : Moment → FilterWrapper W → Envelope → W → Turn W → Type 0
  Lives m fw env w (next fw' env' w') =
      (context_err m.cancelled budget start m.now ≡ none) × Accepts m fw env w env' w'
  Lives m fw env w (return d e fw' env' w') = d.action ≢ continue

  alive :
      (m : Moment) (fw : FilterWrapper W) (env : Envelope) (w : W) (t : Turn W)
      → context_err m.cancelled budget start m.now ≡ none
      → Outcome m fw env w t
      → Lives m fw env w t
  unfolding Outcome Lives
  alive m fw env w (next fw' env' w') c h = (c, h)
  alive m fw env w (return d e fw' env' w') c h = h

  visit-Lives :
      (m : Moment) (fw : FilterWrapper W) (env : Envelope) (w : W)
      → Lives m fw env w (visit budget start phase m fw env w)
  unfolding visit Lives
  visit-Lives m fw env w = elim (Option-cases (context_err m.cancelled budget start m.now)) [
    | inl c ↦ rw (c, arrived) (alive m fw env w _ c (admitted-Outcome m fw env w))
    | inr (e, c) ↦ rw (c, arrived) (halts_done e)
  ]

  -- One turn after another: the rest of the loop passes if the loop does.
  turn-Passed :
      (ms : ℕ → Moment) (fw : FilterWrapper W) (rest : List (FilterWrapper W)) (env : Envelope)
      (w : W) (t : Turn W)
      → visit budget start phase (ms 0) fw env w ≡ t
      → Lives (ms 0) fw env w t
      → ((env' : Envelope) (w' : W)
          → let r = run budget start phase (λ i. ms (suc i)) rest env' w' in
            r.decision.action ≡ continue → Passed (λ i. ms (suc i)) rest env' w' r.envelope r.world)
      → let r = run budget start phase ms (fw ∷ rest) env w in
        r.decision.action ≡ continue → Passed ms (fw ∷ rest) env w r.envelope r.world
  unfolding run Lives
  turn-Passed ms fw rest env w (next fw' env' w') v l ih =
      rw (v, run) (λ c. cons ms fw rest env w env' w' _ _ l.0 l.1 (ih env' w' c))
  turn-Passed ms fw rest env w (return d e fw' env' w') v l ih = rw (v, run) (λ c. absurd (l c))

  run-Passed :
      (ms : ℕ → Moment) (fs : List (FilterWrapper W)) (env : Envelope) (w : W)
      → let r = run budget start phase ms fs env w in
        r.decision.action ≡ continue → Passed ms fs env w r.envelope r.world
  run-Passed ms [] env w = unfold run in (λ c. nil ms env w)
  run-Passed ms (fw ∷ rest) env w =
      turn-Passed ms fw rest env w _ refl (visit-Lives (ms 0) fw env w)
        (λ env' w'. run-Passed (λ i. ms (suc i)) rest env' w')

  -- If ExecutePhase returns a decision to continue, every filter of the chain let the request pass
  -- while the context was alive: it belongs to another phase, or its breaker admitted it and Process
  -- returned no error and no halt or drop, or it is fail-open. The envelope returned is what these
  -- steps leave of the one received, set to the phase.
  pub execute_phase-Passed :
      (ms : ℕ → Moment) (fs : List (FilterWrapper W)) (env : Envelope) (w : W)
      → let r = execute_phase budget start phase ms fs env w in
        r.decision.action ≡ continue
        → Passed ms fs (record env { phase = phase }) w r.envelope r.world
  unfolding execute_phase
  execute_phase-Passed ms fs env w c = run-Passed ms fs (record env { phase = phase }) w c
