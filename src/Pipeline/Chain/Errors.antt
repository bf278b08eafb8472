-- ===== src/Pipeline/Chain/Errors.antt =====
-- What ExecutePhase returns with an error, and what it keeps (internal/pipeline/chain.go).
use torana_enterprise.Prelude.{
  ℕ, suc, ◌≡◌, refl, inl, inr, ◌≢◌, List, [], ◌∷◌, Option, none, some, map, arith, Bool-cases,
  Option-cases,
}
use torana_enterprise.Pipeline.Breaker.{allow}
use torana_enterprise.Pipeline.Types.{
  Phase, halt, mutate, Err, Decision, Envelope, continue_decision, halt_decision, same_phase,
}
use torana_enterprise.Pipeline.Chain.{
  Filter, FilterWrapper, Moment, Turn, next, return, Result, context_err, failure_decision,
  done_decision, failed, succeeded, processed, refused, admitted, arrived, visit, run,
  execute_phase,
}

-- A decision that goes with an error halts the request with a status other than 0; without an error
-- it continues, halts or drops.
abbrev pub IsSound : Decision → Option Err → Type 0
IsSound d none = d.action ≢ mutate
IsSound d (some e) = (d.action ≡ halt) × (d.status_code ≢ 0)

-- A turn keeps the filter, and returns sound decisions only.
abbrev Keeps : {W : Type 0} → FilterWrapper W → Turn W → Type 0
Keeps fw (next fw' env w) = fw'.filter ≡ fw.filter
Keeps fw (return d e fw' env w) = (fw'.filter ≡ fw.filter) × IsSound d e

module _ {W : Type 0} (budget start : ℕ) (phase : Phase) where
  failed-Keeps :
      (fw fw' : FilterWrapper W) (ctx : Option Err) (d : Decision) (e : Err) (env : Envelope)
      (w : W)
      → fw'.filter ≡ fw.filter
      → Keeps fw (failed fw' ctx d e env w)
  unfolding failed failure_decision halt_decision
  failed-Keeps fw fw' ctx d e env w same = ground arith

  succeeded-Keeps :
      (fw fw' : FilterWrapper W) (d : Decision) (env : Envelope) (w : W)
      → fw'.filter ≡ fw.filter
      → Keeps fw (succeeded fw' d env w)
  unfolding succeeded
  succeeded-Keeps fw fw' d env w same = ground arith

  processed-Keeps :
      (m : Moment) (fw : FilterWrapper W) (r : Decision × Option Err × Envelope × W)
      → Keeps fw (processed fw budget start m r)
  unfolding processed
  processed-Keeps m fw (d, none, env, w) = succeeded-Keeps fw _ d env w refl
  processed-Keeps m fw (d, some e, env, w) = failed-Keeps fw _ _ d e env w refl

  refused-Keeps : (fw : FilterWrapper W) (env : Envelope) (w : W) → Keeps fw (refused fw env w)
  unfolding refused halt_decision
  refused-Keeps fw env w = ground arith

  admitted-Keeps :
      (m : Moment) (fw : FilterWrapper W) (env : Envelope) (w : W)
      → Keeps fw (admitted budget start phase m fw env w)
  unfolding admitted
  admitted-Keeps m fw env w = elim (Bool-cases (same_phase fw.filter.phase phase)) [
    | inl p ↦ elim (Bool-cases (allow fw.cb m.now)) [
      | inl a ↦ rw (p, a) (processed-Keeps m fw (fw.filter.process env w))
      | inr a ↦ rw (p, a) (refused-Keeps fw env w)
    ]
    | inr p ↦ rw p refl
  ]

  visit-Keeps :
      (m : Moment) (fw : FilterWrapper W) (env : Envelope) (w : W)
      → Keeps fw (visit budget start phase m fw env w)
  unfolding visit done_decision halt_decision
  visit-Keeps m fw env w = elim (Option-cases (context_err m.cancelled budget start m.now)) [
    | inl c ↦ rw (c, arrived) (admitted-Keeps m fw env w)
    | inr (e, c) ↦ rw (c, arrived) (ground arith)
  ]

  abbrev filters_of : List (FilterWrapper W) → List (Filter W)
  filters_of = map (λ fw. fw.filter)

  -- What a run keeps: its filters, in their order, and a sound decision.
  abbrev pub Sound : List (FilterWrapper W) → Result W → Type 0
  Sound fs r = (filters_of r.filters ≡ filters_of fs) × IsSound r.decision r.error

  turn-Sound :
      (ms : ℕ → Moment) (fw : FilterWrapper W) (rest : List (FilterWrapper W)) (env : Envelope)
      (w : W) (t : Turn W)
      → visit budget start phase (ms 0) fw env w ≡ t
      → Keeps fw t
      → ((env' : Envelope) (w' : W)
          → Sound rest (run budget start phase (λ i. ms (suc i)) rest env' w'))
      → Sound (fw ∷ rest) (run budget start phase ms (fw ∷ rest) env w)
  unfolding run
  turn-Sound ms fw rest env w (next fw' env' w') v k ih =
      let (same, sound) = ih env' w' in rw (v, run) (cc (k, same), sound)
  turn-Sound ms fw rest env w (return d e fw' env' w') v k ih = rw (v, run) (cc (k.0), k.1)

  run-Sound :
      (ms : ℕ → Moment) (fs : List (FilterWrapper W)) (env : Envelope) (w : W)
      → Sound fs (run budget start phase ms fs env w)
  run-Sound ms [] env w = unfold run continue_decision in (refl, λ h. cc)
  run-Sound ms (fw ∷ rest) env w =
      turn-Sound ms fw rest env w _ refl (visit-Keeps (ms 0) fw env w)
        (λ env' w'. run-Sound (λ i. ms (suc i)) rest env' w')

  -- ExecutePhase keeps the filters of the chain in their order; the decision that it returns with an
  -- error halts the request with a status other than 0, and the one that it returns without an error
  -- is never a mutation left to the caller.
  pub execute_phase-Sound :
      (ms : ℕ → Moment) (fs : List (FilterWrapper W)) (env : Envelope) (w : W)
      → Sound fs (execute_phase budget start phase ms fs env w)
  unfolding execute_phase
  execute_phase-Sound ms fs env w = run-Sound ms fs (record env { phase = phase }) w
