-- ===== src/Pipeline/Chain/Denials.antt =====
-- What the circuit breaker of a chain makes of requests that a filter denies by an error, as the
-- authorization and the rate limit filters do (internal/pipeline/chain.go).
use torana_enterprise.Prelude.{
  ℕ, suc, ◌+◌, ◌≤◌, ◌≡◌, refl, ◌∙◌, true, false, List, [], ◌∷◌, ◌++◌, none, some, map, arith, All,
  length, length-map,
}
use torana_enterprise.Prelude.Bytes.{bytes}
use torana_enterprise.Prelude.Int.{pos}
use torana_enterprise.Pipeline.Breaker.{
  CircuitBreaker, allow, record_success, record_failure, new_circuit_breaker,
}
use torana_enterprise.Pipeline.Breaker.Trip.{fail_at, last_time, one_more, allow-fail_at}
use torana_enterprise.Pipeline.Types.{
  Phase, fail_closed, Err, circuit_open, Decision, Envelope, halt_decision, same_phase, is_deadline,
  wrapped,
}
use torana_enterprise.Pipeline.Chain.{
  Filter, FilterWrapper, Moment, return, context_err, expired, failure_decision, quoted, failed,
  processed, refused, arrived, visit, run, execute_phase, wrap_filter, new_chain,
}

blocked :
    (ts : List ℕ) (now : ℕ)
    → length ts ≡ 5
    → now ≤ last_time 0 ts + 10000000000
    → allow (fail_at (new_circuit_breaker (pos 5) 10000000000) ts) now ≡ false
unfolding new_circuit_breaker record_success
blocked ts now five soon =
    ground
      (arith, allow-fail_at (new_circuit_breaker (pos 5) 10000000000) 4 now ts refl (omega arith))

module _ {W : Type 0} (phase : Phase) where
  -- Requests one after another through one chain, with no budget.
  pub serve : List (FilterWrapper W) → W → List (Moment × Envelope) → List (FilterWrapper W) × W
  serve fs w [] = (fs, w)
  serve fs w ((m, env) ∷ rs) =
      let r = execute_phase 0 m.now phase (λ _. m) fs env w in serve r.filters r.world rs

  -- The filter denies the request by an error that is no deadline, in every world, and the caller
  -- does not cancel it.
  abbrev pub Denied : Filter W → Moment × Envelope → Type 0
  Denied f (m, env) =
      (m.cancelled ≡ none)
      × (m.cancelled_after ≡ none)
      × ((w : W)
          → (d : Decision) × (e : Err) × (env' : Envelope) × (w' : W) × (f.process
                (record env { phase = phase }) w
              ≡ (d, some e, env', w'))
            × (is_deadline e ≡ false))

  processed_denial :
      (fw : FilterWrapper W) (m : Moment) (d : Decision) (e : Err) (env : Envelope) (w : W)
      → fw.filter.failure_policy ≡ fail_closed
      → m.cancelled_after ≡ none
      → is_deadline e ≡ false
      → (d' : Decision) × (e' : Err) × (processed fw 0 m.now m (d, some e, env, w)
          ≡ return d' (some e') (record fw { cb = record_failure fw.cb m.now_after }) env w)
  unfolding processed context_err
  processed_denial fw m d e env w c alive nd = (
    failure_decision d e,
    wrapped (bytes "filter " ++ quoted fw.filter.name ++ bytes " failed") e,
    simp (alive, expired, nd, c, failed),
  )

  denial :
      (f : Filter W) (cb : CircuitBreaker) (m : Moment) (env : Envelope) (w : W)
      → same_phase f.phase phase ≡ true
      → f.failure_policy ≡ fail_closed
      → allow cb m.now ≡ true
      → Denied f (m, env)
      → (execute_phase 0 m.now phase (λ _. m) (record { filter = f; cb = cb } ∷ []) env w).filters
        ≡ record { filter = f; cb = record_failure cb m.now_after } ∷ []
  unfolding execute_phase
  denial f cb m env w p c a (alive, alive_after, deny) =
      let (d, e, env', w', q, nd) = deny w in
      let fw : FilterWrapper W = record { filter = f; cb = cb } in
      let (d', e', r) = processed_denial fw m d e env' w' c alive_after nd in
      let v : visit 0 m.now phase m fw (record env { phase = phase }) w
          ≡ return d' (some e') (record fw { cb = record_failure cb m.now_after }) env' w' =
        unfold visit context_err in simp (alive, arrived) (simp (p, a) (simp q r)) in
      rw (v, run)

  -- Denials at a closed breaker are counted as failures of the filter.
  serve-Denied :
      (f : Filter W) (rs : List (Moment × Envelope)) (n : ℕ) (cb : CircuitBreaker) (w : W)
      → same_phase f.phase phase ≡ true
      → f.failure_policy ≡ fail_closed
      → cb.threshold ≡ pos 5
      → cb.consecutive_failures ≡ pos n
      → n + length rs ≤ 5
      → All (Denied f) rs
      → (serve (record { filter = f; cb = cb } ∷ []) w rs).0
        ≡ record { filter = f; cb = fail_at cb (map (λ r. r.0.now_after) rs) } ∷ []
  unfolding serve fail_at record_failure
  serve-Denied f [] n cb w p c t k h a = refl
  serve-Denied f ((m, env) ∷ rs) n cb w p c t k h (a, as') =
      rw (denial f cb m env w p c (unfold allow in ground arith) a, serve)
        (serve-Denied f rs (suc n) (record_failure cb m.now_after) _ p c t
          (rw k (one_more n (omega arith))) (omega arith) as')

  -- An open breaker of a fail-closed filter halts the request, and Process is not called.
  refusal :
      (f : Filter W) (cb : CircuitBreaker) (m : Moment) (env : Envelope) (w : W)
      → same_phase f.phase phase ≡ true
      → f.failure_policy ≡ fail_closed
      → allow cb m.now ≡ false
      → m.cancelled ≡ none
      → let r = execute_phase 0 m.now phase (λ _. m) (record { filter = f; cb = cb } ∷ []) env w in
        (r.decision.status_code ≡ 503) × (r.error ≡ some circuit_open) × (r.world ≡ w)
  unfolding execute_phase halt_decision
  refusal f cb m env w p c a alive =
      let fw : FilterWrapper W = record { filter = f; cb = cb } in
      let v : visit 0 m.now phase m fw (record env { phase = phase }) w
          ≡ return (halt_decision 503 (bytes "filter circuit breaker open")) (some circuit_open) fw
              (record env { phase = phase }) w =
        unfold visit context_err in simp (alive, arrived) (simp (p, a) (simp (c, refused))) in
      rw (v, run) (refl, refl, refl)

  -- In a new chain of one fail-closed filter of the phase, run without a budget for callers whose
  -- context has not ended: after five requests in a row that the filter denied by an error that is no
  -- deadline, the next request within ten seconds of the last denial is halted with status 503 and the
  -- error of an open breaker, whatever its envelope, and Process is not called.
  pub five_denials_block :
      (f : Filter W) (rs : List (Moment × Envelope)) (m : Moment) (env : Envelope) (w : W)
      → same_phase f.phase phase ≡ true
      → f.failure_policy ≡ fail_closed
      → length rs ≡ 5
      → All (Denied f) rs
      → m.cancelled ≡ none
      → m.now ≤ last_time 0 (map (λ r. r.0.now_after) rs) + 10000000000
      → let (fs, w') = serve (new_chain (f ∷ [])) w rs in
        let r = execute_phase 0 m.now phase (λ _. m) fs env w' in
        (r.decision.status_code ≡ 503) × (r.error ≡ some circuit_open) × (r.world ≡ w')
  unfolding new_chain wrap_filter
  five_denials_block f rs m env w p c five denied alive soon =
      let times : List ℕ = map (λ r. r.0.now_after) rs in
      let cb : CircuitBreaker = new_circuit_breaker (pos 5) 10000000000 in
      rw
        (serve-Denied f rs 0 cb w p c (unfold new_circuit_breaker in refl)
          (unfold new_circuit_breaker in refl) (omega arith) denied)
        (refusal f (fail_at cb times) m env _ p c
          (blocked times m.now (length-map rs (λ r. r.0.now_after) ∙ five) soon) alive)
