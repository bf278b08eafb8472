-- ===== src/Pipeline/Chain/Passage.antt =====
-- What a chain that continues says of one fail-closed filter of the phase (internal/pipeline/chain.go).
use torana_enterprise.Prelude.{ℕ, suc, ◌≡◌, subst, true, List, [], ◌∷◌, ◌++◌, none}
use torana_enterprise.Pipeline.Types.{Phase, fail_closed, continue, Decision, Envelope, same_phase}
use torana_enterprise.Pipeline.Chain.{FilterWrapper, Moment, context_err, execute_phase}
use torana_enterprise.Pipeline.Chain.FailClosed.{
  Accepts, other_phase, bypassed_open, bypassed_failed, accepted, Passed, nil, cons,
  execute_phase-Passed,
}

-- A list that a request passed, cut at one of its filters: the request passed what stands before
-- it, and then that filter.
module _ {W : Type 0} (budget start : ℕ) (phase : Phase) (fw : FilterWrapper W)
    (post : List (FilterWrapper W)) where
  abbrev Passes : (ℕ → Moment) → List (FilterWrapper W) → Envelope → W → Type 0
  Passes ms pre env w =
      (env1 : Envelope) × (w1 : W) × Passed budget start phase ms pre env w env1 w1
      × ((m : Moment) × (env2 : Envelope) × (w2 : W) × Accepts budget start phase m fw env1 w1 env2
            w2)

  after :
      (ms : ℕ → Moment) (g : FilterWrapper W) (pre : List (FilterWrapper W)) (env env1 : Envelope)
      (w w1 : W)
      → context_err (ms 0).cancelled budget start (ms 0).now ≡ none
      → Accepts budget start phase (ms 0) g env w env1 w1
      → Passes (λ i. ms (suc i)) pre env1 w1
      → Passes ms (g ∷ pre) env w
  after ms g pre env env1 w w1 c a (env2, w2, p, rest) =
      (env2, w2, cons ms g pre env w env1 w1 env2 w2 c a p, rest)

  cut :
      (pre fs : List (FilterWrapper W)) (ms : ℕ → Moment) (env : Envelope) (w : W) (env' : Envelope)
      (w' : W)
      → fs ≡ pre ++ fw ∷ post
      → Passed budget start phase ms fs env w env' w'
      → Passes ms pre env w
  cut [] fs ms env w env' w' e (nil _ _ _) = cc
  cut [] fs ms env w env' w' e (cons _ gw rest _ _ env1 w1 _ _ c a p) =
      let same : gw ≡ fw = cc e in
      (
        env,
        w,
        nil ms env w,
        (ms 0, env1, w1, subst (λ g. Accepts budget start phase (ms 0) g env w env1 w1) same a),
      )
  cut (g ∷ pre) fs ms env w env' w' e (nil _ _ _) = cc
  cut (g ∷ pre) fs ms env w env' w' e (cons _ gw rest _ _ env1 w1 _ _ c a p) =
      let same : gw ≡ g = cc e in
      after ms g pre env env1 w w1 c
        (subst (λ g. Accepts budget start phase (ms 0) g env w env1 w1) same a)
        (cut pre rest (λ i. ms (suc i)) env1 w1 env' w' (cc e) p)

  -- The filter was asked, and answered without an error.
  abbrev pub Admits : (ℕ → Moment) → List (FilterWrapper W) → Envelope → W → Type 0
  Admits ms pre env w =
      (env1 : Envelope) × (w1 : W) × Passed budget start phase ms pre env w env1 w1
      × ((d : Decision) × (env2 : Envelope) × (w2 : W) × (fw.filter.process env1 w1
            ≡ (d, none, env2, w2)))

  Accepts-asked :
      (m : Moment) (env : Envelope) (w : W) (env' : Envelope) (w' : W)
      → same_phase fw.filter.phase phase ≡ true
      → fw.filter.failure_policy ≡ fail_closed
      → Accepts budget start phase m fw env w env' w'
      → (d : Decision) × (env2 : Envelope) × (w2 : W) × (fw.filter.process env w
          ≡ (d, none, env2, w2))
  Accepts-asked m env w env' w' p c (other_phase e) = cc
  Accepts-asked m env w env' w' p c (bypassed_open s a o) = cc
  Accepts-asked m env w env' w' p c (bypassed_failed s a o d e env1 w1 q x y) = cc
  Accepts-asked m env w env' w' p c (accepted s a d env1 w1 q x y) = (d, env1, w', q)

  -- A chain that continues has asked each of its fail-closed filters of the phase, about the envelope and
  -- the world that the filters before it made, and had an answer without an error.
  pub continue-Admits :
      (ms : ℕ → Moment) (pre fs : List (FilterWrapper W)) (env : Envelope) (w : W)
      → fs ≡ pre ++ fw ∷ post
      → same_phase fw.filter.phase phase ≡ true
      → fw.filter.failure_policy ≡ fail_closed
      → (execute_phase budget start phase ms fs env w).decision.action ≡ continue
      → Admits ms pre (record env { phase = phase }) w
  continue-Admits ms pre fs env w e p c h =
      let (env1, w1, passed, (m, env2, w2, a)) =
        cut pre fs ms _ w _ _ e (execute_phase-Passed budget start phase ms fs env w h) in
      (env1, w1, passed, Accepts-asked m env1 w1 env2 w2 p c a)
