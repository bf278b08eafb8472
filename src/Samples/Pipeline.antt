-- ===== src/Samples/Pipeline.antt =====
-- A chain and its breakers at concrete inputs.
use torana_enterprise.Prelude.{ℕ, suc, ◌≡◌, refl, ◌||◌, List, [], ◌∷◌, none, some, arith, ltb, ◌-◌}
use torana_enterprise.Prelude.Int.{pos}
use torana_enterprise.Prelude.Bytes.{bytes}
use torana_enterprise.Pipeline.Breaker.{new_circuit_breaker, allow, record_success}
use torana_enterprise.Pipeline.Breaker.Trip.{fail_at, last_time, allow-fail_at}
use torana_enterprise.Pipeline.Types.{
  request_headers, unspecified, none_mode, fail_closed, message, circuit_open, Envelope,
  continue_decision, halt_decision, same_phase, is_deadline,
}
use torana_enterprise.Pipeline.Chain.{
  Filter, Moment, wrap_filter, new_chain, context_err, run, execute_phase, apply_mutations,
}
use torana_enterprise.Pipeline.Chain.FailClosed.{Passed, execute_phase-Passed}
use torana_enterprise.Pipeline.Chain.Errors.{Sound, execute_phase-Sound}
use torana_enterprise.Pipeline.Chain.Denials.{serve, Denied, five_denials_block}

abbrev envelope : Envelope
envelope = record {
  request_id = bytes "q1";
  route = none;
  upstream = none;
  phase = unspecified;
  method = bytes "GET";
  path = bytes "/";
  headers = [];
  metadata = [];
  claims = [];
  identity = none;
  body = none;
  buffered_body = none;
  peer_info = record { remote_ip = []; protocol = []; client_identity = [] };
  start_time = 0;
}

-- counts its calls, and admits all
abbrev pub counting : Filter ℕ
counting = record {
  name = bytes "counting";
  phase = request_headers;
  body_mode = none_mode;
  failure_policy = fail_closed;
  process = λ env w. (continue_decision, none, env, suc w);
}

-- denies all
abbrev denying : Filter ℕ
denying = record {
  name = bytes "authz";
  phase = request_headers;
  body_mode = none_mode;
  failure_policy = fail_closed;
  process = λ env w. (halt_decision 403 (bytes "denied"), some (message (bytes "denied")), env, w);
}

abbrev moment : Moment
moment = record { cancelled = none; now = 10; cancelled_after = none; now_after = 10 }

abbrev requests : List (Moment × Envelope)
requests =
    (moment, envelope)
    ∷ (moment, envelope)
    ∷ (moment, envelope)
    ∷ (moment, envelope)
    ∷ (moment, envelope)
    ∷ []

execute_phase-Passed_example :
    let r =
      execute_phase 100 5 request_headers (λ _. moment) (wrap_filter counting ∷ []) envelope 4 in
    Passed 100 5 request_headers
      (λ _. moment)
      (wrap_filter counting ∷ [])
      (record envelope { phase = request_headers })
      4
      r.envelope
      r.world
execute_phase-Passed_example =
    execute_phase-Passed 100 5 request_headers (λ _. moment) (wrap_filter counting ∷ []) envelope 4
      (unfold execute_phase wrap_filter run context_err same_phase allow new_circuit_breaker
          continue_decision apply_mutations in
        refl)

execute_phase-Sound_example :
    Sound 100 5 request_headers
      (wrap_filter denying ∷ [])
      (execute_phase 100 5 request_headers (λ _. moment) (wrap_filter denying ∷ []) envelope 4)
execute_phase-Sound_example =
    execute_phase-Sound 100 5 request_headers (λ _. moment) (wrap_filter denying ∷ []) envelope 4

five_denials_block_example :
    let (fs, w') = serve request_headers (new_chain (denying ∷ [])) 0 requests in
    let r = execute_phase 0 10 request_headers (λ _. moment) fs envelope w' in
    (r.decision.status_code ≡ 503) × (r.error ≡ some circuit_open) × (r.world ≡ w')
five_denials_block_example =
    five_denials_block request_headers denying requests moment envelope 0
      (unfold same_phase in refl) refl refl (denied, (denied, (denied, (denied, (denied, tt)))))
      refl (unfold last_time in omega arith)
  where
    denied : Denied request_headers denying (moment, envelope)
    denied = (refl, refl, λ w. (_, _, _, _, refl, unfold is_deadline in refl))

allow-fail_at_example :
    allow (fail_at (record_success (new_circuit_breaker (pos 2) 50)) (3 ∷ 4 ∷ [])) 60
    ≡ (ltb 2 2 || ltb 50 (60 - 4))
allow-fail_at_example =
    unfold new_circuit_breaker last_time in
    allow-fail_at (new_circuit_breaker (pos 2) 50) 1 60 (3 ∷ 4 ∷ []) refl (omega arith)
