-- ===== src/Pipeline/Chain.antt =====
-- Chain of internal/pipeline/chain.go. The filters share a world `W`, which stands for all that their
-- Process methods read and change; `Moment` is what the loop reads of the context and the clock while
-- it handles one filter. Logging is left out.
pub mod FailClosed
pub mod Errors
pub mod Denials
pub mod Passage
use torana_enterprise.Prelude.{
  ℕ, suc, ◌+◌, Bool, true, false, List, [], ◌∷◌, ◌++◌, Option, none, some, ltb, leb, ◌==◌, ◌||◌,
  ◌&&◌, if◌then◌else◌, map,
}
use torana_enterprise.Prelude.Int.{pos}
use torana_enterprise.Prelude.Maps.{insert}
use torana_enterprise.Prelude.Bytes.{Bytes, bytes, bytes_key}
use torana_enterprise.Pipeline.Breaker.{
  CircuitBreaker, new_circuit_breaker, allow, record_success, record_failure,
}
use torana_enterprise.Pipeline.Types.{
  Phase, request_headers, FailurePolicy, fail_open, fail_closed, BodyMode, Action, continue, halt,
  mutate, drop, Err, deadline_exceeded, phase_timeout, circuit_open, wrapped, Decision, Envelope,
  reader, continue_decision, halt_decision, same_phase, error_text, is_deadline, header_set,
}

-- The Filter interface. Process may write to the envelope that it is given.
pub record Filter (W : Type 0) : Type 0 where
  pub name : Bytes
  pub phase : Phase
  pub body_mode : BodyMode
  pub failure_policy : FailurePolicy
  pub process : Envelope → W → Decision × Option Err × Envelope × W

pub record FilterWrapper (W : Type 0) : Type 0 where
  pub filter : Filter W
  pub cb : CircuitBreaker

-- the end of the caller's context: its ctx.Err(), and when it came
pub record Ending : Type 0 where
  pub reason : Err
  pub since : ℕ

-- `cancelled` is the end of the caller's context, if it has ended when the loop comes to the filter,
-- and `cancelled_after` the same after Process; the other fields are readings of the clock.
pub record Moment : Type 0 where
  pub cancelled : Option Ending
  pub now : ℕ
  pub cancelled_after : Option Ending
  pub now_after : ℕ

unfoldable pub wrap_filter : {W : Type 0} → Filter W → FilterWrapper W
wrap_filter f = record { filter = f; cb = new_circuit_breaker (pos 5) 10000000000 }

-- NewChain and AddFilter
unfoldable pub new_chain : {W : Type 0} → List (Filter W) → List (FilterWrapper W)
new_chain fs = map wrap_filter fs

unfoldable pub add_filter :
    {W : Type 0} → List (FilterWrapper W) → Filter W → List (FilterWrapper W)
add_filter c f = c ++ wrap_filter f ∷ []

-- phaseCtx.Err(): of the caller's context and the budget, where there is one, what ended first
unfoldable pub context_err : Option Ending → ℕ → ℕ → ℕ → Option Err
context_err (some e) budget start now =
    if ltb 0 budget && leb (start + budget) e.since then some deadline_exceeded else some e.reason
context_err none budget start now =
    if ltb 0 budget && leb (start + budget) now then some deadline_exceeded else none

-- in the order of the list; of two keys with one canonical form the later one stays
set_headers : List (Bytes × Bytes) → List (Bytes × List Bytes) → List (Bytes × List Bytes)
set_headers [] h = h
set_headers ((k, v) ∷ kvs) h = set_headers kvs (header_set k v h)

set_metadata : List (Bytes × Bytes) → List (Bytes × Bytes) → List (Bytes × Bytes)
set_metadata [] m = m
set_metadata ((k, v) ∷ kvs) m = set_metadata kvs (insert k v m)

replace_body : Bytes → Envelope → Envelope
replace_body [] env = env
replace_body (b ∷ bs) env = record env {
  buffered_body = some (b ∷ bs);
  body = some (reader (b ∷ bs) none);
}

unfoldable pub apply_mutations : Decision → Envelope → Envelope
unfolding set_headers set_metadata replace_body
apply_mutations d env = elim d.action [
  | mutate ↦ replace_body d.mutate_body (record env {
    headers = set_headers d.mutate_headers env.headers;
    metadata = set_metadata d.mutate_metadata env.metadata;
  })
  | _ ↦ env
]

-- What one turn of the loop does: go on to the next filter, or return.
pub data Turn (W : Type 0) : Type 0 where
  next : FilterWrapper W → Envelope → W → Turn W
  return : Decision → Option Err → FilterWrapper W → Envelope → W → Turn W

-- %q of a name with nothing to escape
quoted : Bytes → Bytes
quoted s = b'"' ∷ s ++ b'"' ∷ []

done_decision : Err → Decision
done_decision e =
    if is_deadline e
    then halt_decision 504 (bytes "phase latency budget exceeded")
    else halt_decision 504 (bytes "context cancelled")

done_err : Err → Err
done_err e = if is_deadline e then phase_timeout else e

pub expired : Option Err → Bool
expired none = false
expired (some e) = is_deadline e

failure_decision : Decision → Err → Decision
failure_decision d e =
    record (halt_decision (if d.status_code == 0 then 500 else d.status_code) (error_text e)) {
      mutate_headers = d.mutate_headers;
      mutate_body = d.mutate_body;
    }

-- what ExecutePhase returns, with the chain, the envelope and the world that it leaves
pub record Result (W : Type 0) : Type 0 where
  pub decision : Decision
  pub error : Option Err
  pub filters : List (FilterWrapper W)
  pub envelope : Envelope
  pub world : W

module _ {W : Type 0} where
  -- after Process returned an error
  failed : FilterWrapper W → Option Err → Decision → Err → Envelope → W → Turn W
  unfolding expired failure_decision quoted
  failed fw ctx d e env w =
      if expired ctx || is_deadline e
      then return (halt_decision 504 (bytes "phase latency budget exceeded")) (some phase_timeout)
          fw env w
      else elim fw.filter.failure_policy [
        | fail_open ↦ next fw env w
        | fail_closed ↦
            return (failure_decision d e)
              (some (wrapped (bytes "filter " ++ quoted fw.filter.name ++ bytes " failed") e)) fw
              env w
      ]

  -- after Process returned no error
  succeeded : FilterWrapper W → Decision → Envelope → W → Turn W
  succeeded fw d env w = elim d.action [
    | halt ↦ return d none fw (apply_mutations d env) w
    | drop ↦ return d none fw (apply_mutations d env) w
    | _ ↦ next fw (apply_mutations d env) w
  ]

  processed : FilterWrapper W → ℕ → ℕ → Moment → Decision × Option Err × Envelope × W → Turn W
  unfolding failed succeeded
  processed fw budget start m (d, some e, env, w) =
      failed (record fw { cb = record_failure fw.cb m.now_after })
        (context_err m.cancelled_after budget start m.now_after) d e env w
  processed fw budget start m (d, none, env, w) =
      succeeded (record fw { cb = record_success fw.cb }) d env w

  -- the breaker refuses
  refused : FilterWrapper W → Envelope → W → Turn W
  refused fw env w = elim fw.filter.failure_policy [
    | fail_open ↦ next fw env w
    | fail_closed ↦
        return (halt_decision 503 (bytes "filter circuit breaker open")) (some circuit_open) fw env
          w
  ]

  admitted : ℕ → ℕ → Phase → Moment → FilterWrapper W → Envelope → W → Turn W
  unfolding processed refused
  admitted budget start phase m fw env w =
      if same_phase fw.filter.phase phase
      then (if allow fw.cb m.now
          then processed fw budget start m (fw.filter.process env w)
          else refused fw env w)
      else next fw env w

  arrived : ℕ → ℕ → Phase → Moment → Option Err → FilterWrapper W → Envelope → W → Turn W
  unfolding admitted
  arrived budget start phase m (some e) fw env w =
      return (done_decision e) (some (done_err e)) fw env w
  arrived budget start phase m none fw env w = admitted budget start phase m fw env w

  -- one turn of the loop of ExecutePhase
  pub visit : ℕ → ℕ → Phase → Moment → FilterWrapper W → Envelope → W → Turn W
  unfolding arrived done_decision done_err
  visit budget start phase m fw env w =
      arrived budget start phase m (context_err m.cancelled budget start m.now) fw env w

  record_turn : FilterWrapper W → Result W → Result W
  record_turn fw r = record r { filters = fw ∷ r.filters }

  -- the loop of ExecutePhase; `moments i` is read at the i-th of the filters that are left
  unfoldable pub run :
      ℕ → ℕ → Phase → (ℕ → Moment) → List (FilterWrapper W) → Envelope → W → Result W
  unfolding visit record_turn
  run budget start phase moments [] env w = record {
    decision = continue_decision;
    error = none;
    filters = [];
    envelope = env;
    world = w;
  }
  run budget start phase moments (fw ∷ rest) env w =
      elim (visit budget start phase (moments 0) fw env w) [
        | next fw' env' w' ↦
            record_turn fw' (run budget start phase (λ i. moments (suc i)) rest env' w')
        | return d e fw' env' w' ↦ record {
          decision = d;
          error = e;
          filters = fw' ∷ rest;
          envelope = env';
          world = w';
        }
      ]

  -- ExecutePhase, entered at the time `start`
  unfoldable pub execute_phase :
      ℕ → ℕ → Phase → (ℕ → Moment) → List (FilterWrapper W) → Envelope → W → Result W
  unfolding run
  execute_phase budget start phase moments filters env w =
      run budget start phase moments filters (record env { phase = phase }) w
