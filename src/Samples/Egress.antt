-- ===== src/Samples/Egress.antt =====
-- A bulkhead and fallback chains at concrete inputs.
use torana_enterprise.Prelude.{
  ℕ, suc, ◌≡◌, refl, inl, inr, List, [], ◌∷◌, Bool, true, false, some, if◌then◌else◌,
}
use torana_enterprise.Prelude.Maps.{lookup}
use torana_enterprise.Prelude.Bytes.{Bytes, bytes, bytes_key, bytes_eq}
use torana_enterprise.Egress.Fallback.{
  ProviderError, TargetEndpoint, should_fallback, try_targets, chat, run_chain,
  execute_with_fallback,
}
use torana_enterprise.Egress.Fallback.Order.{
  Answers, after_all, execute_with_fallback-Answers, execute_with_fallback-canceled,
}
use torana_enterprise.Prelude.Int.{pos}
use torana_enterprise.Egress.Bulkhead.{Bulkhead, new_bulkhead, take_slot, enter_queue, release}
use torana_enterprise.Egress.Bulkhead.Capacity.{
  Callers, System, starts, misses, queues, wakes, releases, Reaches, stay, onward, IsWithin, fresh,
  new_bulkhead-IsWithin,
}

abbrev small : ℕ → ℕ → Bulkhead
small active queued = record { max_concurrent = 1; max_queue = 1; active = active; queued = queued }

abbrev callers_at : List ℕ → List ℕ → List ℕ → List ℕ → Callers
callers_at missed waiting admitted running = record {
  missed = missed;
  waiting = waiting;
  admitted = admitted;
  abandoned = [];
  running = running;
}

-- one caller waits in the queue until the first one has released its slot
abbrev full : System
full = record { bulkhead = small 1 1; callers = callers_at [] [] (8 ∷ []) [] }

filled : Reaches (fresh (new_bulkhead (pos 1) (pos 1))) full
unfolding new_bulkhead take_slot enter_queue release
filled = onward _ _ _ (starts 7 (small 0 0) (small 1 0) (callers_at [] [] [] []) refl) (
    onward _ _ _ (misses 8 (small 1 0) (callers_at [] [] [] (7 ∷ [])) refl) (
      onward _ _ _
        (queues 8 (small 1 0) (small 1 1) (callers_at (8 ∷ []) [] [] (7 ∷ [])) [] [] refl refl)
        (onward _ _ _ (releases 7 (small 1 1) (callers_at [] (8 ∷ []) [] (7 ∷ [])) [] [] refl) (
          onward _ _ _
            (wakes 8 (small 0 1) (small 1 1) (callers_at [] (8 ∷ []) [] []) [] [] refl refl)
            (stay full)))))

new_bulkhead-IsWithin_example : IsWithin (new_bulkhead (pos 1) (pos 1)) full
new_bulkhead-IsWithin_example = new_bulkhead-IsWithin (pos 1) (pos 1) full filled

abbrev busy : ProviderError
busy = record { text = bytes "status 503"; is_rate_limit = true; is_deadline = false }

-- a provider that counts its calls, and answers 7 or fails
abbrev target : Bool → TargetEndpoint ℕ ℕ ℕ ℕ
target answers = record {
  provider = record {
    chat_completion = λ limit model req w. (if answers then inl 7 else inr busy, suc w);
    stream_chat_completion = λ limit model req w. (if answers then inl 7 else inr busy, suc w);
  };
  model = bytes "m";
  timeout = pos 0;
}

abbrev chains : List (Bytes × List (TargetEndpoint ℕ ℕ ℕ ℕ))
chains =
    (bytes "c", target false ∷ target true ∷ [])
    ∷ (bytes "d", target false ∷ target false ∷ [])
    ∷ []

answered : execute_with_fallback chains (λ w. false) (bytes "c") 1 0 ≡ (inl 7, 2)
unfolding execute_with_fallback run_chain try_targets chat should_fallback lookup bytes_eq
answered = refl

execute_with_fallback-Answers_example :
    (ts : List (TargetEndpoint ℕ ℕ ℕ ℕ)) × (lookup (bytes "c") chains ≡ some ts)
    × Answers (chat 1) (λ w. false) ts 0 7 2
execute_with_fallback-Answers_example =
    execute_with_fallback-Answers chains (λ w. false) (bytes "c") 1 0 7 2 answered

execute_with_fallback-canceled_example :
    (execute_with_fallback chains (λ w. true) (bytes "d") 1 0).1
    ≡ after_all (chat 1) (λ w. true) (target false ∷ target false ∷ []) 0
execute_with_fallback-canceled_example =
    execute_with_fallback-canceled chains (λ w. true) (bytes "d") 1 0
      (target false ∷ target false ∷ []) (unfold lookup bytes_eq in refl) (fails, (fails, tt))
      (λ v. refl)
  where
    fails : (w : ℕ) → (e : ProviderError) × (w' : ℕ) × (chat 1 (target false) w ≡ (inr e, w'))
    fails w = (busy, suc w, unfold chat in refl)
