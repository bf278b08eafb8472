-- ===== src/Pipeline/Breaker/Trip.antt =====
-- When a circuit breaker opens (internal/pipeline/types.go, CircuitBreaker).
use torana_enterprise.Prelude.{
  ℕ, suc, ◌+◌, ◌-◌, ◌<◌, ◌^◌, ◌≡◌, refl, ltb, ◌||◌, List, [], ◌∷◌, arith, length,
}
use torana_enterprise.Prelude.Int.{pos, wrap64, ◌+ℤ◌}
use torana_enterprise.Pipeline.Breaker.{CircuitBreaker, allow, record_success, record_failure}

-- Failures at the given times, one after another, with no success between them.
unfoldable pub fail_at : CircuitBreaker → List ℕ → CircuitBreaker
fail_at cb [] = cb
fail_at cb (t ∷ ts) = fail_at (record_failure cb t) ts

unfoldable pub last_time : ℕ → List ℕ → ℕ
last_time t [] = t
last_time t (u ∷ us) = last_time u us

pub one_more : (n : ℕ) → suc n < 2 ^ 63 → wrap64 (pos n +ℤ pos 1) ≡ pos (suc n)
unfolding ◌+ℤ◌ wrap64
one_more n h = ground arith

failures-fail_at :
    (cb : CircuitBreaker) (n : ℕ) (ts : List ℕ)
    → cb.consecutive_failures ≡ pos n
    → n + length ts < 2 ^ 63
    → (fail_at cb ts).consecutive_failures ≡ pos (n + length ts)
unfolding fail_at record_failure
failures-fail_at cb n [] e h = ground arith
failures-fail_at cb n (t ∷ ts) e h = ground (
  arith,
  failures-fail_at (record_failure cb t) (suc n) ts (rw e (one_more n (omega arith))) (omega arith),
)

last_failure-fail_at :
    (cb : CircuitBreaker) (ts : List ℕ)
    → (fail_at cb ts).last_failure ≡ last_time cb.last_failure ts
unfolding fail_at record_failure last_time
last_failure-fail_at cb [] = refl
last_failure-fail_at cb (t ∷ ts) = last_failure-fail_at (record_failure cb t) ts

settings-fail_at :
    (cb : CircuitBreaker) (ts : List ℕ)
    → ((fail_at cb ts).threshold ≡ cb.threshold) × ((fail_at cb ts).cooldown ≡ cb.cooldown)
unfolding fail_at record_failure
settings-fail_at cb [] = (refl, refl)
settings-fail_at cb (t ∷ ts) = settings-fail_at (record_failure cb t) ts

-- A breaker with a positive threshold that recorded a success and then failures at the times `ts`
-- (fewer than 2^63 of them) admits a call at `now` exactly when the failures are fewer than the
-- threshold or more than the cooldown has passed since the last of them.
pub allow-fail_at :
    (cb : CircuitBreaker) (k now : ℕ) (ts : List ℕ)
    → cb.threshold ≡ pos (suc k)
    → length ts < 2 ^ 63
    → allow (fail_at (record_success cb) ts) now
      ≡ (ltb (length ts) (suc k) || ltb cb.cooldown (now - last_time cb.last_failure ts))
unfolding allow record_success
allow-fail_at cb k now ts e h = ground (
  arith,
  failures-fail_at (record_success cb) 0 ts refl (omega arith),
  last_failure-fail_at (record_success cb) ts,
  settings-fail_at (record_success cb) ts,
)
