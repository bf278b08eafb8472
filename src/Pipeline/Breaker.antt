-- ===== src/Pipeline/Breaker.antt =====
-- CircuitBreaker of internal/pipeline/types.go. Times are nanoseconds since the Unix epoch, read by
-- the caller and handed in; the failure count is an int64 and wraps.
pub mod Trip
use torana_enterprise.Prelude.{
  ℕ, zero, suc, ◌+◌, ◌-◌, ◌≤◌, ◌<◌, ◌^◌, ◌≡◌, refl, Bool, true, false, ltb, leb, if◌then◌else◌,
  List, [], ◌∷◌, arith, length,
}
use torana_enterprise.Prelude.Int.{
  ℤ, pos, negsuc, wrap64, wrap64_id, ◌+ℤ◌, ltb_ℤ, leb_ℤ, pos_part, neg_part, sub_ℕ,
}

pub record CircuitBreaker : Type 0 where
  pub consecutive_failures : ℤ
  pub threshold : ℤ
  pub last_failure : ℕ
  pub cooldown : ℕ

unfoldable pub new_circuit_breaker : ℤ → ℕ → CircuitBreaker
new_circuit_breaker threshold cooldown = record {
  consecutive_failures = pos 0;
  threshold = threshold;
  last_failure = 0;
  cooldown = cooldown;
}

-- Allow, at the time `now`
unfoldable pub allow : CircuitBreaker → ℕ → Bool
allow cb now =
    if leb_ℤ cb.threshold (pos 0)
    then true
    else if ltb_ℤ cb.consecutive_failures cb.threshold
    then true
    else if ltb cb.cooldown (now - cb.last_failure)
    then true
    else false

unfoldable pub record_success : CircuitBreaker → CircuitBreaker
record_success cb = record cb { consecutive_failures = pos 0 }

unfoldable pub record_failure : CircuitBreaker → ℕ → CircuitBreaker
record_failure cb now = record cb {
  consecutive_failures = wrap64 (cb.consecutive_failures +ℤ pos 1);
  last_failure = now;
}
