-- ===== src/Limits/TokenBucket.antt =====
-- TokenBucket of internal/limits/tokenbucket.go, over any float64. Times are nanoseconds since the
-- epoch.
use torana_enterprise.Prelude.{ℕ, Bool, true, false, if◌then◌else◌}
use torana_enterprise.Prelude.Int.{ℤ, pos, wrap64, sub_ℕ, ◌*ℤ◌, leb_ℤ, ltb_ℤ}
use torana_enterprise.Prelude.Float.{Float64}
use torana_enterprise.Limits.Types.{second}

pub record TokenBucket (F : Type 0) : Type 0 where
  pub rate : F
  pub capacity : F
  pub tokens : F
  pub last_refill : ℕ

module _ (fl : Float64) where
  open fl use {F, of_int, to_int, add, sub, mul, div, min, ceil, leb, ltb, seconds}

  unfoldable pub new_token_bucket : F → ℤ → ℕ → TokenBucket F
  new_token_bucket rate burst now =
      let capacity = of_int (if leb_ℤ burst (pos 0) then pos 1 else burst) in
      record {
        rate = if leb rate (of_int (pos 0)) then of_int (pos 1) else rate;
        capacity = capacity;
        tokens = capacity;
        last_refill = now;
      }

  unfoldable pub refill : TokenBucket F → ℕ → TokenBucket F
  refill tb now =
      let elapsed = seconds (sub_ℕ now tb.last_refill) in
      if leb elapsed (of_int (pos 0)) then tb else record tb {
        tokens = min tb.capacity (add tb.tokens (mul elapsed tb.rate));
        last_refill = now;
      }

  -- the wait of a call that is refused
  pub retry_wait : TokenBucket F → F → ℤ
  retry_wait tb needed =
      let wait = wrap64 (to_int (ceil (div (sub needed tb.tokens) tb.rate)) *ℤ pos second) in
      if ltb_ℤ wait (pos second) then pos second else wait

  take : TokenBucket F → F → Bool × ℤ × TokenBucket F
  unfolding retry_wait
  take tb needed =
      if leb needed tb.tokens
      then (true, pos 0, record tb { tokens = sub tb.tokens needed })
      else (false, retry_wait tb needed, tb)

  -- AllowN, and the bucket afterwards
  unfoldable pub allow_n : TokenBucket F → ℕ → ℤ → Bool × ℤ × TokenBucket F
  unfolding refill take
  allow_n tb now n = take (refill tb now) (of_int n)
