-- ===== src/Limits/Types.antt =====
-- The data of rate limits and token budgets (internal/limits/types.go). `format` stands for
-- time.Time.UTC().Format. The texts of reasons are data.
use torana_enterprise.Prelude.{
  ℕ, ◌*◌, ◌/◌, suc, Bool, List, [], ◌∷◌, ◌++◌, Option, none, some, true, not, if◌then◌else◌,
}
use torana_enterprise.Prelude.Int.{ℤ, pos, negsuc, sub_ℕ}
use torana_enterprise.Prelude.Maps.{◌≟◌}
use torana_enterprise.Prelude.Bytes.{Bytes, bytes, bytes_key}

abbrev pub Window : Type 0
Window = Bytes

abbrev pub window_minute : Window
window_minute = bytes "minute"

abbrev pub window_day : Window
window_day = bytes "day"

abbrev pub window_month : Window
window_month = bytes "month"

abbrev pub second : ℕ
second = 1000000000

-- Window.Duration, in nanoseconds
unfoldable pub duration : Window → ℕ
duration w =
    if w ≟ window_minute
    then 60 * second
    else if w ≟ window_day
    then 86400 * second
    else if w ≟ window_month
    then 2592000 * second
    else 60 * second

pub record DimensionKeys : Type 0 where
  pub identity : Bytes
  pub team : Bytes
  pub route : Bytes
  pub model : Bytes

sanitize_key_part : Bytes → Bytes
sanitize_key_part [] = b'*' ∷ []
sanitize_key_part (c ∷ s) = c ∷ s

-- strings joined by colons
joined : List Bytes → Bytes
joined [] = []
joined (s ∷ []) = s
joined (s ∷ t ∷ ss) = s ++ b':' ∷ joined (t ∷ ss)

bucket_key : (Bytes → ℕ → Bytes) → Window → ℕ → Bytes
bucket_key format w t =
    if w ≟ window_minute
    then format (bytes "2006-01-02T15:04") t
    else if w ≟ window_day
    then format (bytes "2006-01-02") t
    else if w ≟ window_month
    then format (bytes "2006-01") t
    else []

unfoldable pub build_key : (Bytes → ℕ → Bytes) → DimensionKeys → Bytes → Window → ℕ → Bytes
unfolding joined sanitize_key_part bucket_key
build_key format d prefix w t = joined (
    bytes "limits"
    ∷ prefix
    ∷ sanitize_key_part d.team
    ∷ sanitize_key_part d.identity
    ∷ sanitize_key_part d.route
    ∷ sanitize_key_part d.model
    ∷ w
    ∷ bucket_key format w t
    ∷ [])

unfoldable pub rate_limit_key : DimensionKeys → Bytes
unfolding joined sanitize_key_part
rate_limit_key d = joined (
    bytes "limits:rps"
    ∷ sanitize_key_part d.team
    ∷ sanitize_key_part d.identity
    ∷ sanitize_key_part d.route
    ∷ [])

pub record BudgetRule : Type 0 where
  pub limits : List (Window × ℤ)

pub record RateLimitRule (F : Type 0) : Type 0 where
  pub rate : F
  pub burst : ℤ

pub data Reason : Type 0 where
  no_reason token_budget_exceeded : Reason
  local_quota : Window → ℤ → ℤ → ℤ → Reason
  rate_exceeded : ℤ → Reason

-- RetryAfter is in nanoseconds.
pub record ReservationResult : Type 0 where
  pub allowed : Bool
  pub reason : Reason
  pub window : Window
  pub limit : ℤ
  pub remaining : ℤ
  pub retry_after : ℤ

-- `err != nil || !res.Allowed`
abbrev pub refused : Option ReservationResult → Bool
refused none = true
refused (some r) = not r.allowed

pub record Reservation : Type 0 where
  pub id : Bytes
  pub keys : DimensionKeys
  pub reserved_tokens : ℤ
  pub windows : List Window
  pub created_at : ℕ

pub record RateLimitError : Type 0 where
  pub error_message : Bytes
  pub code : Bytes
  pub reason : Reason
  pub window : Bytes
  pub retry_after : ℤ
  pub limit : ℤ
  pub remaining : ℤ

-- int(d.Seconds()): toward zero
unfoldable pub whole_seconds : ℤ → ℤ
whole_seconds (pos n) = pos (n / second)
whole_seconds (negsuc n) = sub_ℕ 0 (suc n / second)
