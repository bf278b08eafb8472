-- ===== src/Samples/Usage.antt =====
-- The limit filters at a concrete request.
use torana_enterprise.Prelude.{
  ◌≡◌, refl, sym, subst, [], ◌∷◌, none, some, inl, inr, Option, List, Bool-cases, arith,
}
use torana_enterprise.Prelude.Int.{ℤ, pos, wrap64, ◌-ℤ◌, ◌+ℤ◌}
use torana_enterprise.Prelude.Maps.{◌≟◌, ≟_refl, lookup, insert}
use torana_enterprise.Prelude.Bytes.{Bytes, bytes, bytes_key, bytes_eq, contains_byte}
use torana_enterprise.Prelude.Decimal.{parse_int}
use torana_enterprise.Prelude.Json.{Json}
use torana_enterprise.Pipeline.Types.{Decision, Err, Envelope, header_get, canonical}
use torana_enterprise.Limits.Types.{
  window_minute, Reason, Reservation, RateLimitError, build_key, rate_limit_key,
}
use torana_enterprise.Limits.Store.{
  LocalCounterStore, reserve, local_limit, reserve_counter, renew, counter_at, store_counter,
}
use torana_enterprise.Limits.Store.Quota.{IsGood, IsLive}
use torana_enterprise.Limits.Store.Local.{local_laws}
use torana_enterprise.Limits.Limiter as Limiter
use torana_enterprise.Limits.Limiter.Unchanged.{IsHeld}
use torana_enterprise.Limits.Usage.{Payload, Entry}
use torana_enterprise.Limits.Filter.{
  estimate, pre_check_process, reconcile_process, reported, extract_dimensions,
}
use torana_enterprise.Limits.Filter.Unreported.{IsSettled, checked, unreported_round_trip}
use torana_enterprise.Samples.Limits.{
  integers, local, laws, no_format, minute_key, used_store, budget, keys,
}
use torana_enterprise.Samples.Chains.{envelope}

abbrev limiter : Limiter.Limiter ℤ (LocalCounterStore ℤ)
limiter = record {
  store = used_store;
  default_budget = some budget;
  default_rate = none;
  budgets_by_key = [];
  rates_by_key = [];
  reservations = [];
  reservation_ttl = 300000000000;
}

-- asks for three tokens
abbrev request : Envelope
request = record envelope {
  path = [];
  headers =
      (bytes "X-Estimated-Tokens", bytes "3" ∷ []) ∷ (bytes "X-Team-Id", bytes "core" ∷ []) ∷ [];
  peer_info = record { remote_ip = []; protocol = []; client_identity = bytes "alice" };
}

abbrev no_text : Reason → Bytes
no_text r = []

abbrev no_json : RateLimitError → Bytes
no_json e = []

abbrev no_read : Bytes → Option Payload
no_read s = none

abbrev no_write : List Json → Bytes
no_write ms = []

abbrev no_response : Bytes → Option (List (Bytes × Entry ℤ))
no_response s = none

abbrev spent_store : LocalCounterStore ℤ
spent_store = record {
  counters = (minute_key, record { used = pos 8; expires_at = 1000 }) ∷ [];
  buckets = [];
  peer_count = pos 1;
}

abbrev noted : Reservation
noted = record {
  id = bytes "r";
  keys = keys;
  reserved_tokens = pos 3;
  windows = window_minute ∷ [];
  created_at = 100;
}

abbrev outcome : Decision × Option Err × Envelope × Limiter.Limiter ℤ (LocalCounterStore ℤ)
outcome =
    checked integers local no_format no_text no_json no_response 100 laws no_read no_write (pos 0)
      100 (bytes "r") request limiter

left_lem :
    (outcome.1 ≡ none)
    × (outcome.3.store ≡ spent_store)
    × (lookup (bytes "r") outcome.3.reservations ≡ some noted)
unfolding pre_check_process Limiter.pre_check Limiter.reserve_windows Limiter.resolve estimate
    extract_dimensions header_get canonical parse_int bytes_eq lookup insert reserve build_key
    rate_limit_key contains_byte reserve_counter wrap64 ◌-ℤ◌ local_limit renew counter_at
    Limiter.token_key store_counter ◌+ℤ◌
left_lem = (refl, refl, refl)

spent_store-IsGood : IsGood integers 100 spent_store
spent_store-IsGood = record {
  sane = λ k. elim (Bool-cases (minute_key ≟ k)) [
    | inl t ↦ unfold lookup in rw t (refl, omega arith)
    | inr t ↦ unfold lookup in rw t tt
  ];
}

spent_store-IsLive :
    IsLive integers 100 spent_store
      (Limiter.token_key integers local no_format keys window_minute 100)
unfolding IsLive lookup Limiter.token_key
spent_store-IsLive = rw (≟_refl minute_key) (omega arith)

spent_store-IsHeld :
    (s : LocalCounterStore ℤ) (r : Reservation)
    → s ≡ spent_store
    → noted ≡ r
    → IsHeld integers local no_format 100 laws s r
unfolding local_laws
spent_store-IsHeld s r e same =
    subst (λ x. IsHeld integers local no_format 100 laws s x) same
      (subst (λ x. IsHeld integers local no_format 100 laws x noted) (sym e)
        (spent_store-IsLive, tt))

-- the response, which says nothing of its tokens
abbrev response : Envelope
response = record envelope { metadata = outcome.2.metadata }

unreported_round_trip_example :
    IsSettled integers local no_format no_text no_json no_response 100 laws
      (bytes "r")
      outcome.3
      (reconcile_process integers local no_format no_response 100 response outcome.3).3
unfolding estimate extract_dimensions header_get canonical parse_int bytes_eq lookup contains_byte
    local_laws
unreported_round_trip_example =
    unreported_round_trip integers local no_format no_text no_json no_response 100 laws no_read
      no_write (pos 0) limiter request response 100 (bytes "r") (λ e. cc) refl (omega arith)
      left_lem.0 (subst (IsGood integers 100) (sym left_lem.1) spent_store-IsGood)
      (λ r e. spent_store-IsHeld outcome.3.store r left_lem.1 (cc (e, left_lem.2))) refl
      (unfold reported in refl)
