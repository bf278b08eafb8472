-- ===== src/Limits/Filter.antt =====
-- PreCheckFilter and ReconciliationFilter (internal/limits/filter.go), as filters of the pipeline over the
-- limiter. `now` and `id` are what the clock and the random source give; `text_of` is the text of a
-- reason and `to_json` ToJSON of an error.
pub mod Unreported
use torana_enterprise.Prelude.{
  ℕ, Bool, true, false, List, [], ◌∷◌, ◌++◌, Option, none, some, ◌⊎◌, inl, inr, ◌&&◌, if◌then◌else◌,
}
use torana_enterprise.Prelude.Int.{ℤ, pos, ltb_ℤ, leb_ℤ}
use torana_enterprise.Prelude.Maps.{◌≟◌, lookup, insert}
use torana_enterprise.Prelude.Bytes.{Bytes, bytes, bytes_key}
use torana_enterprise.Prelude.Decimal.{format_int, parse_int}
use torana_enterprise.Prelude.Float.{Float64}
use torana_enterprise.Prelude.Json.{Json}
use torana_enterprise.Authn.Identity.{Identity}
use torana_enterprise.Config.Types.{RouteRule}
use torana_enterprise.Pipeline.Types.{
  request_headers, response_headers, none_mode, fail_closed, fail_open, halt, Err, message,
  Decision, Envelope, continue_decision, header_set, header_get,
}
use torana_enterprise.Pipeline.Chain.{Filter}
use torana_enterprise.Limits.Types.{DimensionKeys, Reason, Reservation, RateLimitError}
use torana_enterprise.Limits.Store.{CounterStore}
use torana_enterprise.Limits.Limiter.{Limiter, pre_check, reconcile}
use torana_enterprise.Limits.Usage.{
  Payload, Entry, TokenUsage, estimate_tokens, parse_usage_from_body,
}

-- x, or y where x is empty
or_if_empty : Bytes → Bytes → Bytes
or_if_empty [] y = y
or_if_empty (c ∷ x) y = c ∷ x

route_of : Option RouteRule → Bytes → Bytes
unfolding or_if_empty
route_of none path = path
route_of (some r) path = or_if_empty r.id path

subject_of : Option Identity → Bytes
subject_of none = []
subject_of (some i) = i.subject

tenant_of : Option Identity → Bytes
tenant_of none = []
tenant_of (some i) = i.tenant

text_of_key : Option Bytes → Bytes
text_of_key none = []
text_of_key (some v) = v

unfoldable pub extract_dimensions : Envelope → DimensionKeys
unfolding or_if_empty route_of subject_of tenant_of text_of_key
extract_dimensions env = record {
  identity = or_if_empty env.peer_info.client_identity (subject_of env.identity);
  team = or_if_empty (tenant_of env.identity) (header_get (bytes "X-Team-ID") env.headers);
  route = route_of env.route env.path;
  model =
      or_if_empty (text_of_key (lookup (bytes "model") env.metadata))
        (header_get (bytes "X-Model-ID") env.headers);
}

-- NewPreCheckFilter: the default number of tokens
unfoldable pub default_max : ℤ → ℤ
default_max n = if leb_ℤ n (pos 0) then pos 1000 else n

positive : Option ℤ → Option ℤ
positive none = none
positive (some n) = if ltb_ℤ (pos 0) n then some n else none

module _ (fl : Float64) (read_request : Bytes → Option Payload)
    (write_messages : List Json → Bytes) where
  estimate_body : ℤ → Option Bytes → ℤ
  estimate_body default none = default
  estimate_body default (some []) = default
  estimate_body default (some (c ∷ body)) =
      estimate_tokens fl read_request write_messages (c ∷ body) default

  hinted : Option ℤ → ℤ → ℤ
  hinted (some n) other = n
  hinted none other = other

  unfoldable pub estimate : ℤ → Envelope → ℤ
  unfolding estimate_body hinted positive
  estimate default env =
      hinted (positive (parse_int (header_get (bytes "X-Estimated-Tokens") env.headers)))
        (estimate_body default env.buffered_body)

module _ (fl : Float64) {S : Type 0} (cs : CounterStore fl.F S) (format : Bytes → ℕ → Bytes) where
  abbrev LimiterS : Type 0
  LimiterS = Limiter fl.F S

  module _ (text_of : Reason → Bytes) (to_json : RateLimitError → Bytes) where
    -- 429, with Retry-After set on the envelope and in the decision
    refuse : RateLimitError → Envelope → LimiterS → Decision × Option Err × Envelope × LimiterS
    refuse e env l =
        let retry_after = format_int e.retry_after in
        (
          record {
            action = halt;
            status_code = 429;
            reason = text_of e.reason;
            mutate_headers =
                (bytes "Retry-After", retry_after)
                ∷ (bytes "Content-Type", bytes "application/json")
                ∷ [];
            mutate_body = to_json e;
            mutate_metadata = [];
          },
          some (message (bytes "request rate limit exceeded: " ++ text_of e.reason)),
          record env { headers = header_set (bytes "Retry-After") retry_after env.headers },
          l,
        )

    attach : Reservation → Envelope → Envelope
    attach r env = record env {
      metadata =
          insert (bytes "limits.reserved_tokens") (format_int r.reserved_tokens)
            (insert (bytes "limits.reservation_id") r.id env.metadata);
    }

    granted : Reservation → Envelope → LimiterS → Decision × Option Err × Envelope × LimiterS
    unfolding attach
    granted r env l = (continue_decision, none, if r.id ≟ [] then env else attach r env, l)

    answered :
        Envelope
        → (Reservation ⊎ RateLimitError) × LimiterS
        → Decision × Option Err × Envelope × LimiterS
    unfolding granted refuse
    answered env (inl r, l) = granted r env l
    answered env (inr e, l) = refuse e env l

    module _ (read_request : Bytes → Option Payload) (write_messages : List Json → Bytes)
        (default : ℤ) where
      unfoldable pub pre_check_process :
          ℕ → Bytes → Envelope → LimiterS → Decision × Option Err × Envelope × LimiterS
      unfolding answered
      pre_check_process now id env l = answered env (
          pre_check fl cs format l (extract_dimensions env)
            (estimate fl read_request write_messages (default_max default) env) now id)

      unfoldable pub pre_check_filter : ℕ → Bytes → Filter LimiterS
      pre_check_filter now id = record {
        name = bytes "limits_precheck_filter";
        phase = request_headers;
        body_mode = none_mode;
        failure_policy = fail_closed;
        process = pre_check_process now id;
      }

  module _ (read_response : Bytes → Option (List (Bytes × Entry fl.F))) where
    -- the number in the first of two headers that is not empty, if it is one
    usage_header : Bytes → Bytes → Option ℤ
    usage_header [] other = parse_int other
    usage_header (c ∷ s) other = parse_int (c ∷ s)

    total_of : Option TokenUsage → Option ℤ
    total_of none = none
    total_of (some u) = some u.total_tokens

    usage_body : Option Bytes → Option ℤ
    unfolding total_of
    usage_body none = none
    usage_body (some body) = total_of (parse_usage_from_body fl read_response body)

    first_of : Option ℤ → Option ℤ → Option ℤ
    first_of (some n) other = some n
    first_of none other = other

    -- what a response says of its tokens
    unfoldable pub reported : Envelope → Option ℤ
    unfolding usage_header usage_body first_of
    reported env =
        first_of
          (usage_header (header_get (bytes "x-total-tokens") env.headers)
            (header_get (bytes "openai-processing-tokens") env.headers))
          (usage_body env.buffered_body)

    reserved_number : Option Bytes → Option ℤ
    reserved_number none = none
    reserved_number (some s) = parse_int s

    or_zero : Option ℤ → ℤ
    or_zero none = pos 0
    or_zero (some n) = n

    unfoldable pub actual_tokens : Envelope → ℤ
    unfolding first_of reserved_number or_zero
    actual_tokens env = or_zero (
        first_of (reported env)
          (reserved_number (lookup (bytes "limits.reserved_tokens") env.metadata)))

    settled : ℕ → Envelope → LimiterS → Option Bytes → LimiterS
    settled now env l none = l
    settled now env l (some []) = l
    settled now env l (some (c ∷ id)) =
        (reconcile fl cs format l (c ∷ id) (actual_tokens env) now).1

    unfoldable pub reconcile_process :
        ℕ → Envelope → LimiterS → Decision × Option Err × Envelope × LimiterS
    unfolding settled
    reconcile_process now env l = (
      continue_decision,
      none,
      env,
      settled now env l (lookup (bytes "limits.reservation_id") env.metadata),
    )

    unfoldable pub reconciliation_filter : ℕ → Filter LimiterS
    reconciliation_filter now = record {
      name = bytes "limits_reconciliation_filter";
      phase = response_headers;
      body_mode = none_mode;
      failure_policy = fail_open;
      process = reconcile_process now;
    }
