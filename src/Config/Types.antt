-- ===== src/Config/Types.antt =====
-- The data of a configuration snapshot (internal/config/config.go). Durations are nanoseconds; a nil
-- and an empty map or slice are not told apart, since the code only ranges over them.
use torana_enterprise.Prelude.{ℕ, Bool, List, Option}
use torana_enterprise.Prelude.Int.{ℤ}
use torana_enterprise.Prelude.Bytes.{Bytes}

-- A compiled regular expression is the test that it makes.
abbrev pub Regex : Type 0
Regex = Bytes → Bool

pub record SecretRef : Type 0 where
  pub name : Bytes
  pub provider : Bytes
  pub key : Bytes

pub record PolicyRule : Type 0 where
  pub id : Bytes
  pub name : Bytes
  pub kind : Bytes
  pub cel_expression : Bytes
  pub action : Bytes
  pub parameters : List (Bytes × Bytes)

pub record WeightedUpstream : Type 0 where
  pub upstream_id : Bytes
  pub weight : ℤ

pub record RetryPolicy : Type 0 where
  pub max_retries : ℤ
  pub retry_on_status_codes : List ℤ
  pub per_try_timeout : ℤ
  pub backoff : ℤ

pub record UpstreamCluster : Type 0 where
  pub id : Bytes
  pub protocol : Bytes
  pub endpoints : List Bytes
  pub timeout : ℤ
  pub max_conns : ℤ
  pub secret_refs : List SecretRef

pub record RouteRule : Type 0 where
  pub id : Bytes
  pub host : Bytes
  pub path : Bytes
  pub path_prefix : Bool
  pub method : Bytes
  pub headers : List (Bytes × Bytes)
  pub claims : List (Bytes × Bytes)
  pub upstream_id : Bytes
  pub weighted_upstreams : List WeightedUpstream
  pub retry_policy : Option RetryPolicy
  pub policies : List PolicyRule
  pub timeout : ℤ

pub record Snapshot : Type 0 where
  pub version : ℕ
  pub signature : Bytes
  pub timestamp : ℕ
  pub routes : List RouteRule
  pub upstreams : List (Bytes × UpstreamCluster)

pub record CompileError : Type 0 where
  pub code : Bytes
  pub error_message : Bytes
  pub details : Bytes

pub record RouteFilterChain : Type 0 where
  pub route_id : Bytes
  pub chain_policies : List PolicyRule

-- CompiledRoute, which the router has a type of its own for
pub record ConfigRoute : Type 0 where
  pub rule : RouteRule
  pub path_segments : List Bytes
  pub path_regex : Option Regex
  pub host_regex : Option Regex
  pub header_regexes : List (Bytes × Regex)
  pub claim_regexes : List (Bytes × Regex)
  pub filter_chain : Option RouteFilterChain
