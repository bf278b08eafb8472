-- ===== src/Router/Types.antt =====
-- The data of the router (internal/router/router.go). A compiled regular expression is the test that
-- it makes; `compile` of the modules below stands for regexp.Compile. A route's retry budget, a shared
-- pointer in the source, is its place in the router's list of budgets. The segment trie that Compile
-- fills and Match never reads is left out.
use torana_enterprise.Prelude.{ℕ, List, Option}
use torana_enterprise.Prelude.Int.{ℤ}
use torana_enterprise.Prelude.Bytes.{Bytes}
use torana_enterprise.Config.Types.{Regex, RouteRule, UpstreamCluster, RetryPolicy}

pub record MatchCriteria : Type 0 where
  pub host : Bytes
  pub method : Bytes
  pub path : Bytes
  pub headers : Option (List (Bytes × Bytes))
  pub header : Option (List (Bytes × List Bytes))
  pub claims : Option (List (Bytes × Bytes))

pub record WeightedTarget : Type 0 where
  pub upstream : UpstreamCluster
  pub weight : ℤ

pub record CompiledRoute : Type 0 where
  pub rule : RouteRule
  pub upstream : Option UpstreamCluster
  pub weighted_pool : List WeightedTarget
  pub total_weight : ℤ
  pub host_regex : Option Regex
  pub path_regex : Option Regex
  pub header_regexes : List (Bytes × Regex)
  pub claim_regexes : List (Bytes × Regex)
  pub retry_budget : Option ℕ

pub record PathNode : Type 0 where
  pub prefix : Bytes
  pub routes : List CompiledRoute

pub record Router : Type 0 where
  pub method_path_lookup : List (Bytes × List (Bytes × List CompiledRoute))
  pub prefix_children : List PathNode
  pub regex_routes : List CompiledRoute
  pub upstreams : List (Bytes × UpstreamCluster)

pub record MatchResult : Type 0 where
  pub route : RouteRule
  pub upstream : Option UpstreamCluster
  pub retry_policy : Option RetryPolicy
  pub retry_budget : Option ℕ
  pub total_timeout : ℤ
