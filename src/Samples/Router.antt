-- ===== src/Samples/Router.antt =====
-- The router at concrete inputs.
use torana_enterprise.Prelude.{
  ◌≡◌, refl, Bool, true, false, List, [], ◌∷◌, Option, none, some, All, Any, arith,
}
use torana_enterprise.Prelude.Int.{pos}
use torana_enterprise.Prelude.Maps.{◌≟◌, lookup}
use torana_enterprise.Prelude.Bytes.{Bytes, bytes, bytes_key, bytes_eq, has_prefix, contains_byte}
use torana_enterprise.Prelude.Counting.{count}
use torana_enterprise.Config.Types.{Regex, RouteRule, UpstreamCluster, Snapshot}
use torana_enterprise.Router.Types.{MatchCriteria, CompiledRoute, PathNode, MatchResult}
use torana_enterprise.Router.Compile.{add_prefix_route, compile_route, compile_router}
use torana_enterprise.Router.Match.{
  all_ok, matches_criteria, first_match, match_exact, best_node, match_prefix, select, match,
}
use torana_enterprise.Router.Hosts.{normalize_method}
use torana_enterprise.Router.Match.Sound.{Fits, match-Fits}
use torana_enterprise.Router.Match.Split.{weights, weight_of, counter_after, select-count}
use torana_enterprise.Router.Match.Prefixes.{IsCovered, match_prefix_longest}

abbrev cluster : Bytes → UpstreamCluster
cluster id = record {
  id = id;
  protocol = bytes "http";
  endpoints = [];
  timeout = pos 0;
  max_conns = pos 0;
  secret_refs = [];
}

abbrev rule : RouteRule
rule = record {
  id = bytes "r1";
  host = [];
  path = bytes "/v1";
  path_prefix = true;
  method = [];
  headers = [];
  claims = [];
  upstream_id = bytes "u";
  weighted_upstreams = [];
  retry_policy = none;
  policies = [];
  timeout = pos 0;
}

abbrev snapshot : Snapshot
snapshot = record {
  version = 1;
  signature = [];
  timestamp = 0;
  routes = rule ∷ [];
  upstreams = (bytes "u", cluster (bytes "u")) ∷ [];
}

abbrev no_regex : Bytes → Option Regex
no_regex s = none

abbrev criteria : MatchCriteria
criteria = record {
  host = bytes "example.org";
  method = bytes "GET";
  path = bytes "/v1/models";
  headers = none;
  header = none;
  claims = none;
}

abbrev route : CompiledRoute
route = record {
  rule = rule;
  upstream = none;
  weighted_pool =
      record { upstream = cluster (bytes "a"); weight = pos 2 }
      ∷ record { upstream = cluster (bytes "b"); weight = pos 1 }
      ∷ [];
  total_weight = pos 3;
  host_regex = none;
  path_regex = none;
  header_regexes = [];
  claim_regexes = [];
  retry_budget = none;
}

abbrev nodes : List PathNode
nodes =
    record { prefix = bytes "/"; routes = [] }
    ∷ record { prefix = bytes "/v1"; routes = route ∷ [] }
    ∷ []

abbrev is_a : Option UpstreamCluster → Bool
is_a none = false
is_a (some u) = u.id ≟ bytes "a"

select-count_example :
    count (weights route.weighted_pool) (λ i. is_a (select (counter_after 7 route i) route).0)
    ≡ weight_of is_a route.weighted_pool
select-count_example =
    select-count is_a 7 route (refl, (refl, tt)) (unfold weights in refl)
      (unfold weights in omega arith) (unfold weights in omega arith)
      (unfold weights in omega arith)

abbrev result : MatchResult
result = record {
  route = rule;
  upstream = some (cluster (bytes "u"));
  retry_policy = none;
  retry_budget = none;
  total_timeout = pos 0;
}

found : (match (compile_router no_regex snapshot) criteria 0 (λ i. 0)).0 ≡ some result
unfolding add_prefix_route compile_route compile_router all_ok matches_criteria first_match
    match_exact best_node match_prefix match lookup bytes_eq has_prefix contains_byte
    normalize_method
found = refl

match-Fits_example :
    (cr : CompiledRoute) × (result.route ≡ cr.rule) × Fits no_regex snapshot cr criteria
match-Fits_example = match-Fits no_regex snapshot criteria 0 (λ i. 0) result found

matched_route : match_prefix criteria nodes ≡ some route
unfolding all_ok matches_criteria first_match best_node match_prefix bytes_eq has_prefix
matched_route = refl

match_prefix_longest_example :
    (b : PathNode) × Any (λ n. n ≡ b) nodes
    × (has_prefix criteria.path b.prefix ≡ true)
    × (first_match criteria b.routes ≡ some route)
    × All (IsCovered criteria.path (some b)) nodes
match_prefix_longest_example = match_prefix_longest criteria nodes route matched_route
