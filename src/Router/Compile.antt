-- ===== src/Router/Compile.antt =====
-- Compile (internal/router/router.go): the tables of a router, from the routes of a snapshot in their
-- order. Maps of regular expressions are built in the order of the rule's map.
pub mod Tables
use torana_enterprise.Prelude.{
  ℕ, suc, ◌+◌, Bool, true, false, List, [], ◌∷◌, ◌++◌, Option, none, some, ◌||◌, not, map,
  if◌then◌else◌,
}
use torana_enterprise.Prelude.Int.{ℤ, pos, wrap64, ◌+ℤ◌}
use torana_enterprise.Prelude.Maps.{◌≟◌, lookup, insert}
use torana_enterprise.Prelude.Bytes.{Bytes, bytes, bytes_key, has_prefix, contains_byte}
use torana_enterprise.Config.Types.{
  Regex, RouteRule, UpstreamCluster, WeightedUpstream, RetryPolicy, Snapshot,
}
use torana_enterprise.Router.Types.{WeightedTarget, CompiledRoute, PathNode, Router}
use torana_enterprise.Router.Hosts.{normalize_method}

default_cluster : Bytes → UpstreamCluster
default_cluster id = record {
  id = id;
  protocol = bytes "http";
  endpoints = [];
  timeout = pos 0;
  max_conns = pos 0;
  secret_refs = [];
}

cluster_of : List (Bytes × UpstreamCluster) → Bytes → UpstreamCluster
unfolding default_cluster
cluster_of upstreams id = elim (lookup id upstreams) [ some u ↦ u | none ↦ default_cluster id ]

named_upstream : List (Bytes × UpstreamCluster) → Bytes → Option UpstreamCluster
unfolding cluster_of
named_upstream upstreams [] = none
named_upstream upstreams (c ∷ id) = some (cluster_of upstreams (c ∷ id))

weighted_pool : List (Bytes × UpstreamCluster) → List WeightedUpstream → List WeightedTarget
unfolding cluster_of
weighted_pool upstreams [] = []
weighted_pool upstreams (wu ∷ wus) =
    record { upstream = cluster_of upstreams wu.upstream_id; weight = wu.weight }
    ∷ weighted_pool upstreams wus

sum_weights : ℤ → List WeightedTarget → ℤ
sum_weights acc [] = acc
sum_weights acc (t ∷ ts) = sum_weights (wrap64 (acc +ℤ t.weight)) ts

-- the upstream of a route that names none is the first of its pool
first_upstream : Option UpstreamCluster → List WeightedTarget → Option UpstreamCluster
first_upstream (some u) pool = some u
first_upstream none [] = none
first_upstream none (t ∷ ts) = some t.upstream

-- the retry budgets are numbered as the routes that have one
budget_index : ℕ → Option RetryPolicy → Option ℕ
budget_index n none = none
budget_index n (some p) = some n

next_index : ℕ → Option RetryPolicy → ℕ
next_index n none = n
next_index n (some p) = suc n

append_at :
    Bytes → CompiledRoute → List (Bytes × List CompiledRoute) → List (Bytes × List CompiledRoute)
append_at path cr m = elim (lookup path m) [
  | some crs ↦ insert path (crs ++ cr ∷ []) m
  | none ↦ insert path (cr ∷ []) m
]

pub add_exact_route :
    Bytes
    → Bytes
    → CompiledRoute
    → List (Bytes × List (Bytes × List CompiledRoute))
    → List (Bytes × List (Bytes × List CompiledRoute))
unfolding append_at
add_exact_route method path cr table = elim (lookup method table) [
  | some m ↦ insert method (append_at path cr m) table
  | none ↦ insert method (append_at path cr []) table
]

unfoldable pub add_prefix_route : Bytes → CompiledRoute → List PathNode → List PathNode
add_prefix_route prefix cr [] = record { prefix = prefix; routes = cr ∷ [] } ∷ []
add_prefix_route prefix cr (n ∷ ns) =
    if n.prefix ≟ prefix
    then record n { routes = n.routes ++ cr ∷ [] } ∷ ns
    else n ∷ add_prefix_route prefix cr ns

-- the regex table, and then the exact or the prefix table
add_regex : CompiledRoute → Router → Router
add_regex cr t = elim cr.path_regex [
  | some re ↦ record t { regex_routes = t.regex_routes ++ cr ∷ [] }
  | none ↦ t
]

exact_unless_regex : Option Regex → CompiledRoute → Router → Router
exact_unless_regex (some re) cr t = t
exact_unless_regex none cr t = record t {
  method_path_lookup =
      add_exact_route (normalize_method cr.rule.method) cr.rule.path cr t.method_path_lookup;
}

add_path : CompiledRoute → Router → Router
unfolding exact_unless_regex
add_path cr t =
    if cr.rule.path_prefix
    then record t { prefix_children = add_prefix_route cr.rule.path cr t.prefix_children }
    else exact_unless_regex cr.path_regex cr t

module _ (compile : Bytes → Option Regex) where
  anchored : Bytes → Option Regex
  anchored s = if has_prefix s (bytes "^") then compile s else none

  path_regex : Bytes → Option Regex
  path_regex p = if has_prefix p (bytes "^") || contains_byte b'(' p then compile p else none

  regexes : List (Bytes × Bytes) → List (Bytes × Regex)
  unfolding anchored
  regexes [] = []
  regexes ((k, v) ∷ m) =
      let rest = regexes m in elim (anchored v) [ some re ↦ (k, re) ∷ rest | none ↦ rest ]

  unfoldable pub compile_route : List (Bytes × UpstreamCluster) → ℕ → RouteRule → CompiledRoute
  unfolding anchored path_regex regexes named_upstream weighted_pool sum_weights first_upstream
      budget_index
  compile_route upstreams budget r =
      let pool = weighted_pool upstreams r.weighted_upstreams in
      record {
        rule = r;
        upstream = first_upstream (named_upstream upstreams r.upstream_id) pool;
        weighted_pool = pool;
        total_weight = sum_weights (pos 0) pool;
        host_regex = anchored r.host;
        path_regex = path_regex r.path;
        header_regexes = regexes r.headers;
        claim_regexes = regexes r.claims;
        retry_budget = budget_index budget r.retry_policy;
      }

  add_routes : ℕ → List RouteRule → Router → Router
  unfolding add_regex add_path next_index
  add_routes budget [] t = t
  add_routes budget (r ∷ rs) t =
      let cr = compile_route t.upstreams budget r in
      add_routes (next_index budget r.retry_policy) rs (add_path cr (add_regex cr t))

  unfoldable pub compile_router : Snapshot → Router
  unfolding add_routes
  compile_router s = add_routes 0 s.routes (record {
    method_path_lookup = [];
    prefix_children = [];
    regex_routes = [];
    upstreams = s.upstreams;
  })
