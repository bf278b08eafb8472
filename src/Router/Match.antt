-- ===== src/Router/Match.antt =====
-- Match (internal/router/router.go). The weighted split reads a counter that every such match adds
-- one to, modulo 2^64; RecordRequest adds one to the requests of the route's retry budget.
pub mod Sound
pub mod Split
pub mod Prefixes
use torana_enterprise.Prelude.{
  ℕ, suc, ◌+◌, ◌/◌, ◌%◌, ◌^◌, Bool, true, false, List, [], ◌∷◌, ◌++◌, Option, none, some, ◌||◌,
  ◌&&◌, not, ltb, length, if◌then◌else◌,
}
use torana_enterprise.Prelude.Int.{ℤ, pos, negsuc, pos_part, sub_ℕ, wrap64, ◌+ℤ◌, ltb_ℤ}
use torana_enterprise.Prelude.Maps.{◌≟◌, nat_key, lookup}
use torana_enterprise.Prelude.Bytes.{Bytes, bytes, bytes_key, has_prefix, to_lower}
use torana_enterprise.Config.Types.{Regex, RouteRule, UpstreamCluster}
use torana_enterprise.Pipeline.Types.{header_get}
use torana_enterprise.Router.Types.{
  MatchCriteria, WeightedTarget, CompiledRoute, PathNode, Router, MatchResult,
}
use torana_enterprise.Router.Hosts.{match_host, normalize_method, equal_fold}

-- what a value is held to: the expression compiled for its key, or else the value of the rule
value_ok : Option Regex → Bytes → Bytes → Bool
value_ok (some re) expected actual = re actual
value_ok none expected actual = actual ≟ expected

host_ok : CompiledRoute → Bytes → Bool
host_ok cr host =
    if cr.rule.host ≟ [] || cr.rule.host ≟ bytes "*"
    then true
    else elim cr.host_regex [ some re ↦ re host | none ↦ match_host cr.rule.host host ]

method_ok : CompiledRoute → Bytes → Bool
method_ok cr method =
    cr.rule.method ≟ [] || cr.rule.method ≟ bytes "*" || equal_fold cr.rule.method method

present : Bytes → Option Bytes
present [] = none
present (c ∷ s) = some (c ∷ s)

or_else : Option Bytes → Option Bytes → Option Bytes
or_else (some v) o = some v
or_else none o = o

-- the value of a header of the request, of http.Header where the criteria have one
header_value : MatchCriteria → Bytes → Option Bytes
unfolding present or_else
header_value c k = elim c.header [
  | some h ↦ or_else (present (header_get k h)) (present (header_get (to_lower k) h))
  | none ↦ elim c.headers [ some m ↦ or_else (lookup k m) (lookup (to_lower k) m) | none ↦ none ]
]

claim_value : MatchCriteria → Bytes → Option Bytes
claim_value c k = elim c.claims [ some m ↦ lookup k m | none ↦ none ]

value_present : Option Regex → Bytes → Option Bytes → Bool
unfolding value_ok
value_present re expected none = false
value_present re expected (some actual) = value_ok re expected actual

-- the loop over the rule's headers, or its claims
unfoldable pub all_ok : (Bytes → Option Bytes) → List (Bytes × Regex) → List (Bytes × Bytes) → Bool
unfolding value_present
all_ok value regexes [] = true
all_ok value regexes ((k, expected) ∷ m) =
    value_present (lookup k regexes) expected (value k) && all_ok value regexes m

unfoldable pub matches_criteria : CompiledRoute → MatchCriteria → Bool
unfolding host_ok method_ok header_value claim_value
matches_criteria cr c =
    host_ok cr c.host
    && method_ok cr c.method
    && all_ok (header_value c) cr.header_regexes cr.rule.headers
    && all_ok (claim_value c) cr.claim_regexes cr.rule.claims

-- the first route of a list that matches
unfoldable pub first_match : MatchCriteria → List CompiledRoute → Option CompiledRoute
first_match c [] = none
first_match c (cr ∷ crs) =
    let rest = first_match c crs in if matches_criteria cr c then some cr else rest

-- the exact table under one method
unfoldable pub match_exact :
    MatchCriteria → Bytes → List (Bytes × List (Bytes × List CompiledRoute)) → Option CompiledRoute
match_exact c method table = elim (lookup method table) [
  | none ↦ none
  | some m ↦ elim (lookup c.path m) [ none ↦ none | some crs ↦ first_match c crs ]
]

longer : PathNode → Option PathNode → Bool
longer n none = true
longer n (some b) = ltb (length b.prefix) (length n.prefix)

-- bestNode and longest, which starts below every length
unfoldable pub best_node : Bytes → Option PathNode → List PathNode → Option PathNode
unfolding longer
best_node path best [] = best
best_node path best (n ∷ ns) =
    best_node path (if has_prefix path n.prefix && longer n best then some n else best) ns

unfoldable pub match_prefix : MatchCriteria → List PathNode → Option CompiledRoute
match_prefix c nodes = elim (best_node c.path none nodes) [
  | none ↦ none
  | some n ↦ first_match c n.routes
]

regex_ok : CompiledRoute → Bytes → Bool
regex_ok cr path = elim cr.path_regex [ none ↦ false | some re ↦ re path ]

pub match_regex : MatchCriteria → List CompiledRoute → Option CompiledRoute
unfolding regex_ok
match_regex c [] = none
match_regex c (cr ∷ crs) =
    let rest = match_regex c crs in
    if regex_ok cr c.path && matches_criteria cr c then some cr else rest

first_some : Option CompiledRoute → Option CompiledRoute → Option CompiledRoute
first_some (some cr) o = some cr
first_some none o = o

-- the route that Match finds, or none for ErrNoRouteMatched
pub find_route : Router → MatchCriteria → Option CompiledRoute
unfolding first_some
find_route t c =
    let method = normalize_method c.method in
    first_some (match_exact c method t.method_path_lookup) (
      first_some
        (if method ≟ bytes "*" then none else match_exact c (bytes "*") t.method_path_lookup)
        (first_some (match_prefix c t.prefix_children) (match_regex c t.regex_routes)))

-- the loop over the pool: the first target at which `val` is below the running sum
pub pick : ℤ → ℤ → List WeightedTarget → Option UpstreamCluster
pick val acc [] = none
pick val acc (t ∷ ts) =
    let rest = pick val (wrap64 (acc +ℤ t.weight)) ts in
    if ltb_ℤ val (wrap64 (acc +ℤ t.weight)) then some t.upstream else rest

or_upstream : Option UpstreamCluster → Option UpstreamCluster → Option UpstreamCluster
or_upstream (some u) d = some u
or_upstream none d = d

-- the upstream of a match, and the counter afterwards
select_from : ℕ → ℤ → Option UpstreamCluster → List WeightedTarget → Option UpstreamCluster × ℕ
unfolding or_upstream
select_from counter total default [] = (default, counter)
select_from counter total default (t ∷ ts) =
    if ltb_ℤ (pos 0) total
    then (
      or_upstream (pick (pos ((counter + 1) % 2 ^ 64 % pos_part total)) (pos 0) (t ∷ ts)) default,
      (counter + 1) % 2 ^ 64,
    )
    else (default, counter)

pub select : ℕ → CompiledRoute → Option UpstreamCluster × ℕ
unfolding select_from
select counter cr = select_from counter cr.total_weight cr.upstream cr.weighted_pool

-- Duration.Milliseconds: toward zero
milliseconds : ℤ → ℤ
milliseconds (pos n) = pos (n / 1000000)
milliseconds (negsuc n) = sub_ℕ 0 (suc n / 1000000)

-- RecordRequest on the budget with this index; the requests are a uint64
record_request : Option ℕ → (ℕ → ℕ) → ℕ → ℕ
record_request none requests i = requests i
record_request (some b) requests i = if b ≟ i then (requests i + 1) % 2 ^ 64 else requests i

pub build_result : ℕ → CompiledRoute → MatchResult × ℕ
unfolding select milliseconds
build_result counter cr =
    let (upstream, counter') = select counter cr in
    (
      record {
        route = cr.rule;
        upstream = upstream;
        retry_policy = cr.rule.retry_policy;
        retry_budget = cr.retry_budget;
        total_timeout = milliseconds cr.rule.timeout;
      },
      counter',
    )

-- Match: the result, with the counter and the requests of the budgets afterwards
unfoldable pub match : Router → MatchCriteria → ℕ → (ℕ → ℕ) → Option MatchResult × ℕ × (ℕ → ℕ)
unfolding find_route build_result record_request
match t c counter requests = elim (find_route t c) [
  | none ↦ (none, counter, requests)
  | some cr ↦ (
    some (build_result counter cr).0,
    (build_result counter cr).1,
    record_request cr.retry_budget requests,
  )
]
