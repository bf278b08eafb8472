-- ===== src/Config/Compile.antt =====
-- Validate and CompileSnapshot (internal/config/config.go). `compile` stands for regexp.Compile: the
-- compiled expression, or the text of the error. A map of headers or claims is walked in the order of
-- its list, which decides between the errors of two of them.
pub mod Faithful
use torana_enterprise.Prelude.{
  ℕ, suc, ◌+◌, Bool, true, false, List, [], ◌∷◌, ◌++◌, map, Option, none, some, ◌||◌, ◌&&◌, ◌==◌,
  if◌then◌else◌,
}
use torana_enterprise.Prelude.Results.{Result, ok, err, ◌>>=◌, ◌>>◌}
use torana_enterprise.Prelude.Decimal.{format_ℕ}
use torana_enterprise.Prelude.Maps.{◌≟◌, insert}
use torana_enterprise.Prelude.Bytes.{Bytes, bytes, bytes_key, has_prefix, contains_byte}
use torana_enterprise.Config.Types.{
  Regex, RouteRule, UpstreamCluster, Snapshot, WeightedUpstream, CompileError, RouteFilterChain,
  ConfigRoute,
}
use torana_enterprise.Config.Trie.{TrieNode, new_route_trie, insert_route, with_segments}

pub record CompiledConfig : Type 0 where
  pub snapshot : Snapshot
  pub route_trie : TrieNode
  pub compiled_routes : List ConfigRoute
  pub route_map : List (Bytes × ConfigRoute)
  pub regexes : List (Bytes × Regex)
  pub filter_chains : List (Bytes × RouteFilterChain)
  pub compiled_upstreams : List (Bytes × UpstreamCluster)

plain_error : Bytes → Bytes → CompileError
plain_error code message = record { code = code; error_message = message; details = [] }

unfoldable pub nil_snapshot : CompileError
unfolding plain_error
nil_snapshot = plain_error (bytes "ERR_NIL_SNAPSHOT") (bytes "snapshot cannot be nil")

no_targets : List WeightedUpstream → Bool
no_targets [] = true
no_targets (w ∷ ws) = false

-- the loop of Validate, from the route with index `i`
validate_routes : ℕ → List RouteRule → Result CompileError (Unit {0})
unfolding plain_error no_targets
validate_routes i [] = ok tt
validate_routes i (r ∷ rs) =
    let rest = validate_routes (suc i) rs in
    if r.path ≟ []
    then err (
        plain_error (bytes "ERR_EMPTY_PATH") (
          bytes "route index " ++ format_ℕ i ++ bytes " (id: " ++ r.id ++ bytes ") has empty path"))
    else if r.upstream_id ≟ [] && no_targets r.weighted_upstreams
    then err (
        plain_error (bytes "ERR_NO_UPSTREAM") (
          bytes "route "
          ++ r.id
          ++ bytes " must have either upstream_id or weighted_upstreams defined"))
    else rest

-- Validate of a snapshot that is not nil
unfoldable pub validate : Snapshot → Result CompileError (Unit {0})
unfolding validate_routes plain_error
validate s =
    if s.version == 0
    then err
        (plain_error (bytes "ERR_INVALID_VERSION") (bytes "config_version must be greater than 0"))
    else validate_routes 0 s.routes

module _ (compile : Bytes → Result Bytes Regex) where
  regex_error : Bytes → Bytes → Result Bytes Regex → Result CompileError Regex
  regex_error code message (ok re) = ok re
  regex_error code message (err text) =
      err (record { code = code; error_message = message; details = text })

  optional : Bool → Result CompileError Regex → Result CompileError (Option Regex)
  optional true r = do re ← r; ok (some re)
  optional false r = ok none

  path_regex : RouteRule → Result CompileError (Option Regex)
  unfolding regex_error optional
  path_regex r = optional (has_prefix r.path (bytes "^") || contains_byte b'(' r.path) (
      regex_error (bytes "ERR_INVALID_PATH_REGEX")
        (bytes "invalid path regex for route " ++ r.id ++ bytes ": " ++ r.path) (compile r.path))

  host_regex : RouteRule → Result CompileError (Option Regex)
  unfolding regex_error optional
  host_regex r = optional (has_prefix r.host (bytes "^")) (
      regex_error (bytes "ERR_INVALID_HOST_REGEX")
        (bytes "invalid host regex for route " ++ r.id ++ bytes ": " ++ r.host) (compile r.host))

  add_matcher : Bytes → Option Regex → List (Bytes × Regex) → List (Bytes × Regex)
  add_matcher k none m = m
  add_matcher k (some re) m = (k, re) ∷ m

  -- the loop over the headers or the claims, `kind` being the word for them
  matchers :
      Bytes → Bytes → Bytes → List (Bytes × Bytes) → Result CompileError (List (Bytes × Regex))
  unfolding regex_error optional add_matcher
  matchers code kind id [] = ok []
  matchers code kind id ((k, v) ∷ m) = do
    re ← optional (has_prefix v (bytes "^")) (
        regex_error code
          (bytes "invalid "
            ++ kind
            ++ bytes " regex for route "
            ++ id
            ++ bytes ", "
            ++ kind
            ++ bytes " "
            ++ k
            ++ bytes ": "
            ++ v)
          (compile v))
    rest ← matchers code kind id m
    ok (add_matcher k re rest)

  -- one turn of the loop over the routes, up to the insertions
  unfoldable pub compile_rule : RouteRule → Result CompileError ConfigRoute
  unfolding path_regex host_regex matchers
  compile_rule r = do
    path ← path_regex r
    host ← host_regex r
    headers ← matchers (bytes "ERR_INVALID_HEADER_REGEX") (bytes "header") r.id r.headers
    claims ← matchers (bytes "ERR_INVALID_CLAIM_REGEX") (bytes "claim") r.id r.claims
    ok (record {
      rule = r;
      path_segments = [];
      path_regex = path;
      host_regex = host;
      header_regexes = headers;
      claim_regexes = claims;
      filter_chain = some (record { route_id = r.id; chain_policies = r.policies });
    })

  register : Bytes → Option Regex → List (Bytes × Regex) → List (Bytes × Regex)
  register key none m = m
  register key (some re) m = insert key re m

  register_all : Bytes → List (Bytes × Regex) → List (Bytes × Regex) → List (Bytes × Regex)
  register_all prefix [] m = m
  register_all prefix ((k, re) ∷ res) m = register_all prefix res (insert (prefix ++ b':' ∷ k) re m)

  add_regexes : ConfigRoute → List (Bytes × Regex) → List (Bytes × Regex)
  unfolding register register_all
  add_regexes cr m = register_all (bytes "claim:" ++ cr.rule.id) cr.claim_regexes (
      register_all (bytes "header:" ++ cr.rule.id) cr.header_regexes (
        register (bytes "host:" ++ cr.rule.id) cr.host_regex
          (register (bytes "path:" ++ cr.rule.id) cr.path_regex m)))

  -- the insertions; the trie sets the segments of the route that the other tables share
  unfoldable pub add_route : ConfigRoute → CompiledConfig → CompiledConfig
  unfolding add_regexes
  add_route cr c = record c {
    route_trie = insert_route cr c.route_trie;
    compiled_routes = c.compiled_routes ++ with_segments cr ∷ [];
    route_map = insert cr.rule.id (with_segments cr) c.route_map;
    regexes = add_regexes cr c.regexes;
    filter_chains =
        insert cr.rule.id (record { route_id = cr.rule.id; chain_policies = cr.rule.policies })
          c.filter_chains;
  }

  unfoldable pub compile_rules :
      List RouteRule → CompiledConfig → Result CompileError CompiledConfig
  compile_rules [] c = ok c
  compile_rules (r ∷ rs) c = do cr ← compile_rule r; compile_rules rs (add_route cr c)

  unfoldable pub empty_config : Snapshot → CompiledConfig
  empty_config s = record {
    snapshot = s;
    route_trie = new_route_trie;
    compiled_routes = [];
    route_map = [];
    regexes = [];
    filter_chains = [];
    compiled_upstreams = s.upstreams;
  }

  unfoldable pub compile_snapshot : Option Snapshot → Result CompileError CompiledConfig
  compile_snapshot none = err nil_snapshot
  compile_snapshot (some s) = do validate s; compile_rules s.routes (empty_config s)
