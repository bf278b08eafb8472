-- ===== src/Config/Compile/Faithful.antt =====
-- What a compiled configuration says of its snapshot (internal/config/config.go, CompileSnapshot).
use torana_enterprise.Prelude.{
  ℕ, suc, ◌≡◌, ◌≢◌, refl, sym, subst, ◌∙◌, ap, ◌⊎◌, inl, inr, false, List, [], ◌∷◌, ◌++◌, map, some,
  ◌&&◌, arith, All, Bool-cases, if◌then◌else◌,
}
use mathlib.Core.List.{append_assoc, append-nil, map-append}
use torana_enterprise.Prelude.Results.{Result, ok, >>=-ok}
use torana_enterprise.Prelude.Maps.{◌≟◌, ≟_iff}
use torana_enterprise.Prelude.Bytes.{Bytes, bytes_key, bytes_eq}
use torana_enterprise.Config.Types.{Regex, RouteRule, WeightedUpstream, Snapshot, ConfigRoute}
use torana_enterprise.Config.Trie.{with_segments}
use torana_enterprise.Config.Trie.Routes.{
  routes_at, same_pattern, routes_at-insert_route, routes_at-new_route_trie,
}
use torana_enterprise.Config.Compile.{
  CompiledConfig, no_targets, validate_routes, validate, compile_rule, add_route, compile_rules,
  empty_config, compile_snapshot,
}

-- the routes of a list that have a pattern, in its order
pub with_pattern : List Bytes → List ConfigRoute → List ConfigRoute
with_pattern ps [] = []
with_pattern ps (cr ∷ crs) =
    let rest = with_pattern ps crs in if same_pattern ps cr.path_segments then cr ∷ rest else rest

with_pattern-append :
    (ps : List Bytes) (as' bs : List ConfigRoute)
    → with_pattern ps (as' ++ bs) ≡ with_pattern ps as' ++ with_pattern ps bs
unfolding with_pattern
with_pattern-append ps [] bs = refl
with_pattern-append ps (a ∷ as') bs = elim (Bool-cases (same_pattern ps a.path_segments)) [
  | inl t ↦ rw t (ap (λ l. a ∷ l) (with_pattern-append ps as' bs))
  | inr t ↦ rw t (with_pattern-append ps as' bs)
]

abbrev rule_of : ConfigRoute → RouteRule
rule_of cr = cr.rule

-- The rule can be routed at all.
abbrev pub IsRoutable : RouteRule → Type 0
IsRoutable r = (r.path ≢ []) × ((r.upstream_id ≢ []) ⊎ (r.weighted_upstreams ≢ []))

-- The tables of a compiled configuration, and what its snapshot is.
pub record IsFaithful (s : Snapshot) (c : CompiledConfig) : Type 0 where
  pub same : c.snapshot ≡ s
  pub version : s.version ≢ 0
  pub routable : All IsRoutable s.routes
  pub rules : map rule_of c.compiled_routes ≡ s.routes
  pub trie : (ps : List Bytes) → routes_at ps c.route_trie ≡ with_pattern ps c.compiled_routes

-- the tests that a valid list of routes has passed
valid_rule :
    (i : ℕ) (r : RouteRule) (rs : List RouteRule)
    → validate_routes i (r ∷ rs) ≡ ok tt
    → ((r.path ≟ []) ≡ false)
      × ((r.upstream_id ≟ [] && no_targets r.weighted_upstreams) ≡ false)
      × (validate_routes (suc i) rs ≡ ok tt)
unfolding validate_routes
valid_rule i r rs h = ground arith

has_target :
    (u : Bytes) (ws : List WeightedUpstream)
    → (u ≟ [] && no_targets ws) ≡ false
    → (u ≢ []) ⊎ (ws ≢ [])
unfolding no_targets bytes_eq
has_target u (w ∷ ws) h = inr (λ e. cc)
has_target [] [] h = cc
has_target (c ∷ u) [] h = inl (λ e. cc)

valid_routes : (i : ℕ) (rs : List RouteRule) → validate_routes i rs ≡ ok tt → All IsRoutable rs
valid_routes i [] h = tt
valid_routes i (r ∷ rs) h =
    let (path, target, rest) = valid_rule i r rs h in
    (
      (λ e. cc ((≟_iff r.path []).1 e, path), has_target r.upstream_id r.weighted_upstreams target),
      valid_routes (suc i) rs rest,
    )

valid_snapshot :
    (s : Snapshot) (u : Unit {0})
    → validate s ≡ ok u
    → (s.version ≢ 0) × (validate_routes 0 s.routes ≡ ok tt)
unfolding validate
valid_snapshot s tt h = ground arith

module _ (compile : Bytes → Result Bytes Regex) where
  compile_rule-rule :
      (r : RouteRule) (cr : ConfigRoute) → compile_rule compile r ≡ ok cr → cr.rule ≡ r
  unfolding compile_rule
  compile_rule-rule r cr h = ground arith

  add_route-trie :
      (cr : ConfigRoute) (c : CompiledConfig) (ps : List Bytes)
      → routes_at ps c.route_trie ≡ with_pattern ps c.compiled_routes
      → routes_at ps (add_route compile cr c).route_trie
        ≡ with_pattern ps (add_route compile cr c).compiled_routes
  unfolding add_route
  add_route-trie cr c ps h =
      routes_at-insert_route ps cr c.route_trie
      ∙ rw (h, with_pattern-append ps c.compiled_routes (with_segments cr ∷ []))
          (unfold with_pattern with_segments in refl)

  add_route-rules :
      (cr : ConfigRoute) (r : RouteRule) (rs : List RouteRule) (c : CompiledConfig)
      → cr.rule ≡ r
      → map rule_of (add_route compile cr c).compiled_routes ++ rs
        ≡ map rule_of c.compiled_routes ++ r ∷ rs
  unfolding add_route with_segments
  add_route-rules cr r rs c e = simp (map-append, append_assoc, e)

  abbrev InStep : CompiledConfig → Type 0
  InStep c = (ps : List Bytes) → routes_at ps c.route_trie ≡ with_pattern ps c.compiled_routes

  compile_rules-lem :
      (rs : List RouteRule) (c c' : CompiledConfig)
      → compile_rules compile rs c ≡ ok c'
      → InStep c
      → (c'.snapshot ≡ c.snapshot)
        × (map rule_of c'.compiled_routes ≡ map rule_of c.compiled_routes ++ rs)
        × InStep c'
  unfolding compile_rules add_route
  compile_rules-lem [] c c' h t =
      let same : c ≡ c' = cc h in
      subst
        (λ d.
          (d.snapshot ≡ c.snapshot)
          × (map rule_of d.compiled_routes ≡ map rule_of c.compiled_routes ++ [])
          × InStep d)
        same (refl, sym (append-nil _), t)
  compile_rules-lem (r ∷ rs) c c' h t =
      let (cr, e, h') = >>=-ok (compile_rule compile r) _ h in
      let (same, rules, trie) =
        compile_rules-lem rs (add_route compile cr c) c' h' (λ ps. add_route-trie cr c ps (t ps)) in
      (same, rules ∙ add_route-rules cr r rs c (compile_rule-rule r cr e), trie)

  -- A snapshot that compiles has a version other than 0 and rules with a path and a target. The
  -- configuration is of this snapshot; it has a route for each rule, in their order, and its trie holds
  -- at every pattern exactly the routes that have it, in their order.
  pub compile_snapshot-IsFaithful :
      (s : Snapshot) (c : CompiledConfig)
      → compile_snapshot compile (some s) ≡ ok c
      → IsFaithful s c
  unfolding compile_snapshot
  compile_snapshot-IsFaithful s c h =
      let (u, v, h') = >>=-ok (validate s) _ h in
      let (same, rules, trie) =
        compile_rules-lem s.routes (empty_config compile s) c h'
          (λ ps. unfold empty_config with_pattern in routes_at-new_route_trie ps) in
      record {
        same = same ∙ unfold empty_config in refl;
        version = (valid_snapshot s u v).0;
        routable = valid_routes 0 s.routes (valid_snapshot s u v).1;
        rules = rules ∙ unfold empty_config in refl;
        trie = trie;
      }
