-- ===== src/Router/Match/Sound.antt =====
-- What the route that Match returns satisfies (internal/router/router.go).
use torana_enterprise.Prelude.{
  ℕ, ◌≡◌, refl, sym, ◌∙◌, subst, ◌⊎◌, inl, inr, true, false, List, [], ◌∷◌, Option, none, some, All,
  Any, ◌&&◌, arith, Bool-cases, Option-cases, if◌then◌else◌,
}
use torana_enterprise.Prelude.Maps.{◌≟◌, lookup}
use torana_enterprise.Prelude.Bytes.{Bytes, bytes, bytes_key, has_prefix}
use torana_enterprise.Config.Types.{Regex, RouteRule, UpstreamCluster, Snapshot}
use torana_enterprise.Router.Types.{MatchCriteria, CompiledRoute, PathNode, Router, MatchResult}
use torana_enterprise.Router.Hosts.{normalize_method}
use torana_enterprise.Router.Compile.{compile_route, compile_router}
use torana_enterprise.Router.Compile.Tables.{
  ExactOk, PrefixOk, IsPlaced, AllIn, ExactTable, routes_at, compile_router-IsPlaced,
}
use torana_enterprise.Router.Match.{
  matches_criteria, first_match, match_exact, longer, best_node, match_prefix, regex_ok,
  match_regex, first_some, find_route, build_result, match,
}

first_match-some :
    (P : CompiledRoute → Type 0) (c : MatchCriteria) (crs : List CompiledRoute) (cr : CompiledRoute)
    → All P crs
    → first_match c crs ≡ some cr
    → P cr × (matches_criteria cr c ≡ true)
unfolding first_match
first_match-some P c [] cr h e = cc
first_match-some P c (x ∷ crs) cr (p, h) e = elim (Bool-cases (matches_criteria x c)) [
  | inl t ↦
      let same : x ≡ cr = ground arith in
      subst (λ z. P z × (matches_criteria z c ≡ true)) same (p, t)
  | inr t ↦ first_match-some P c crs cr h (ground arith)
]

-- bestNode: a node with the property, the longest whose prefix begins the path
abbrev IsBest : (PathNode → Type 0) → Bytes → Option PathNode → Type 0
IsBest P path none = Unit
IsBest P path (some n) = P n × (has_prefix path n.prefix ≡ true)

best_node-IsBest :
    (P : PathNode → Type 0) (path : Bytes) (best : Option PathNode) (ns : List PathNode)
    → IsBest P path best
    → All P ns
    → IsBest P path (best_node path best ns)
unfolding best_node
best_node-IsBest P path best [] b h = b
best_node-IsBest P path best (n ∷ ns) b (p, h) =
    best_node-IsBest P path (if has_prefix path n.prefix && longer n best then some n else best) ns
      step h
  where
    step : IsBest P path (if has_prefix path n.prefix && longer n best then some n else best)
    step = elim (Bool-cases (has_prefix path n.prefix && longer n best)) [
      | inl t ↦ rw t (p, ground arith)
      | inr t ↦ rw t b
    ]

abbrev first_in : MatchCriteria → Option (List CompiledRoute) → Option CompiledRoute
first_in c none = none
first_in c (some crs) = first_match c crs

abbrev first_in_node : MatchCriteria → Option PathNode → Option CompiledRoute
first_in_node c none = none
first_in_node c (some n) = first_match c n.routes

match_exact-routes_at :
    (c : MatchCriteria) (m : Bytes) (t : ExactTable)
    → match_exact c m t ≡ first_in c (routes_at m c.path t)
unfolding routes_at match_exact
match_exact-routes_at c m t = elim (Option-cases (lookup m t)) [
  | inl e ↦ simp (e, match_exact) (unfold lookup in refl)
  | inr (tab, e) ↦ elim (Option-cases (lookup c.path tab)) [
    | inl n ↦ simp (e, n, match_exact)
    | inr (crs, n) ↦ simp (e, n, match_exact)
  ]
]

regex_ok-some :
    (cr : CompiledRoute) (path : Bytes) (o : Option Regex)
    → cr.path_regex ≡ o
    → regex_ok cr path ≡ true
    → (re : Regex) × (o ≡ some re) × (re path ≡ true)
unfolding regex_ok
regex_ok-some cr path none e h = let q : regex_ok cr path ≡ false = simp (e, regex_ok) in cc (q, h)
regex_ok-some cr path (some re) e h =
    let q : regex_ok cr path ≡ re path = simp (e, regex_ok) in (re, refl, sym q ∙ h)

abbrev result_of : ℕ → Option CompiledRoute → Option MatchResult
result_of counter none = none
result_of counter (some cr) = some (build_result counter cr).0

match-result_of :
    (t : Router) (c : MatchCriteria) (counter : ℕ) (requests : ℕ → ℕ)
    → (match t c counter requests).0 ≡ result_of counter (find_route t c)
unfolding match
match-result_of t c counter requests = elim (Option-cases (find_route t c)) [
  | inl e ↦ simp (e, match)
  | inr (cr, e) ↦ simp (e, match)
]

first_some_cases :
    (a b : Option CompiledRoute) (cr : CompiledRoute)
    → first_some a b ≡ some cr
    → (a ≡ some cr) ⊎ (b ≡ some cr)
unfolding first_some
first_some_cases none b cr e = inr e
first_some_cases (some x) b cr e = inl e

module _ (compile : Bytes → Option Regex) (s : Snapshot) where
  -- the route is what compile_route makes of a rule of the snapshot
  abbrev FromSnapshot : CompiledRoute → Type 0
  FromSnapshot cr =
      (r : RouteRule) × Any (λ x. x ≡ r) s.routes
      × ((us : List (Bytes × UpstreamCluster)) × (budget : ℕ) × (cr
            ≡ compile_route compile us budget r))

  -- Why a route matches a path: it is the path, or a prefix of it, or its expression accepts it.
  abbrev PathMatches : CompiledRoute → MatchCriteria → Type 0
  PathMatches cr c =
      ((cr.rule.path_prefix ≡ false) × (cr.rule.path ≡ c.path))
      ⊎ ((cr.rule.path_prefix ≡ true) × (has_prefix c.path cr.rule.path ≡ true))
      ⊎ ((re : Regex) × (cr.path_regex ≡ some re) × (re c.path ≡ true))

  abbrev pub Fits : CompiledRoute → MatchCriteria → Type 0
  Fits cr c = FromSnapshot cr × (matches_criteria cr c ≡ true) × PathMatches cr c

  routes-Fits :
      (c : MatchCriteria) (m : Bytes) (o : Option (List CompiledRoute)) (cr : CompiledRoute)
      → AllIn (ExactOk FromSnapshot m c.path) o
      → first_in c o ≡ some cr
      → Fits cr c
  routes-Fits c m none cr h e = cc
  routes-Fits c m (some crs) cr h e =
      let (ok, t) = first_match-some (ExactOk FromSnapshot m c.path) c crs cr h e in
      (ok.0, t, inl (ok.3, ok.2))

  match_exact-Fits :
      (c : MatchCriteria) (m : Bytes) (t : Router) (cr : CompiledRoute)
      → IsPlaced FromSnapshot t
      → match_exact c m t.method_path_lookup ≡ some cr
      → Fits cr c
  match_exact-Fits c m t cr h e =
      routes-Fits c m (routes_at m c.path t.method_path_lookup) cr (h.exact m c.path)
        (sym (match_exact-routes_at c m t.method_path_lookup) ∙ e)

  node-Fits :
      (c : MatchCriteria) (o : Option PathNode) (cr : CompiledRoute)
      → IsBest (λ n. All (PrefixOk FromSnapshot n.prefix) n.routes) c.path o
      → first_in_node c o ≡ some cr
      → Fits cr c
  node-Fits c none cr h e = cc
  node-Fits c (some n) cr (h, pre) e =
      let (ok, t) = first_match-some (PrefixOk FromSnapshot n.prefix) c n.routes cr h e in
      (ok.0, t, inr (inl (ok.2, subst (λ z. has_prefix c.path z ≡ true) (sym ok.1) pre)))

  match_prefix-Fits :
      (c : MatchCriteria) (t : Router) (cr : CompiledRoute)
      → IsPlaced FromSnapshot t
      → match_prefix c t.prefix_children ≡ some cr
      → Fits cr c
  unfolding match_prefix
  match_prefix-Fits c t cr h e =
      node-Fits c (best_node c.path none t.prefix_children) cr
        (best_node-IsBest _ c.path none t.prefix_children tt h.prefixes) e

  match_regex-Fits :
      (c : MatchCriteria) (crs : List CompiledRoute) (cr : CompiledRoute)
      → All FromSnapshot crs
      → match_regex c crs ≡ some cr
      → Fits cr c
  unfolding match_regex
  match_regex-Fits c [] cr h e = cc
  match_regex-Fits c (x ∷ crs) cr (q, h) e =
      elim (Bool-cases (regex_ok x c.path && matches_criteria x c)) [
        | inl t ↦
            let same : x ≡ cr = ground arith in
            subst (λ z. Fits z c) same
              (q, ground arith, inr (inr (regex_ok-some x c.path x.path_regex refl (ground arith))))
        | inr t ↦ match_regex-Fits c crs cr h (ground arith)
      ]

  find_route-Fits :
      (c : MatchCriteria) (t : Router) (cr : CompiledRoute)
      → IsPlaced FromSnapshot t
      → find_route t c ≡ some cr
      → Fits cr c
  unfolding find_route first_some
  find_route-Fits c t cr h e = elim (first_some_cases _ _ cr e) [
    | inl x ↦ match_exact-Fits c _ t cr h x
    | inr x ↦ elim (first_some_cases _ _ cr x) [
      | inl y ↦ wildcard y
      | inr y ↦ elim (first_some_cases _ _ cr y) [
        | inl z ↦ match_prefix-Fits c t cr h z
        | inr z ↦ match_regex-Fits c t.regex_routes cr h.regexes z
      ]
    ]
  ]
    where
      wildcard :
          (if normalize_method c.method ≟ bytes "*"
              then none
              else match_exact c (bytes "*") t.method_path_lookup)
            ≡ some cr
          → Fits cr c
      wildcard y = match_exact-Fits c (bytes "*") t cr h (ground arith)

  from_snapshot :
      (rs : List RouteRule) (P : RouteRule → Type 0)
      → ((r : RouteRule) → Any (λ x. x ≡ r) rs → P r)
      → All P rs
  from_snapshot [] P h = tt
  from_snapshot (r ∷ rs) P h = (h r (inl refl), from_snapshot rs P (λ x m. h x (inr m)))

  -- Over the router compiled from a snapshot, if Match returns a result then its route is the rule of
  -- some compiled route which is what compile_route makes of a rule of the snapshot, its expressions
  -- included, and which meets the host, method, header and claim criteria; the path of the rule is the
  -- request's (no prefix rule), begins it (a prefix rule) or compiles to an expression that accepts it.
  pub match-Fits :
      (c : MatchCriteria) (counter : ℕ) (requests : ℕ → ℕ) (res : MatchResult)
      → (match (compile_router compile s) c counter requests).0 ≡ some res
      → (cr : CompiledRoute) × (res.route ≡ cr.rule) × Fits cr c
  unfolding build_result
  match-Fits c counter requests res e =
      go (find_route (compile_router compile s) c) refl
        (sym (match-result_of (compile_router compile s) c counter requests) ∙ e)
    where
      placed : IsPlaced FromSnapshot (compile_router compile s)
      placed =
          compile_router-IsPlaced FromSnapshot compile s
            (from_snapshot s.routes _ (λ r m us b. (r, m, (us, b, refl))))

      go :
          (o : Option CompiledRoute)
          → find_route (compile_router compile s) c ≡ o
          → result_of counter o ≡ some res
          → (cr : CompiledRoute) × (res.route ≡ cr.rule) × Fits cr c
      go none f x = cc
      go (some cr) f x = (cr, ground arith, find_route-Fits c _ cr placed f)
