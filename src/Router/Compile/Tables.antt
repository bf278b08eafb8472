-- ===== src/Router/Compile/Tables.antt =====
-- Where Compile puts the routes of a snapshot (internal/router/router.go).
use torana_enterprise.Prelude.{
  ℕ, ◌≡◌, refl, sym, subst, inl, inr, true, false, List, [], ◌∷◌, ◌++◌, Option, none, some, All,
  All-append, Bool-cases, Option-cases, if◌then◌else◌,
}
use torana_enterprise.Prelude.Maps.{◌≟◌, ≟_iff, lookup, lookup-insert}
use torana_enterprise.Prelude.Bytes.{Bytes, bytes_key}
use torana_enterprise.Config.Types.{Regex, RouteRule, UpstreamCluster, Snapshot}
use torana_enterprise.Router.Types.{CompiledRoute, PathNode, Router}
use torana_enterprise.Router.Hosts.{normalize_method}
use torana_enterprise.Router.Compile.{
  append_at, add_exact_route, add_prefix_route, compile_route, add_regex, exact_unless_regex,
  add_path, next_index, add_routes, compile_router,
}

abbrev pub ExactTable : Type 0
ExactTable = List (Bytes × List (Bytes × List CompiledRoute))

abbrev with_route : Option (List CompiledRoute) → CompiledRoute → List CompiledRoute
with_route none cr = cr ∷ []
with_route (some crs) cr = crs ++ cr ∷ []

lookup-append_at :
    (p q : Bytes) (cr : CompiledRoute) (m : List (Bytes × List CompiledRoute))
    → lookup q (append_at p cr m)
      ≡ (if p ≟ q then some (with_route (lookup p m) cr) else lookup q m)
unfolding append_at
lookup-append_at p q cr m = elim (Option-cases (lookup p m)) [
  | inl e ↦ rw (e, append_at) (lookup-insert p q (cr ∷ []) m)
  | inr (crs, e) ↦ rw (e, append_at) (lookup-insert p q (crs ++ cr ∷ []) m)
]

abbrev pub or_empty : Option (List (Bytes × List CompiledRoute)) → List (Bytes × List CompiledRoute)
or_empty none = []
or_empty (some m) = m

lookup-add_exact_route :
    (m n p : Bytes) (cr : CompiledRoute) (t : ExactTable)
    → lookup n (add_exact_route m p cr t)
      ≡ (if m ≟ n then some (append_at p cr (or_empty (lookup m t))) else lookup n t)
unfolding add_exact_route
lookup-add_exact_route m n p cr t = elim (Option-cases (lookup m t)) [
  | inl e ↦ rw (e, add_exact_route) (lookup-insert m n (append_at p cr []) t)
  | inr (tab, e) ↦ rw (e, add_exact_route) (lookup-insert m n (append_at p cr tab) t)
]

-- the routes at a method and a path
unfoldable pub routes_at : Bytes → Bytes → ExactTable → Option (List CompiledRoute)
routes_at m p table = lookup p (or_empty (lookup m table))

abbrev pub AllIn : (CompiledRoute → Type 0) → Option (List CompiledRoute) → Type 0
AllIn P none = Unit
AllIn P (some crs) = All P crs

with_route-All :
    (P : CompiledRoute → Type 0) (o : Option (List CompiledRoute)) (cr : CompiledRoute)
    → AllIn P o
    → P cr
    → All P (with_route o cr)
with_route-All P none cr h p = (p, tt)
with_route-All P (some crs) cr h p = All-append P crs (cr ∷ []) h (p, tt)

-- A route in the exact table under a method and a path, and one in a node of the prefix table.
module _ (Q : CompiledRoute → Type 0) where
  abbrev pub ExactOk : Bytes → Bytes → CompiledRoute → Type 0
  ExactOk m p cr =
      Q cr
      × (normalize_method cr.rule.method ≡ m)
      × (cr.rule.path ≡ p)
      × (cr.rule.path_prefix ≡ false)

  abbrev pub PrefixOk : Bytes → CompiledRoute → Type 0
  PrefixOk p cr = Q cr × (cr.rule.path ≡ p) × (cr.rule.path_prefix ≡ true)

  -- Every table holds routes of its kind, all of which satisfy `Q`.
  pub record IsPlaced (t : Router) : Type 0 where
    pub exact : (m p : Bytes) → AllIn (ExactOk m p) (routes_at m p t.method_path_lookup)
    pub prefixes : All (λ n. All (PrefixOk n.prefix) n.routes) t.prefix_children
    pub regexes : All Q t.regex_routes

  at_method :
      (m p : Bytes) (cr : CompiledRoute) (t : ExactTable)
      → ExactOk m p cr
      → ((n q : Bytes) → AllIn (ExactOk n q) (routes_at n q t))
      → (q : Bytes) → AllIn (ExactOk m q) (lookup q (append_at p cr (or_empty (lookup m t))))
  unfolding routes_at
  at_method m p cr t ok h q = elim (Bool-cases (p ≟ q)) [
    | inl e ↦
        rw (lookup-append_at p q cr (or_empty (lookup m t)), e)
          (subst (λ z. All (ExactOk m z) (with_route (routes_at m p t) cr)) ((≟_iff p q).0 e)
            (with_route-All (ExactOk m p) (routes_at m p t) cr (h m p) ok))
    | inr e ↦ rw (lookup-append_at p q cr (or_empty (lookup m t)), e) (h m q)
  ]

  add_exact_route-AllIn :
      (m p : Bytes) (cr : CompiledRoute) (t : ExactTable)
      → ExactOk m p cr
      → ((n q : Bytes) → AllIn (ExactOk n q) (routes_at n q t))
      → (n q : Bytes) → AllIn (ExactOk n q) (routes_at n q (add_exact_route m p cr t))
  unfolding routes_at
  add_exact_route-AllIn m p cr t ok h n q = elim (Bool-cases (m ≟ n)) [
    | inl e ↦
        rw (lookup-add_exact_route m n p cr t, e)
          (subst (λ z. AllIn (ExactOk z q) (lookup q (append_at p cr (or_empty (lookup m t)))))
            ((≟_iff m n).0 e) (at_method m p cr t ok h q))
    | inr e ↦ rw (lookup-add_exact_route m n p cr t, e) (h n q)
  ]

  abbrev NodeOk : PathNode → Type 0
  NodeOk n = All (PrefixOk n.prefix) n.routes

  add_prefix_route-All :
      (p : Bytes) (cr : CompiledRoute) (ns : List PathNode)
      → PrefixOk p cr
      → All NodeOk ns
      → All NodeOk (add_prefix_route p cr ns)
  unfolding add_prefix_route
  add_prefix_route-All p cr [] ok h = ((ok, tt), tt)
  add_prefix_route-All p cr (n ∷ ns) ok (h, hs) = elim (Bool-cases (n.prefix ≟ p)) [
    | inl e ↦ rw e (
      All-append (PrefixOk n.prefix) n.routes (cr ∷ []) h
          (subst (λ z. PrefixOk z cr) (sym ((≟_iff n.prefix p).0 e)) ok, tt),
      hs,
    )
    | inr e ↦ rw e (h, add_prefix_route-All p cr ns ok hs)
  ]

  add_regex-IsPlaced :
      (cr : CompiledRoute) (t : Router) (o : Option Regex)
      → cr.path_regex ≡ o
      → Q cr
      → IsPlaced t
      → IsPlaced (add_regex cr t)
  unfolding add_regex
  add_regex-IsPlaced cr t none e q h = simp (e, add_regex) h
  add_regex-IsPlaced cr t (some re) e q h =
      simp (e, add_regex)
        (record {
          exact = h.exact;
          prefixes = h.prefixes;
          regexes = All-append Q t.regex_routes (cr ∷ []) h.regexes (q, tt);
        })

  exact_unless_regex-IsPlaced :
      (cr : CompiledRoute) (t : Router) (o : Option Regex)
      → Q cr
      → cr.rule.path_prefix ≡ false
      → IsPlaced t
      → IsPlaced (exact_unless_regex o cr t)
  unfolding exact_unless_regex
  exact_unless_regex-IsPlaced cr t (some re) q e h = h
  exact_unless_regex-IsPlaced cr t none q e h = record {
    exact =
        add_exact_route-AllIn (normalize_method cr.rule.method) cr.rule.path cr t.method_path_lookup
          (q, refl, refl, e) h.exact;
    prefixes = h.prefixes;
    regexes = h.regexes;
  }

  add_path-IsPlaced :
      (cr : CompiledRoute) (t : Router) → Q cr → IsPlaced t → IsPlaced (add_path cr t)
  unfolding add_path
  add_path-IsPlaced cr t q h = elim (Bool-cases cr.rule.path_prefix) [
    | inl e ↦ simp e (record {
      exact = h.exact;
      prefixes = add_prefix_route-All cr.rule.path cr t.prefix_children (q, refl, e) h.prefixes;
      regexes = h.regexes;
    })
    | inr e ↦ simp e (exact_unless_regex-IsPlaced cr t cr.path_regex q e h)
  ]

  add_routes-IsPlaced :
      (compile : Bytes → Option Regex) (budget : ℕ) (rs : List RouteRule) (t : Router)
      → All
          (λ r. (us : List (Bytes × UpstreamCluster)) (b : ℕ) → Q (compile_route compile us b r))
          rs
      → IsPlaced t
      → IsPlaced (add_routes compile budget rs t)
  unfolding add_routes
  add_routes-IsPlaced compile budget [] t q h = h
  add_routes-IsPlaced compile budget (r ∷ rs) t (q, qs) h =
      let cr = compile_route compile t.upstreams budget r in
      add_routes-IsPlaced compile (next_index budget r.retry_policy) rs _ qs (
        add_path-IsPlaced cr _ (q t.upstreams budget)
          (add_regex-IsPlaced cr t _ refl (q t.upstreams budget) h))

  -- A router compiled from a snapshot has its routes in the right tables.
  pub compile_router-IsPlaced :
      (compile : Bytes → Option Regex) (s : Snapshot)
      → All
          (λ r. (us : List (Bytes × UpstreamCluster)) (b : ℕ) → Q (compile_route compile us b r))
          s.routes
      → IsPlaced (compile_router compile s)
  unfolding compile_router
  compile_router-IsPlaced compile s q =
      add_routes-IsPlaced compile 0 s.routes _ q
        (record { exact = λ m p. unfold routes_at lookup in tt; prefixes = tt; regexes = tt })
