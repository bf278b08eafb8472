-- ===== src/Router/Match/Prefixes.antt =====
-- The node whose routes a prefix match tries (internal/router/router.go, matchPrefix).
use torana_enterprise.Prelude.{
  ◌≤◌, ◌≡◌, ◌⊎◌, inl, inr, true, false, List, [], ◌∷◌, Option, none, some, All, Any, ◌&&◌, arith,
  subst, Bool-cases, Option-cases, ltb, length, if◌then◌else◌,
}
use torana_enterprise.Prelude.Bytes.{Bytes, has_prefix}
use torana_enterprise.Router.Types.{MatchCriteria, CompiledRoute, PathNode}
use torana_enterprise.Router.Match.{first_match, longer, best_node, match_prefix}

-- a node whose prefix does not begin the path, or is no longer than that of the best
abbrev pub IsCovered : Bytes → Option PathNode → PathNode → Type 0
IsCovered path none n = has_prefix path n.prefix ≡ false
IsCovered path (some b) n = (has_prefix path n.prefix ≡ false) ⊎ (length n.prefix ≤ length b.prefix)

next_best : Bytes → Option PathNode → PathNode → Option PathNode
next_best path best n = if has_prefix path n.prefix && longer n best then some n else best

IsCovered-next_best :
    (path : Bytes) (best : Option PathNode) (n m : PathNode)
    → IsCovered path best m
    → IsCovered path (next_best path best n) m
unfolding next_best longer
IsCovered-next_best path none n m h = elim (Bool-cases (has_prefix path n.prefix)) [
  | inl t ↦ rw t (inl h)
  | inr t ↦ rw t h
]
IsCovered-next_best path (some b) n m h =
    elim (Bool-cases (has_prefix path n.prefix && ltb (length b.prefix) (length n.prefix))) [
      | inl t ↦ rw t (elim h [ inl o ↦ inl o | inr l ↦ inr (ground arith) ])
      | inr t ↦ rw t h
    ]

IsCovered-next :
    (path : Bytes) (best : Option PathNode) (n : PathNode)
    → IsCovered path (next_best path best n) n
unfolding next_best longer
IsCovered-next path none n = elim (Bool-cases (has_prefix path n.prefix)) [
  | inl t ↦ rw t (inr (omega arith))
  | inr t ↦ rw t t
]
IsCovered-next path (some b) n =
    elim (Bool-cases (has_prefix path n.prefix && ltb (length b.prefix) (length n.prefix))) [
      | inl t ↦ rw t (inr (omega arith))
      | inr t ↦ rw t (elim (Bool-cases (has_prefix path n.prefix)) [
        | inl u ↦ inr (ground arith)
        | inr u ↦ inl u
      ])
    ]

best_node_keeps :
    (path : Bytes) (best : Option PathNode) (ns : List PathNode) (m : PathNode)
    → IsCovered path best m
    → IsCovered path (best_node path best ns) m
unfolding best_node next_best
best_node_keeps path best [] m h = h
best_node_keeps path best (n ∷ ns) m h =
    best_node_keeps path (next_best path best n) ns m (IsCovered-next_best path best n m h)

best_node-IsCovered :
    (path : Bytes) (best : Option PathNode) (ns : List PathNode)
    → All (IsCovered path (best_node path best ns)) ns
unfolding best_node next_best
best_node-IsCovered path best [] = tt
best_node-IsCovered path best (n ∷ ns) = (
  best_node_keeps path (next_best path best n) ns n (IsCovered-next path best n),
  best_node-IsCovered path (next_best path best n) ns,
)

-- the best node is the one at the start, or one of the list whose prefix begins the path
abbrev pub IsFound : Bytes → Option PathNode → List PathNode → PathNode → Type 0
IsFound path best ns b = (best ≡ some b) ⊎ (Any (λ n. n ≡ b) ns × (has_prefix path b.prefix ≡ true))

best_node-IsFound :
    (path : Bytes) (best : Option PathNode) (ns : List PathNode) (b : PathNode)
    → best_node path best ns ≡ some b
    → IsFound path best ns b
unfolding best_node
best_node-IsFound path best [] b e = inl e
best_node-IsFound path best (n ∷ ns) b e =
    elim (Bool-cases (has_prefix path n.prefix && longer n best)) [
      | inl t ↦ elim (best_node-IsFound path (some n) ns b (ground arith)) [
        | inl q ↦
            let same : n ≡ b = ground arith in
            inr (inl same, subst (λ m. has_prefix path m.prefix ≡ true) same (ground arith))
        | inr (m, p) ↦ inr (inr m, p)
      ]
      | inr t ↦ elim (best_node-IsFound path best ns b (ground arith)) [
        | inl q ↦ inl q
        | inr (m, p) ↦ inr (inr m, p)
      ]
    ]

-- A route that a prefix match returns is the first to match the criteria of the routes of a node of
-- the table, whose prefix begins the path and is no shorter than that of any other node whose prefix
-- begins it.
pub match_prefix_longest :
    (c : MatchCriteria) (nodes : List PathNode) (cr : CompiledRoute)
    → match_prefix c nodes ≡ some cr
    → (b : PathNode) × Any (λ n. n ≡ b) nodes
      × (has_prefix c.path b.prefix ≡ true)
      × (first_match c b.routes ≡ some cr)
      × All (IsCovered c.path (some b)) nodes
unfolding match_prefix
match_prefix_longest c nodes cr e = elim (Option-cases (best_node c.path none nodes)) [
  | inl n ↦ ground arith
  | inr (b, f) ↦
      let (m, p) = found_in nodes b (best_node-IsFound c.path none nodes b f) in
      (
        b,
        m,
        p,
        ground arith,
        subst (λ o. All (IsCovered c.path o) nodes) f (best_node-IsCovered c.path none nodes),
      )
]
  where
    found_in :
        (ns : List PathNode) (b : PathNode)
        → IsFound c.path none ns b
        → Any (λ n. n ≡ b) ns × (has_prefix c.path b.prefix ≡ true)
    found_in ns b (inl q) = absurd (cc q)
    found_in ns b (inr h) = h
