-- ===== src/Config/Trie/Routes.antt =====
-- What a route trie holds, by the patterns of the routes (internal/config/config.go, Insert).
use torana_enterprise.Prelude.{
  ◌≡◌, refl, sym, ◌∙◌, ap, inl, inr, Bool, true, false, List, [], ◌∷◌, ◌++◌, Option, none, some,
  ◌&&◌, not, arith, Bool-cases, if◌then◌else◌,
}
use mathlib.Core.List.{append-nil}
use torana_enterprise.Prelude.Maps.{◌≟◌, ≟_iff}
use torana_enterprise.Prelude.Bytes.{Bytes, bytes_key}
use torana_enterprise.Config.Types.{ConfigRoute}
use torana_enterprise.Config.Trie.{
  TrieNode, node, Children, no_children, child, Wildcard, absent, present, new_node, new_route_trie,
  routes_of, is_wildcard, update_child, update_wildcard, descend, place, find_child, wildcard_child,
  path_segments_of, with_segments, insert_route,
}

-- The node that a segment of a pattern leads to.
step : Bytes → TrieNode → Option TrieNode
step seg (node s p rs cs w) = if is_wildcard seg then wildcard_child w else find_child seg cs

routes_under : (TrieNode → List ConfigRoute) → Option TrieNode → List ConfigRoute
routes_under f none = []
routes_under f (some m) = f m

-- The routes at a pattern: those of the node that it leads to.
pub routes_at : List Bytes → TrieNode → List ConfigRoute
unfolding routes_under
routes_at [] n = routes_of n
routes_at (seg ∷ segs) n = routes_under (routes_at segs) (step seg n)

same_segment : Bytes → Bytes → Bool
same_segment a b = if is_wildcard b then is_wildcard a else not (is_wildcard a) && b ≟ a

-- The patterns are the same, but for the names of their wildcards.
pub same_pattern : List Bytes → List Bytes → Bool
unfolding same_segment
same_pattern [] [] = true
same_pattern [] (b ∷ bs) = false
same_pattern (a ∷ ps) [] = false
same_pattern (a ∷ ps) (b ∷ bs) = same_segment a b && same_pattern ps bs

found_or_new : Bytes → Option TrieNode → TrieNode
found_or_new seg none = new_node seg
found_or_new seg (some n) = n

find_child-update_child :
    (f : TrieNode → TrieNode) (a b : Bytes) (cs : Children)
    → find_child a (update_child f b cs)
      ≡ (if b ≟ a then some (f (found_or_new b (find_child b cs))) else find_child a cs)
unfolding find_child update_child found_or_new
find_child-update_child f a b no_children = refl
find_child-update_child f a b (child s n cs) =
    ground (arith, find_child-update_child f a b cs, ≟_iff s b, ≟_iff s a, ≟_iff b a)

wildcard_child-update_wildcard :
    (f : TrieNode → TrieNode) (b : Bytes) (w : Wildcard)
    → wildcard_child (update_wildcard f b w) ≡ some (f (found_or_new b (wildcard_child w)))
unfolding wildcard_child update_wildcard found_or_new
wildcard_child-update_wildcard f b absent = refl
wildcard_child-update_wildcard f b (present n) = refl

step-descend :
    (a b : Bytes) (f : TrieNode → TrieNode) (n : TrieNode)
    → step a (descend (is_wildcard b) f b n)
      ≡ (if same_segment a b then some (f (found_or_new b (step b n))) else step a n)
unfolding step descend same_segment
step-descend a b f (node s p rs cs w) = elim (Bool-cases (is_wildcard b)) [
  | inl t ↦ elim (Bool-cases (is_wildcard a)) [
    | inl u ↦ rw (t, u, descend, step) (wildcard_child-update_wildcard f b w)
    | inr u ↦ rw (t, u, descend, step) refl
  ]
  | inr t ↦ elim (Bool-cases (is_wildcard a)) [
    | inl u ↦ rw (t, u, descend, step) refl
    | inr u ↦ rw (t, u, descend, step) (find_child-update_child f a b cs)
  ]
]

routes_of-descend :
    (b : Bool) (s : Bytes) (f : TrieNode → TrieNode) (n : TrieNode)
    → routes_of (descend b f s n) ≡ routes_of n
unfolding routes_of descend
routes_of-descend true s f (node t p rs cs w) = refl
routes_of-descend false s f (node t p rs cs w) = refl

-- Segments that are the same lead to the same node.
step_same : (a b : Bytes) (n : TrieNode) → same_segment a b ≡ true → step a n ≡ step b n
unfolding step same_segment
step_same a b (node s p rs cs w) h = ground (arith, ≟_iff b a)

routes_at-new : (ps : List Bytes) (s : Bytes) → routes_at ps (new_node s) ≡ []
unfolding routes_at new_node routes_of step find_child wildcard_child
routes_at-new [] s = refl
routes_at-new (p ∷ ps) s = elim (Bool-cases (is_wildcard p)) [
  | inl t ↦ rw t refl
  | inr t ↦ rw t refl
]

abbrev extra : Bool → ConfigRoute → List ConfigRoute
extra b cr = if b then cr ∷ [] else []

under_placed :
    (ps bs : List Bytes) (cr : ConfigRoute) (b : Bytes) (o : Option TrieNode)
    → ((m : TrieNode)
        → routes_at ps (place bs cr m) ≡ routes_at ps m ++ extra (same_pattern ps bs) cr)
    → routes_at ps (place bs cr (found_or_new b o))
      ≡ routes_under (routes_at ps) o ++ extra (same_pattern ps bs) cr
unfolding found_or_new routes_under
under_placed ps bs cr b none ih =
    ih (new_node b) ∙ ap (λ l. l ++ extra (same_pattern ps bs) cr) (routes_at-new ps b)
under_placed ps bs cr b (some m) ih = ih m

routes_at-place :
    (ps bs : List Bytes) (cr : ConfigRoute) (n : TrieNode)
    → routes_at ps (place bs cr n) ≡ routes_at ps n ++ extra (same_pattern ps bs) cr
unfolding routes_at same_pattern place
routes_at-place [] [] cr (node s p rs cs w) = unfold place routes_of in refl
routes_at-place (a ∷ ps) [] cr (node s p rs cs w) =
    unfold place step in sym (append-nil (routes_under (routes_at ps) (step a (node s p rs cs w))))
routes_at-place [] (b ∷ bs) cr n =
    unfold place in
    routes_of-descend (is_wildcard b) b (place bs cr) n ∙ sym (append-nil (routes_of n))
routes_at-place (a ∷ ps) (b ∷ bs) cr n = elim (Bool-cases (same_segment a b)) [
  | inl t ↦
      rw (step-descend a b (place bs cr) n, t)
        (rw (step_same a b n t) (under_placed ps bs cr b (step b n) (routes_at-place ps bs cr)))
  | inr t ↦
      rw (step-descend a b (place bs cr) n, t)
        (sym (append-nil (routes_under (routes_at ps) (step a n))))
]

-- Insert appends the route at its own pattern and leaves the other patterns as they are.
pub routes_at-insert_route :
    (ps : List Bytes) (cr : ConfigRoute) (n : TrieNode)
    → routes_at ps (insert_route cr n)
      ≡ routes_at ps n
        ++ (if same_pattern ps (path_segments_of cr.rule.path) then with_segments cr ∷ [] else [])
unfolding insert_route
routes_at-insert_route ps cr n =
    routes_at-place ps (path_segments_of cr.rule.path) (with_segments cr) n

pub routes_at-new_route_trie : (ps : List Bytes) → routes_at ps new_route_trie ≡ []
unfolding new_route_trie
routes_at-new_route_trie ps = routes_at-new ps []
