-- ===== src/Config/Trie.antt =====
-- RouteTrie of internal/config/config.go: a tree of path segments, in which a segment `*` or one that
-- begins with a brace stands for any.
pub mod Routes
pub mod Overrun
use torana_enterprise.Prelude.{
  ℕ, Bool, true, false, List, [], ◌∷◌, ◌++◌, Option, none, some, ◌||◌, ◌&&◌, if◌then◌else◌,
}
use torana_enterprise.Prelude.Maps.{◌≟◌}
use torana_enterprise.Prelude.Bytes.{Bytes, bytes, bytes_key, has_prefix, trim, split}
use torana_enterprise.Config.Types.{RouteRule, ConfigRoute}

-- RouteTrieNode: Segment, IsPrefix, Routes, Children, WildcardChild
mutual
  pub data TrieNode : Type 0 where
    node : Bytes → Bool → List ConfigRoute → Children → Wildcard → TrieNode

  pub data Children : Type 0 where
    no_children : Children
    child : Bytes → TrieNode → Children → Children

  pub data Wildcard : Type 0 where
    absent : Wildcard
    present : TrieNode → Wildcard

unfoldable pub new_node : Bytes → TrieNode
new_node segment = node segment false [] no_children absent

unfoldable pub new_route_trie : TrieNode
unfolding new_node
new_route_trie = new_node []

unfoldable pub routes_of : TrieNode → List ConfigRoute
routes_of (node s p rs cs w) = rs

unfoldable pub is_prefix_of : TrieNode → Bool
is_prefix_of (node s p rs cs w) = p

unfoldable pub is_wildcard : Bytes → Bool
is_wildcard s = s ≟ bytes "*" || has_prefix s (bytes "{")

-- the segments of a path without its outer slashes
segments_of : Bytes → List Bytes
segments_of [] = []
segments_of (c ∷ s) = split b'/' (c ∷ s)

unfoldable pub path_segments_of : Bytes → List Bytes
unfolding segments_of
path_segments_of path = segments_of (trim b'/' path)

-- the child for a segment, made if it is missing, and changed by `f`
update_child : (TrieNode → TrieNode) → Bytes → Children → Children
unfolding new_node
update_child f segment no_children = child segment (f (new_node segment)) no_children
update_child f segment (child s n cs) =
    if s ≟ segment then child s (f n) cs else child s n (update_child f segment cs)

update_wildcard : (TrieNode → TrieNode) → Bytes → Wildcard → Wildcard
unfolding new_node
update_wildcard f segment absent = present (f (new_node segment))
update_wildcard f segment (present n) = present (f n)

-- one turn of the loop of Insert, the rest of which is `f`
descend : Bool → (TrieNode → TrieNode) → Bytes → TrieNode → TrieNode
unfolding update_child update_wildcard
descend true f seg (node s p rs cs w) = node s p rs cs (update_wildcard f seg w)
descend false f seg (node s p rs cs w) = node s p rs (update_child f seg cs) w

add_here : ConfigRoute → TrieNode → TrieNode
add_here cr (node s p rs cs w) = node s (p || cr.rule.path_prefix) (rs ++ cr ∷ []) cs w

-- the loop of Insert and what follows it
unfoldable pub place : List Bytes → ConfigRoute → TrieNode → TrieNode
unfolding descend add_here
place [] cr n = add_here cr n
place (seg ∷ segs) cr n = descend (is_wildcard seg) (place segs cr) seg n

-- Insert, which also sets the segments of the route
unfoldable pub with_segments : ConfigRoute → ConfigRoute
with_segments cr = record cr { path_segments = path_segments_of cr.rule.path }

unfoldable pub insert_route : ConfigRoute → TrieNode → TrieNode
unfolding with_segments
insert_route cr trie = place (path_segments_of cr.rule.path) (with_segments cr) trie

find_child : Bytes → Children → Option TrieNode
find_child segment no_children = none
find_child segment (child s n cs) = if s ≟ segment then some n else find_child segment cs

wildcard_child : Wildcard → Option TrieNode
wildcard_child absent = none
wildcard_child (present n) = some n

or_else : Option TrieNode → Option TrieNode → Option TrieNode
or_else (some n) o = some n
or_else none o = o

-- the node after a segment of the path that is matched
next_node : Bytes → TrieNode → Option TrieNode
unfolding find_child wildcard_child or_else
next_node seg (node s p rs cs w) = or_else (find_child seg cs) (wildcard_child w)

-- an intermediate node for prefixes
on_the_way : TrieNode → List Bytes → List ConfigRoute
on_the_way n [] = []
on_the_way n (seg ∷ segs) = if is_prefix_of n then routes_of n else []

-- the loop of Match and what follows it
unfoldable pub walk : TrieNode → List Bytes → List ConfigRoute
unfolding next_node on_the_way
walk n [] = routes_of n
walk n (seg ∷ segs) = elim (next_node seg n) [
  | none ↦ routes_of n
  | some m ↦ on_the_way m segs ++ walk m segs
]

unfoldable pub match_path : Bytes → TrieNode → List ConfigRoute
match_path path trie =
    (if is_prefix_of trie then routes_of trie else []) ++ walk trie (path_segments_of path)
