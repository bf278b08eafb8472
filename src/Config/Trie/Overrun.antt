-- ===== src/Config/Trie/Overrun.antt =====
-- A route trie of one exact route (internal/config/config.go, Insert and Match).
use torana_enterprise.Prelude.{◌≡◌, refl, false, List, [], ◌∷◌, ◌++◌, some, arith, All}
use torana_enterprise.Prelude.Maps.{≟_refl}
use torana_enterprise.Prelude.Bytes.{Bytes, bytes_key}
use torana_enterprise.Config.Types.{ConfigRoute}
use torana_enterprise.Config.Trie.{
  TrieNode, node, no_children, child, absent, new_node, new_route_trie, routes_of, is_prefix_of,
  is_wildcard, update_child, descend, add_here, place, find_child, wildcard_child, or_else,
  next_node, on_the_way, walk, match_path, path_segments_of, with_segments, insert_route,
}

abbrev pub IsLiteral : Bytes → Type 0
IsLiteral s = is_wildcard s ≡ false

not_prefix :
    (ss : List Bytes) (cr : ConfigRoute) (s : Bytes)
    → cr.rule.path_prefix ≡ false
    → All IsLiteral ss
    → is_prefix_of (place ss cr (new_node s)) ≡ false
unfolding is_prefix_of place add_here new_node descend
not_prefix [] cr s e h = ground arith
not_prefix (a ∷ ss) cr s e (l, h) = rw (l, descend) refl

nothing_on_the_way :
    (n : TrieNode) (segs : List Bytes) → is_prefix_of n ≡ false → on_the_way n segs ≡ []
unfolding on_the_way
nothing_on_the_way n [] h = refl
nothing_on_the_way n (seg ∷ segs) h = rw h refl

walk-place :
    (ss xs : List Bytes) (cr : ConfigRoute) (s : Bytes)
    → cr.rule.path_prefix ≡ false
    → All IsLiteral ss
    → walk (place ss cr (new_node s)) (ss ++ xs) ≡ cr ∷ []
unfolding walk place add_here new_node routes_of next_node find_child wildcard_child or_else
walk-place [] [] cr s e h = refl
walk-place [] (x ∷ xs) cr s e h = refl
walk-place (a ∷ ss) xs cr s e (l, h) =
    let m : TrieNode = place ss cr (new_node a) in
    let found : next_node a (node s false [] (child a m no_children) absent) ≡ some m =
      unfold next_node find_child or_else in rw (≟_refl a) refl in
    let here : descend (is_wildcard a) (place ss cr) a (new_node s)
        ≡ node s false [] (child a m no_children) absent =
      rw (l, descend) (unfold update_child new_node in refl) in
    rw here (
      rw (found, walk)
        (rw (nothing_on_the_way m (ss ++ xs) (not_prefix ss cr a e h)) (walk-place ss xs cr a e h)))

-- A trie that holds one route, which is no prefix route and has no wildcard segment, returns it for
-- every path that continues its own by any further segments.
pub match_path-overrun :
    (cr : ConfigRoute) (path : Bytes) (xs : List Bytes)
    → cr.rule.path_prefix ≡ false
    → All IsLiteral (path_segments_of cr.rule.path)
    → path_segments_of path ≡ path_segments_of cr.rule.path ++ xs
    → match_path path (insert_route cr new_route_trie) ≡ with_segments cr ∷ []
unfolding match_path insert_route new_route_trie with_segments
match_path-overrun cr path xs e l same =
    let ss : List Bytes = path_segments_of cr.rule.path in
    rw (not_prefix ss (with_segments cr) [] e l)
      (rw same (walk-place ss xs (with_segments cr) [] e l))
