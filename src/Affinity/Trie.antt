-- ===== src/Affinity/Trie.antt =====
-- affinity.go: the trie of one model, its walks and its pruning.
pub mod Counts
pub mod Nested
pub mod Kept
pub mod Rounds
pub mod Again
pub mod Positions
pub mod Sound
use breakwater.Base.{
  ℕ, zero, suc, ◌+◌, ◌-◌, ◌==◌, Bool, true, false, ◌&&◌, ◌||◌, List, [], ◌∷◌, Option, none, some,
  String, str_eq, ltb, leb, if◌then◌else◌,
}

abbrev pub max_nodes : ℕ
max_nodes = 8192

mutual
  pub data Node : Type 0 where
    node : Children → List String → ℕ → Node

  pub data Children : Type 0 where
    nil : Children
    cons : ℕ → Node → Children → Children

abbrev pub children : Node → Children
children (node cs es t) = cs

abbrev pub endpoints : Node → List String
endpoints (node cs es t) = es

pub record Trie : Type 0 where
  pub root : Node
  pub nodes : ℕ

unfoldable pub find_child : ℕ → Children → Option Node
find_child h nil = none
find_child h (cons k n cs) = if k == h then some n else find_child h cs

unfoldable pub set_child : ℕ → Node → Children → Children
set_child h c nil = cons h c nil
set_child h c (cons k n cs) = if k == h then cons k c cs else cons k n (set_child h c cs)

unfoldable pub put_child : ℕ → Node → Node → Node
put_child h c (node cs es t) = node (set_child h c cs) es t

unfoldable pub touch : ℕ → Node → Node
touch now (node cs es t) = node cs es now

unfoldable pub contains : String → List String → Bool
contains id [] = false
contains id (e ∷ es) = str_eq e id || contains id es

unfoldable pub add_endpoint : String → Node → Node
unfolding contains
add_endpoint id (node cs es t) = node cs (if contains id es then es else id ∷ es) t

-- The map `pos`: where a name occurs twice, its last position.
unfoldable pub position_from : ℕ → String → List String → Option ℕ → Option ℕ
position_from i id [] found = found
position_from i id (e ∷ ids) found =
    position_from (suc i) id ids (if str_eq e id then some i else found)

unfoldable pub position : List String → String → Option ℕ
unfolding position_from
position ids id = position_from 0 id ids none

unfoldable pub nth : List String → ℕ → Option String
nth [] i = none
nth (id ∷ ids) zero = some id
nth (id ∷ ids) (suc i) = nth ids i

unfoldable pub lower : Option ℕ → Option ℕ → Option ℕ
lower none hit = hit
lower (some i) none = some i
lower (some i) (some hit) = if ltb i hit then some i else some hit

-- The loop over the endpoints: the lowest position.
unfoldable pub lowest_hit : List String → List String → Option ℕ
unfolding lower
lowest_hit ids [] = none
lowest_hit ids (e ∷ es) = lower (position ids e) (lowest_hit ids es)

unfoldable pub deepest : ℕ → Option ℕ → ℕ
deepest hit none = hit
deepest hit (some deeper) = deeper

-- One round of the loop of `match`: the walk goes on below a child that holds a candidate.
unfoldable pub match_hit : ℕ → (Node → Node × Option ℕ) → Node → Node → Option ℕ → Node × Option ℕ
match_hit h below n child none = (put_child h child n, none)
match_hit h below n child (some hit) =
    let (walked, deeper) = below child in (put_child h walked n, some (deepest hit deeper))

unfoldable pub match_child :
    ℕ → List String → ℕ → (Node → Node × Option ℕ) → Node → Option Node → Node × Option ℕ
match_child h ids now below n none = (n, none)
match_child h ids now below n (some child) =
    match_hit h below n (touch now child) (lowest_hit ids (endpoints child))

-- The loop of `match`, from the node that is reached.
unfoldable pub match_from : List ℕ → List String → ℕ → Node → Node × Option ℕ
match_from [] ids now n = (n, none)
match_from (h ∷ chunks) ids now n =
    match_child h ids now (match_from chunks ids now) n (find_child h (children n))

unfoldable pub match : List ℕ → List String → ℕ → Trie → Trie × Option ℕ
match chunks ids now t =
    let (root, best) = match_from chunks ids now t.root in (record t { root = root }, best)

-- One round of the loop of `record`; below it the walk goes on from a stamped child.
unfoldable pub record_child :
    ℕ → String → ℕ → (ℕ → Node → Node × ℕ) → ℕ → Node → Option Node → Node × ℕ
record_child h id now below nodes n none =
    if leb max_nodes nodes
    then (n, nodes)
    else (let (walked, total) = below (nodes + 1) (node nil (id ∷ []) now) in
        (put_child h walked n, total))
record_child h id now below nodes n (some child) =
    let (walked, total) = below nodes (touch now (add_endpoint id child)) in
    (put_child h walked n, total)

unfoldable pub record_from : List ℕ → String → ℕ → ℕ → Node → Node × ℕ
record_from [] id now nodes n = (n, nodes)
record_from (h ∷ chunks) id now nodes n =
    record_child h id now (record_from chunks id now) nodes n (find_child h (children n))

-- `record`.
unfoldable pub record_chain : List ℕ → String → ℕ → Trie → Trie
record_chain chunks id now t =
    let (root, nodes) = record_from chunks id now t.nodes (touch now t.root) in
    record { root = root; nodes = nodes }

abbrev pub is_empty : Children → Bool
is_empty nil = true
is_empty (cons h n cs) = false

-- The node without its expired subtrees, the count of nodes, and whether it is an expired leaf.
unfoldable mutual
  pub prune : ℕ → ℕ → ℕ → Node → Node × ℕ × Bool
  prune ttl now nodes (node cs es t) =
      let (kept, total) = prune_children ttl now nodes cs in
      (node kept es t, total, is_empty kept && ltb (t + ttl) now)

  pub prune_children : ℕ → ℕ → ℕ → Children → Children × ℕ
  prune_children ttl now nodes nil = (nil, nodes)
  prune_children ttl now nodes (cons h n cs) =
      let (kept, total, expired) = prune ttl now nodes n in
      let (rest, left) = prune_children ttl now (if expired then total - 1 else total) cs in
      (if expired then rest else cons h kept rest, left)

unfoldable pub prune_trie : ℕ → ℕ → Trie → Trie
prune_trie ttl now t =
    let (root, nodes, expired) = prune ttl now t.nodes t.root in
    record { root = root; nodes = nodes }
