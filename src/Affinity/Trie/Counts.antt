-- ===== src/Affinity/Trie/Counts.antt =====
-- affinity.go: the node count of a trie through its walks.
use breakwater.Base.{
  ℕ, suc, ◌+◌, ◌-◌, ◌≤◌, ◌≡◌, refl, sym, ◌∙◌, true, Bool-cases, Option-cases, inl, inr, List, [],
  ◌∷◌, Option, none, some, String, leb, if◌then◌else◌, arith,
}
use breakwater.Affinity.Trie.{
  Node, node, Children, nil, cons, children, endpoints, Trie, find_child, set_child, put_child,
  touch, add_endpoint, lowest_hit, match_hit, match_child, match_from, match, record_child,
  record_from, record_chain, is_empty, prune, prune_children, prune_trie, max_nodes,
}

-- The nodes below a node.
mutual
  pub count : Node → ℕ
  count (node cs es t) = count_children cs

  pub count_children : Children → ℕ
  count_children nil = 0
  count_children (cons h n cs) = suc (count n + count_children cs)

count-touch : (now : ℕ) (n : Node) → count (touch now n) ≡ count n
unfolding count touch
count-touch now (node cs es t) = refl

count-add_endpoint : (id : String) (n : Node) → count (add_endpoint id n) ≡ count n
unfolding count add_endpoint
count-add_endpoint id (node cs es t) = refl

count-set_child :
    (h : ℕ) (c d : Node) (cs : Children)
    → find_child h cs ≡ some d
    → count_children (set_child h c cs) + count d ≡ count_children cs + count c
unfolding count set_child find_child
count-set_child h c d nil e = cc
count-set_child h c d (cons k n cs) e = ground (arith, count-set_child h c d cs)

count-set_child_fresh :
    (h : ℕ) (c : Node) (cs : Children)
    → find_child h cs ≡ none
    → count_children (set_child h c cs) ≡ suc (count_children cs + count c)
unfolding count set_child find_child
count-set_child_fresh h c nil e = omega arith
count-set_child_fresh h c (cons k n cs) e = ground (arith, count-set_child_fresh h c cs)

count-put_child :
    (h : ℕ) (c d n : Node)
    → find_child h (children n) ≡ some d
    → count (put_child h c n) + count d ≡ count n + count c
unfolding count put_child
count-put_child h c d (node cs es t) e = count-set_child h c d cs e

count-put_child_fresh :
    (h : ℕ) (c n : Node)
    → find_child h (children n) ≡ none
    → count (put_child h c n) ≡ suc (count n + count c)
unfolding count put_child
count-put_child_fresh h c (node cs es t) e = count-set_child_fresh h c cs e

count-match_hit :
    (h : ℕ) (below : Node → Node × Option ℕ) (n c d : Node) (hit : Option ℕ)
    → find_child h (children n) ≡ some d
    → count c ≡ count d
    → count (below c).0 ≡ count c
    → count (match_hit h below n c hit).0 ≡ count n
unfolding match_hit
count-match_hit h below n c d none e same kept = omega (arith, count-put_child h c d n e)
count-match_hit h below n c d (some hit) e same kept =
    omega (arith, count-put_child h (below c).0 d n e)

count-match_from :
    (chunks : List ℕ) (ids : List String) (now : ℕ) (n : Node)
    → count (match_from chunks ids now n).0 ≡ count n
unfolding match_from match_child
count-match_from [] ids now n = refl
count-match_from (h ∷ chunks) ids now n = elim (Option-cases (find_child h (children n))) [
  | inl e ↦ rw e refl
  | inr (d, e) ↦
      let c = touch now d in
      rw e (
        count-match_hit h (match_from chunks ids now) n c d (lowest_hit ids (endpoints d)) e
          (count-touch now d) (count-match_from chunks ids now c))
]

-- A walk of `record` counts each node that it creates, and stops at the ceiling.
pub count-record_from :
    (chunks : List ℕ) (id : String) (now nodes : ℕ) (n : Node)
    → nodes ≤ max_nodes
    → let (walked, total) = record_from chunks id now nodes n in
      (total + count n ≡ nodes + count walked) × (total ≤ max_nodes)
unfolding record_from record_child
count-record_from [] id now nodes n le = (omega arith, le)
count-record_from (h ∷ chunks) id now nodes n le = elim (Option-cases (find_child h (children n))) [
  | inl e ↦ elim (Bool-cases (leb max_nodes nodes)) [
    | inl full ↦ rw (e, full) (refl, le)
    | inr room ↦
        let fresh = node nil (id ∷ []) now in
        let empty : count fresh ≡ 0 = unfold count in refl in
        let (total, top) =
          count-record_from chunks id now (nodes + 1) fresh (ground (arith, room)) in
        let put = count-put_child_fresh h (record_from chunks id now (nodes + 1) fresh).0 n e in
        rw (e, room) (omega (arith, total, put, empty), top)
  ]
  | inr (d, e) ↦
      let c = touch now (add_endpoint id d) in
      let same = count-touch now (add_endpoint id d) ∙ count-add_endpoint id d in
      let (total, top) = count-record_from chunks id now nodes c le in
      let put = count-put_child h (record_from chunks id now nodes c).0 d n e in
      rw e (omega (arith, total, put, same), top)
]

count-is_empty : (cs : Children) → is_empty cs ≡ true → count_children cs ≡ 0
unfolding count
count-is_empty nil e = refl
count-is_empty (cons h n cs) e = cc

-- Pruning takes off the count what it takes off the trie; an expired leaf has nothing below it.
mutual
  unfolding prune count

  pub count-prune :
      (ttl now nodes : ℕ) (n : Node)
      → count n ≤ nodes
      → let (kept, total, expired) = prune ttl now nodes n in
        (total + count n ≡ nodes + count kept) × (expired ≡ true → count kept ≡ 0)
  count-prune ttl now nodes (node cs es t) le = (
    count-prune_children ttl now nodes cs le,
    λ e. count-is_empty (prune_children ttl now nodes cs).0 (ground (arith, e)),
  )

  count-prune_children :
      (ttl now nodes : ℕ) (cs : Children)
      → count_children cs ≤ nodes
      → let (kept, total) = prune_children ttl now nodes cs in
        total + count_children cs ≡ nodes + count_children kept
  count-prune_children ttl now nodes nil le = refl
  count-prune_children ttl now nodes (cons h n cs) le =
      let (kept, total, expired) = prune ttl now nodes n in
      let (first, leaf) = count-prune ttl now nodes n (omega arith) in
      elim (Bool-cases expired) [
        | inl e ↦
            let none = leaf e in
            rw e (
              let rest = count-prune_children ttl now (total - 1) cs (omega (arith, first)) in
              omega (arith, rest, first, none))
        | inr e ↦ rw e (
            let rest = count-prune_children ttl now total cs (omega (arith, first)) in
            omega (arith, rest, first))
      ]

mutual
  unfolding prune

  prune-le : (ttl now nodes : ℕ) (n : Node) → (prune ttl now nodes n).1 ≤ nodes
  prune-le ttl now nodes (node cs es t) = prune_children-le ttl now nodes cs

  prune_children-le :
      (ttl now nodes : ℕ) (cs : Children) → (prune_children ttl now nodes cs).1 ≤ nodes
  prune_children-le ttl now nodes nil = omega arith
  prune_children-le ttl now nodes (cons h n cs) =
      let (kept, total, expired) = prune ttl now nodes n in
      let first = prune-le ttl now nodes n in
      let rest = prune_children-le ttl now (if expired then total - 1 else total) cs in
      elim (Bool-cases expired) [
        | inl e ↦ let less = rw e at rest in rw e (omega (arith, less, first))
        | inr e ↦ let less = rw e at rest in rw e (omega (arith, less, first))
      ]

-- The count of the trie is the number of its nodes, below the ceiling.
abbrev pub IsCounted : Trie → Type 0
IsCounted t = (t.nodes ≡ count t.root) × (t.nodes ≤ max_nodes)

pub fresh-IsCounted : (now : ℕ) → IsCounted (record { root = node nil [] now; nodes = 0 })
unfolding count
fresh-IsCounted now = (refl, omega arith)

pub match-IsCounted :
    (chunks : List ℕ) (ids : List String) (now : ℕ) (t : Trie)
    → IsCounted t
    → IsCounted (match chunks ids now t).0
unfolding match
match-IsCounted chunks ids now t (same, below) =
    (same ∙ sym (count-match_from chunks ids now t.root), below)

pub record_chain-IsCounted :
    (chunks : List ℕ) (id : String) (now : ℕ) (t : Trie)
    → IsCounted t
    → IsCounted (record_chain chunks id now t)
unfolding record_chain
record_chain-IsCounted chunks id now t (same, below) =
    let (total, top) = count-record_from chunks id now t.nodes (touch now t.root) below in
    (omega (arith, total, same, count-touch now t.root), top)

pub prune_trie-IsCounted : (ttl now : ℕ) (t : Trie) → IsCounted t → IsCounted (prune_trie ttl now t)
unfolding prune_trie
prune_trie-IsCounted ttl now t (same, below) =
    let (total, leaf) = count-prune ttl now t.nodes t.root (omega (arith, same)) in
    let fewer = prune-le ttl now t.nodes t.root in
    (omega (arith, total, same), omega (arith, fewer, below))
