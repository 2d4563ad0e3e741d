-- ===== src/Affinity/Trie/Kept.antt =====
-- affinity.go: what keeps a trie nested.
use breakwater.Base.{
  ℕ, ◌+◌, ◌-◌, ◌≡◌, refl, subst, true, Bool-cases, Option-cases, inl, inr, List, [], ◌∷◌, String,
  String-cases, str_eq_refl, leb, arith,
}
use breakwater.Affinity.Trie.{
  Node, node, Children, nil, cons, children, endpoints, Trie, contains, find_child, touch,
  add_endpoint, match, record_child, record_from, record_chain, prune, prune_children, prune_trie,
  max_nodes,
}
use breakwater.Affinity.Trie.Nested.{
  NodeNested, AllNested, AllNested-weaken, find_child-NodeNested, endpoints-put_child,
  put_child-AllNested, NodeNested-children, NodeNested-touch, NodeNested-rebuild,
  match_from-AllNested,
}

pub endpoints-record_from :
    (chunks : List ℕ) (id : String) (now nodes : ℕ) (n : Node)
    → endpoints (record_from chunks id now nodes n).0 ≡ endpoints n
unfolding record_from record_child
endpoints-record_from [] id now nodes n = refl
endpoints-record_from (h ∷ chunks) id now nodes n =
    elim (Option-cases (find_child h (children n))) [
      | inl e ↦ elim (Bool-cases (leb max_nodes nodes)) [
        | inl full ↦ rw (e, full) refl
        | inr room ↦
            let walked = (record_from chunks id now (nodes + 1) (node nil (id ∷ []) now)).0 in
            rw (e, room) (endpoints-put_child h walked n)
      ]
      | inr (d, e) ↦
          let walked = (record_from chunks id now nodes (touch now (add_endpoint id d))).0 in
          rw e (endpoints-put_child h walked n)
    ]

add_endpoint-NodeNested :
    (P : String → Type 0) (id : String) (n : Node)
    → P id
    → NodeNested P n
    → NodeNested P (add_endpoint id n)
unfolding NodeNested add_endpoint contains
add_endpoint-NodeNested P id (node cs es t) p a = elim (Bool-cases (contains id es)) [
  | inl old ↦ rw old a
  | inr new ↦ rw new (
    (λ e held. elim (String-cases id e) [
      | inl same ↦ subst P same p
      | inr other ↦ a.0 e (ground (arith, held, other))
    ]),
    AllNested-weaken cs (λ e held. ground (arith, held)) a.1,
  )
]

fresh-NodeNested :
    (P : String → Type 0) (id : String) (now : ℕ) → P id → NodeNested P (node nil (id ∷ []) now)
unfolding NodeNested contains
fresh-NodeNested P id now p = (
  (λ e held. elim (String-cases id e) [
    | inl same ↦ subst P same p
    | inr other ↦ ground (arith, held, other)
  ]),
  tt,
)

contains-fresh : (id : String) → contains id (id ∷ []) ≡ true
unfolding contains
contains-fresh id = rw (str_eq_refl id) refl

contains-stamped :
    (id : String) (now : ℕ) (d : Node)
    → contains id (endpoints (touch now (add_endpoint id d))) ≡ true
unfolding contains touch add_endpoint
contains-stamped id now (node cs es t) = elim (Bool-cases (contains id es)) [
  | inl old ↦ rw old old
  | inr new ↦ rw (new, str_eq_refl id) refl
]

record_from-AllNested :
    (chunks : List ℕ) (P : String → Type 0) (id : String) (now nodes : ℕ) (n : Node)
    → P id
    → AllNested P (children n)
    → AllNested P (children (record_from chunks id now nodes n).0)
unfolding record_from record_child
record_from-AllNested [] P id now nodes n p a = a
record_from-AllNested (h ∷ chunks) P id now nodes n p a =
    let below = λ (k : ℕ). λ (c : Node). λ (held : NodeNested P c).
      λ (own : contains id (endpoints c) ≡ true).
        NodeNested-rebuild P c (record_from chunks id now k c).0 held
          (endpoints-record_from chunks id now k c)
          (record_from-AllNested chunks (λ e. contains e (endpoints c) ≡ true) id now k c own
            (NodeNested-children P c held)) in
    elim (Option-cases (find_child h (children n))) [
      | inl e ↦ elim (Bool-cases (leb max_nodes nodes)) [
        | inl full ↦ rw (e, full) a
        | inr room ↦
            let c = node nil (id ∷ []) now in
            rw (e, room)
              (put_child-AllNested P h (record_from chunks id now (nodes + 1) c).0 n
                (below (nodes + 1) c (fresh-NodeNested P id now p) (contains-fresh id)) a)
      ]
      | inr (d, e) ↦
          let c = touch now (add_endpoint id d) in
          let held =
            NodeNested-touch P now (add_endpoint id d)
              (add_endpoint-NodeNested P id d p (find_child-NodeNested P h (children n) d a e)) in
          rw e (
            put_child-AllNested P h (record_from chunks id now nodes c).0 n
              (below nodes c held (contains-stamped id now d)) a)
    ]

-- Pruning keeps the endpoints of what it keeps.
mutual
  unfolding NodeNested prune

  prune-NodeNested :
      (P : String → Type 0) (ttl now nodes : ℕ) (n : Node)
      → NodeNested P n
      → NodeNested P (prune ttl now nodes n).0
  prune-NodeNested P ttl now nodes (node cs es t) a =
      (a.0, prune_children-AllNested (λ id. contains id es ≡ true) ttl now nodes cs a.1)

  prune_children-AllNested :
      (P : String → Type 0) (ttl now nodes : ℕ) (cs : Children)
      → AllNested P cs
      → AllNested P (prune_children ttl now nodes cs).0
  prune_children-AllNested P ttl now nodes nil a = tt
  prune_children-AllNested P ttl now nodes (cons h n cs) a =
      let (kept, total, expired) = prune ttl now nodes n in
      let first = prune-NodeNested P ttl now nodes n a.0 in
      elim (Bool-cases expired) [
        | inl e ↦ rw e (prune_children-AllNested P ttl now (total - 1) cs a.1)
        | inr e ↦ rw e (first, prune_children-AllNested P ttl now total cs a.1)
      ]

abbrev pub Anything : String → Type 0
Anything id = Unit {0}

-- What stands anywhere below the root stands at every node above, up to the root's children.
abbrev pub IsNested : Trie → Type 0
IsNested t = AllNested Anything (children t.root)

pub match-IsNested :
    (chunks : List ℕ) (ids : List String) (now : ℕ) (t : Trie)
    → IsNested t
    → IsNested (match chunks ids now t).0
unfolding match
match-IsNested chunks ids now t a = match_from-AllNested chunks Anything ids now t.root a

pub children-add_endpoint : (id : String) (n : Node) → children (add_endpoint id n) ≡ children n
unfolding add_endpoint
children-add_endpoint id (node cs es t) = refl

pub children-touch : (now : ℕ) (n : Node) → children (touch now n) ≡ children n
unfolding touch
children-touch now (node cs es t) = refl

pub record_chain-IsNested :
    (chunks : List ℕ) (id : String) (now : ℕ) (t : Trie)
    → IsNested t
    → IsNested (record_chain chunks id now t)
unfolding record_chain
record_chain-IsNested chunks id now t a =
    record_from-AllNested chunks Anything id now t.nodes (touch now t.root) tt
      (rw (children-touch now t.root) a)

prune_root-AllNested :
    (ttl now nodes : ℕ) (n : Node)
    → AllNested Anything (children n)
    → AllNested Anything (children (prune ttl now nodes n).0)
unfolding prune
prune_root-AllNested ttl now nodes (node cs es t) a =
    prune_children-AllNested Anything ttl now nodes cs a

pub prune_trie-IsNested : (ttl now : ℕ) (t : Trie) → IsNested t → IsNested (prune_trie ttl now t)
unfolding prune_trie
prune_trie-IsNested ttl now t a = prune_root-AllNested ttl now t.nodes t.root a

pub fresh-IsNested : (now : ℕ) → IsNested (record { root = node nil [] now; nodes = 0 })
unfolding NodeNested
fresh-IsNested now = tt
