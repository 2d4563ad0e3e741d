-- ===== src/Affinity/Trie/Nested.antt =====
-- affinity.go: an upstream that stands at a node stands at every node above it.
use breakwater.Base.{
  ℕ, ◌≡◌, refl, subst, ◌==◌, true, Bool-cases, Option-cases, inl, inr, List, [], ◌∷◌, some, String,
}
use breakwater.Affinity.Trie.{
  Node, node, Children, nil, cons, children, endpoints, contains, find_child, set_child, put_child,
  touch, lowest_hit, match_hit, match_child, match_from,
}

-- The endpoints of the node meet the condition, and below it each node's are among its parent's.
unfoldable mutual
  pub NodeNested : (String → Type 0) → Node → Type 0
  NodeNested P (node cs es t) =
      ((id : String) → contains id es ≡ true → P id) × AllNested (λ id. contains id es ≡ true) cs

  pub AllNested : (String → Type 0) → Children → Type 0
  AllNested P nil = Unit {0}
  AllNested P (cons h n cs) = NodeNested P n × AllNested P cs

pub AllNested-weaken :
    {P Q : String → Type 0} (cs : Children)
    → ((id : String) → P id → Q id)
    → AllNested P cs
    → AllNested Q cs
unfolding NodeNested
AllNested-weaken nil f a = tt
AllNested-weaken (cons h (node ds es t) cs) f a =
    ((λ id held. f id (a.0.0 id held), a.0.1), AllNested-weaken cs f a.1)

pub find_child-NodeNested :
    (P : String → Type 0) (h : ℕ) (cs : Children) (d : Node)
    → AllNested P cs
    → find_child h cs ≡ some d
    → NodeNested P d
unfolding NodeNested find_child
find_child-NodeNested P h nil d a e = cc
find_child-NodeNested P h (cons k n cs) d a e = elim (Bool-cases (k == h)) [
  | inl same ↦
      let held : some n ≡ some d = rw same at e in
      let eq : n ≡ d = cc in subst (NodeNested P) eq a.0
  | inr other ↦ find_child-NodeNested P h cs d a.1 (rw other at e)
]

set_child-AllNested :
    (P : String → Type 0) (h : ℕ) (c : Node) (cs : Children)
    → NodeNested P c
    → AllNested P cs
    → AllNested P (set_child h c cs)
unfolding NodeNested set_child
set_child-AllNested P h c nil n a = (n, tt)
set_child-AllNested P h c (cons k d cs) n a = elim (Bool-cases (k == h)) [
  | inl same ↦ rw same (n, a.1)
  | inr other ↦ rw other (a.0, set_child-AllNested P h c cs n a.1)
]

pub children-put_child :
    (h : ℕ) (c n : Node) → children (put_child h c n) ≡ set_child h c (children n)
unfolding put_child
children-put_child h c (node cs es t) = refl

pub endpoints-put_child : (h : ℕ) (c n : Node) → endpoints (put_child h c n) ≡ endpoints n
unfolding put_child
endpoints-put_child h c (node cs es t) = refl

pub put_child-AllNested :
    (P : String → Type 0) (h : ℕ) (c n : Node)
    → NodeNested P c
    → AllNested P (children n)
    → AllNested P (children (put_child h c n))
unfolding put_child
put_child-AllNested P h c (node cs es t) held a = set_child-AllNested P h c cs held a

pub NodeNested-touch :
    (P : String → Type 0) (now : ℕ) (n : Node) → NodeNested P n → NodeNested P (touch now n)
unfolding NodeNested touch
NodeNested-touch P now (node cs es t) a = a

-- A node with the endpoints of a nested one is nested when what is below it is.
pub NodeNested-rebuild :
    (P : String → Type 0) (n m : Node)
    → NodeNested P n
    → endpoints m ≡ endpoints n
    → AllNested (λ id. contains id (endpoints n) ≡ true) (children m)
    → NodeNested P m
unfolding NodeNested
NodeNested-rebuild P (node cs es t) (node ds fs u) a same below =
    (λ id held. a.0 id (rw same at held), rw same below)

pub NodeNested-endpoints :
    (P : String → Type 0) (n : Node)
    → NodeNested P n
    → (id : String) → contains id (endpoints n) ≡ true
    → P id
unfolding NodeNested
NodeNested-endpoints P (node cs es t) a = a.0

pub nil-AllNested : (P : String → Type 0) → AllNested P nil
unfolding NodeNested
nil-AllNested P = tt

pub NodeNested-children :
    (P : String → Type 0) (n : Node)
    → NodeNested P n
    → AllNested (λ id. contains id (endpoints n) ≡ true) (children n)
unfolding NodeNested
NodeNested-children P (node cs es t) a = a.1

pub endpoints-match_from :
    (chunks : List ℕ) (ids : List String) (now : ℕ) (n : Node)
    → endpoints (match_from chunks ids now n).0 ≡ endpoints n
unfolding match_from match_child match_hit
endpoints-match_from [] ids now n = refl
endpoints-match_from (h ∷ chunks) ids now n = elim (Option-cases (find_child h (children n))) [
  | inl e ↦ rw e refl
  | inr (d, e) ↦ elim (Option-cases (lowest_hit ids (endpoints d))) [
    | inl miss ↦ rw (e, miss) (endpoints-put_child h (touch now d) n)
    | inr (i, hit) ↦
        rw (e, hit) (endpoints-put_child h (match_from chunks ids now (touch now d)).0 n)
  ]
]

pub endpoints-touch : (now : ℕ) (n : Node) → endpoints (touch now n) ≡ endpoints n
unfolding touch
endpoints-touch now (node cs es t) = refl

pub match_from-AllNested :
    (chunks : List ℕ) (P : String → Type 0) (ids : List String) (now : ℕ) (n : Node)
    → AllNested P (children n)
    → AllNested P (children (match_from chunks ids now n).0)
unfolding match_from match_child match_hit
match_from-AllNested [] P ids now n a = a
match_from-AllNested (h ∷ chunks) P ids now n a = elim (Option-cases (find_child h (children n))) [
  | inl e ↦ rw e a
  | inr (d, e) ↦
      let held = NodeNested-touch P now d (find_child-NodeNested P h (children n) d a e) in
      let c = touch now d in
      elim (Option-cases (lowest_hit ids (endpoints d))) [
        | inl miss ↦ rw (e, miss) (put_child-AllNested P h c n held a)
        | inr (i, hit) ↦
            let walked = (match_from chunks ids now c).0 in
            rw (e, hit)
              (put_child-AllNested P h walked n
                (NodeNested-rebuild P c walked held (endpoints-match_from chunks ids now c) (
                  match_from-AllNested chunks (λ id. contains id (endpoints c) ≡ true) ids now c
                    (NodeNested-children P c held)))
                a)
      ]
]
