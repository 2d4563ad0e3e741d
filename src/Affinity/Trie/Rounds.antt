-- ===== src/Affinity/Trie/Rounds.antt =====
-- affinity.go: one round of a match after a record.
use breakwater.Base.{
  ℕ, ◌+◌, ◌≡◌, refl, sym, ap, ◌∙◌, true, Bool-cases, Option-cases, inl, inr, ◌⊎◌, List, [], ◌∷◌,
  Option, none, some, String, str_eq_refl, String-cases, leb, ltb, if◌then◌else◌, arith,
}
use breakwater.Affinity.Trie.{
  Node, node, Children, nil, cons, children, endpoints, contains, find_child, set_child, put_child,
  touch, add_endpoint, position, lower, lowest_hit, deepest, match_hit, match_child, match_from,
  record_child, record_from, max_nodes,
}
use breakwater.Affinity.Trie.Nested.{
  NodeNested-endpoints, NodeNested-children, nil-AllNested, AllNested, AllNested-weaken,
  find_child-NodeNested, children-put_child, endpoints-touch,
}
use breakwater.Affinity.Trie.Kept.{children-add_endpoint, endpoints-record_from, children-touch}

find_child-set_child : (h : ℕ) (c : Node) (cs : Children) → find_child h (set_child h c cs) ≡ some c
unfolding find_child set_child
find_child-set_child h c nil = ground arith
find_child-set_child h c (cons k n cs) = ground (arith, find_child-set_child h c cs)

pub find_child-put_child : (h : ℕ) (c n : Node) → find_child h (children (put_child h c n)) ≡ some c
find_child-put_child h c n = rw (children-put_child h c n) (find_child-set_child h c (children n))

put_child-children :
    (h : ℕ) (c m n : Node)
    → children m ≡ children n
    → children (put_child h c m) ≡ children (put_child h c n)
put_child-children h c m n e =
    children-put_child h c m ∙ ap (set_child h c) e ∙ sym (children-put_child h c n)

-- A walk reads the children of its node only.
pub match_from-children :
    (chunks : List ℕ) (ids : List String) (now later : ℕ) (m n : Node)
    → children m ≡ children n
    → (match_from chunks ids now m).1 ≡ (match_from chunks ids later n).1
unfolding match_from match_child match_hit
match_from-children [] ids now later m n e = refl
match_from-children (h ∷ chunks) ids now later m n e =
    elim (Option-cases (find_child h (children n))) [
      | inl miss ↦ rw (e, miss) refl
      | inr (d, found) ↦ elim (Option-cases (lowest_hit ids (endpoints d))) [
        | inl cold ↦ rw (e, found, cold) refl
        | inr (i, hit) ↦
            let deeper =
              match_from-children chunks ids now later (touch now d) (touch later d)
                (children-touch now d ∙ sym (children-touch later d)) in
            rw (e, found, hit) (ap (λ b. some (deepest i b)) deeper)
      ]
    ]

pub record_from-children :
    (chunks : List ℕ) (id : String) (now nodes : ℕ) (m n : Node)
    → children m ≡ children n
    → children (record_from chunks id now nodes m).0
      ≡ children (record_from chunks id now nodes n).0
unfolding record_from record_child
record_from-children [] id now nodes m n e = e
record_from-children (h ∷ chunks) id now nodes m n e =
    elim (Option-cases (find_child h (children n))) [
      | inl miss ↦ elim (Bool-cases (leb max_nodes nodes)) [
        | inl full ↦ rw (e, miss, full) e
        | inr room ↦ rw (e, miss, room) (put_child-children h _ m n e)
      ]
      | inr (d, found) ↦ rw (e, found) (put_child-children h _ m n e)
    ]

-- One round of a match at a node whose child is known.
pub match_round :
    (h : ℕ) (chunks : List ℕ) (ids : List String) (now : ℕ) (c n : Node) (i : ℕ)
    → lowest_hit ids (endpoints c) ≡ some i
    → (match_from (h ∷ chunks) ids now (put_child h c n)).1
      ≡ some (deepest i (match_from chunks ids now c).1)
unfolding match_from match_child match_hit
match_round h chunks ids now c n i hit =
    rw (find_child-put_child h c n, hit)
      (ap (λ b. some (deepest i b))
        (match_from-children chunks ids now now (touch now c) c (children-touch now c)))

lower-none : (a b : Option ℕ) → lower a b ≡ none → (a ≡ none) × (b ≡ none)
unfolding lower
lower-none none b e = (refl, e)
lower-none (some i) none e = cc
lower-none (some i) (some j) e = ground (arith, e)

module _ (ids : List String) where
  abbrev pub IsAbsent : String → Type 0
  IsAbsent id = position ids id ≡ none

  pub lowest_hit-IsAbsent :
      (es : List String)
      → lowest_hit ids es ≡ none
      → (id : String) → contains id es ≡ true
      → IsAbsent id
  unfolding lowest_hit contains
  lowest_hit-IsAbsent [] h id held = cc
  lowest_hit-IsAbsent (e ∷ es) h id held =
      let (first, rest) = lower-none (position ids e) (lowest_hit ids es) h in
      elim (String-cases e id) [
        | inl same ↦ rw same at first
        | inr other ↦ lowest_hit-IsAbsent es rest id (rw other at held)
      ]

  absent_lowest_hit :
      (es : List String)
      → ((id : String) → contains id es ≡ true → IsAbsent id)
      → lowest_hit ids es ≡ none
  unfolding lowest_hit contains
  absent_lowest_hit [] h = refl
  absent_lowest_hit (e ∷ es) h =
      let rest = absent_lowest_hit es (λ id held. h id (ground (arith, held))) in
      rw (h e (rw (str_eq_refl e) refl), rest) (unfold lower in refl)

  module _ (u : String) (c : ℕ) (placed : position ids u ≡ some c) where
    added_to_cold :
        (n : Node)
        → lowest_hit ids (endpoints n) ≡ none
        → lowest_hit ids (endpoints (add_endpoint u n)) ≡ some c
    unfolding add_endpoint lowest_hit
    added_to_cold (node cs es t) cold = elim (Bool-cases (contains u es)) [
      | inl old ↦ let absent = lowest_hit-IsAbsent es cold u old in cc
      | inr new ↦ rw (new, placed, cold) (unfold lower in refl)
    ]

    -- The hit that a node has after the upstream is recorded at it; the same, if it was its.
    abbrev pub Hits : List String → ℕ → Type 0
    Hits es i = (j : ℕ) × (lowest_hit ids es ≡ some j) × (i ≡ c → j ≡ c)

    pub added_to_hit :
        (n : Node) (i : ℕ)
        → lowest_hit ids (endpoints n) ≡ some i
        → Hits (endpoints (add_endpoint u n)) i
    unfolding add_endpoint lowest_hit
    added_to_hit (node cs es t) i hit = elim (Bool-cases (contains u es)) [
      | inl old ↦ (i, rw old hit, λ e. e)
      | inr new ↦ (
        if ltb c i then c else i,
        rw (new, placed, hit) (unfold lower in ground arith),
        λ e. ground (arith, e),
      )
    ]

    abbrev pub IsNoneOr : Option ℕ → Type 0
    IsNoneOr b = (b ≡ none) ⊎ (b ≡ some c)

    pub deepest_same : (b : Option ℕ) → IsNoneOr b → some (deepest c b) ≡ some c
    unfolding deepest
    deepest_same b (inl e) = rw e refl
    deepest_same b (inr e) = rw e refl

    -- One round after a record: the recorded child hits.
    pub round_again :
        (h : ℕ) (chunks : List ℕ) (later now nodes : ℕ) (d n : Node)
        → IsNoneOr (match_from chunks ids later (record_from chunks u now nodes d).0).1
        → lowest_hit ids (endpoints d) ≡ some c
        → (match_from (h ∷ chunks) ids later (put_child h (record_from chunks u now nodes d).0 n)).1
          ≡ some c
    round_again h chunks later now nodes d n rest hit =
        let r = (record_from chunks u now nodes d).0 in
        let same : lowest_hit ids (endpoints r) ≡ some c =
          ap (lowest_hit ids) (endpoints-record_from chunks u now nodes d) ∙ hit in
        match_round h chunks ids later r n c same
        ∙ deepest_same (match_from chunks ids later r).1 rest

    pub stamped_hit :
        (now : ℕ) (d : Node)
        → lowest_hit ids (endpoints d) ≡ none
        → lowest_hit ids (endpoints (touch now (add_endpoint u d))) ≡ some c
    stamped_hit now d cold =
        ap (lowest_hit ids) (endpoints-touch now (add_endpoint u d)) ∙ added_to_cold d cold

    pub fresh : ℕ → Node
    fresh now = node nil (u ∷ []) now

    pub fresh-AllNested : (now : ℕ) → AllNested IsAbsent (children (fresh now))
    unfolding fresh
    fresh-AllNested now = nil-AllNested IsAbsent

    fresh_hit : (now : ℕ) → lowest_hit ids (endpoints (fresh now)) ≡ some c
    unfolding fresh lowest_hit
    fresh_hit now = rw placed (unfold lower in refl)

    pub record_missing :
        (h : ℕ) (chunks : List ℕ) (later now nodes : ℕ) (n : Node)
        → find_child h (children n) ≡ none
        → IsNoneOr
            (match_from chunks ids later (record_from chunks u now (nodes + 1) (fresh now)).0).1
        → IsNoneOr (match_from (h ∷ chunks) ids later (record_from (h ∷ chunks) u now nodes n).0).1
    unfolding record_from record_child fresh
    record_missing h chunks later now nodes n miss rest = elim (Bool-cases (leb max_nodes nodes)) [
      | inl full ↦ rw (miss, full) (inl (unfold match_from match_child in rw miss refl))
      | inr room ↦
          rw (miss, room)
            (inr (round_again h chunks later now (nodes + 1) (fresh now) n rest (fresh_hit now)))
    ]

    -- Below a node that no candidate stands below, a recorded chain matches the recorded upstream.
    pub match_from-record_cold :
        (chunks : List ℕ) (now later nodes : ℕ) (n : Node)
        → AllNested IsAbsent (children n)
        → IsNoneOr (match_from chunks ids later (record_from chunks u now nodes n).0).1
    unfolding record_from record_child
    match_from-record_cold [] now later nodes n a = inl (unfold match_from in refl)
    match_from-record_cold (h ∷ chunks) now later nodes n a =
        elim (Option-cases (find_child h (children n))) [
          | inl miss ↦ record_missing h chunks later now nodes n miss (
              match_from-record_cold chunks now later (nodes + 1) (fresh now) (fresh-AllNested now))
          | inr (d, found) ↦
              let held = find_child-NodeNested IsAbsent h (children n) d a found in
              let absent = NodeNested-endpoints IsAbsent d held in
              let e = touch now (add_endpoint u d) in
              let same = children-touch now (add_endpoint u d) ∙ children-add_endpoint u d in
              let below : AllNested IsAbsent (children e) =
                rw same
                  (AllNested-weaken (children d) absent (NodeNested-children IsAbsent d held)) in
              rw found (
                inr (
                  round_again h chunks later now nodes e n
                    (match_from-record_cold chunks now later nodes e below)
                    (stamped_hit now d (absent_lowest_hit (endpoints d) absent))))
        ]
