-- ===== src/Affinity/Trie/Again.antt =====
-- affinity.go: a prompt that was just recorded matches the upstream it was recorded for.
use breakwater.Base.{
  ℕ, ◌+◌, ◌≡◌, refl, ap, ◌∙◌, Option-cases, inl, inr, List, [], ◌∷◌, Option, none, some, true,
  String,
}
use breakwater.Affinity.Trie.{
  Node, children, endpoints, Trie, contains, find_child, put_child, touch, add_endpoint, position,
  lowest_hit, deepest, match_hit, match_child, match_from, match, record_child, record_from,
  record_chain,
}
use breakwater.Affinity.Trie.Nested.{
  NodeNested-children, AllNested, AllNested-weaken, find_child-NodeNested, endpoints-match_from,
  endpoints-touch,
}
use breakwater.Affinity.Trie.Kept.{
  endpoints-record_from, children-touch, children-add_endpoint, Anything, IsNested,
}
use breakwater.Affinity.Trie.Rounds.{
  find_child-put_child, match_from-children, record_from-children, match_round, IsAbsent,
  lowest_hit-IsAbsent, added_to_hit, IsNoneOr, deepest_same, round_again, stamped_hit,
  record_missing, match_from-record_cold, fresh, fresh-AllNested,
}

module _ (h : ℕ) (chunks : List ℕ) (ids : List String) (now : ℕ) (n : Node) where
  match_from_missing :
      find_child h (children n) ≡ none → match_from (h ∷ chunks) ids now n ≡ (n, none)
  unfolding match_from match_child
  match_from_missing miss = rw miss refl

  module _ (d : Node) (found : find_child h (children n) ≡ some d) where
    match_from_cold :
        lowest_hit ids (endpoints d) ≡ none
        → match_from (h ∷ chunks) ids now n ≡ (put_child h (touch now d) n, none)
    unfolding match_from match_child match_hit
    match_from_cold cold = rw (found, cold) refl

    match_from_hit :
        (i : ℕ)
        → lowest_hit ids (endpoints d) ≡ some i
        → let (walked, deeper) = match_from chunks ids now (touch now d) in
          match_from (h ∷ chunks) ids now n ≡ (put_child h walked n, some (deepest i deeper))
    unfolding match_from match_child match_hit
    match_from_hit i hit = rw (found, hit) refl

record_from_found :
    (h : ℕ) (chunks : List ℕ) (u : String) (now nodes : ℕ) (d n : Node)
    → (record_from (h ∷ chunks) u now nodes (put_child h d n)).0
      ≡ put_child h
          (record_from chunks u now nodes (touch now (add_endpoint u d))).0
          (put_child h d n)
unfolding record_from record_child
record_from_found h chunks u now nodes d n = rw (find_child-put_child h d n) refl

module _ (ids : List String) (u : String) (c : ℕ) (placed : position ids u ≡ some c) where
  -- What a match finds after the first match gave `best` and the upstream was recorded.
  abbrev pub Again : Option ℕ → Option ℕ → Type 0
  Again best r = (best ≡ none → IsNoneOr ids u c placed r) × (best ≡ some c → r ≡ some c)

  Again-cold : (best r : Option ℕ) → best ≡ none → IsNoneOr ids u c placed r → Again best r
  Again-cold best r miss found = ((λ e. found), (λ e. cc))

  hit-Again :
      (i j : ℕ) (deeper r : Option ℕ)
      → (i ≡ c → j ≡ c)
      → Again deeper r
      → Again (some (deepest i deeper)) (some (deepest j r))
  unfolding deepest
  hit-Again i j none r same again = (
    (λ e. cc),
    λ e. let own : i ≡ c = cc in rw (same own) (deepest_same ids u c placed r (again.0 refl)),
  )
  hit-Again i j (some k) r same again = ((λ e. cc), λ e. rw (again.1 e) refl)

  pub match_from-record_from :
      (chunks : List ℕ) (P : String → Type 0) (now later nodes : ℕ) (n : Node)
      → AllNested P (children n)
      → let (walked, best) = match_from chunks ids now n in
        Again best (match_from chunks ids later (record_from chunks u now nodes walked).0).1
  match_from-record_from [] P now later nodes n a =
      unfold match_from record_from in Again-cold none none refl (inl refl)
  match_from-record_from (h ∷ chunks) P now later nodes n a =
      elim (Option-cases (find_child h (children n))) [
        | inl miss ↦ rw (match_from_missing h chunks ids now n miss) (
            Again-cold none
              (match_from (h ∷ chunks) ids later (record_from (h ∷ chunks) u now nodes n).0).1 refl
              (record_missing ids u c placed h chunks later now nodes n miss (
                match_from-record_cold ids u c placed chunks now later (nodes + 1)
                  (fresh ids u c placed now) (fresh-AllNested ids u c placed now))))
        | inr (d, found) ↦ elim (Option-cases (lowest_hit ids (endpoints d))) [
          | inl cold ↦
              let t = touch now d in
              let e = touch now (add_endpoint u t) in
              let absent = lowest_hit-IsAbsent ids (endpoints d) cold in
              let held = find_child-NodeNested P h (children n) d a found in
              let same =
                children-touch now (add_endpoint u t)
                ∙ children-add_endpoint u t
                ∙ children-touch now d in
              let below : AllNested (IsAbsent ids) (children e) =
                rw same (AllNested-weaken (children d) absent (NodeNested-children P d held)) in
              let here : lowest_hit ids (endpoints t) ≡ none =
                ap (lowest_hit ids) (endpoints-touch now d) ∙ cold in
              let next =
                round_again ids u c placed h chunks later now nodes e (put_child h t n)
                  (match_from-record_cold ids u c placed chunks now later nodes e below)
                  (stamped_hit ids u c placed now t here) in
              rw
                (
                  match_from_cold h chunks ids now n d found cold,
                  record_from_found h chunks u now nodes t n,
                )
                ((λ e. inr next), (λ e. cc))
          | inr (i, hit) ↦
              let t = touch now d in
              let w = match_from chunks ids now t in
              let e = touch now (add_endpoint u w.0) in
              let r = (record_from chunks u now nodes e).0 in
              let held = find_child-NodeNested P h (children n) d a found in
              let below : AllNested (λ id. contains id (endpoints d) ≡ true) (children t) =
                rw (children-touch now d) (NodeNested-children P d held) in
              let here : lowest_hit ids (endpoints w.0) ≡ some i =
                ap (lowest_hit ids) (endpoints-match_from chunks ids now t ∙ endpoints-touch now d)
                ∙ hit in
              let (j, now_hit, own) = added_to_hit ids u c placed w.0 i here in
              let there : lowest_hit ids (endpoints r) ≡ some j =
                ap (lowest_hit ids) (
                  endpoints-record_from chunks u now nodes e
                  ∙ endpoints-touch now (add_endpoint u w.0))
                ∙ now_hit in
              let deeper =
                match_from-children chunks ids later later r (record_from chunks u now nodes w.0).0
                  (record_from-children chunks u now nodes e w.0
                    (children-touch now (add_endpoint u w.0) ∙ children-add_endpoint u w.0)) in
              let again =
                match_from-record_from chunks (λ id. contains id (endpoints d) ≡ true) now later
                  nodes t below in
              let next =
                hit-Again i j w.1 (match_from chunks ids later r).1 own (rw deeper again) in
              rw
                (
                  match_from_hit h chunks ids now n d found i hit,
                  record_from_found h chunks u now nodes w.0 n,
                  match_round h chunks ids later r (put_child h w.0 n) j there,
                )
                next
        ]
      ]

  -- A match after a match and a record for the upstream it chose.
  pub match-record_chain :
      (chunks : List ℕ) (now later : ℕ) (t : Trie)
      → IsNested t
      → let (walked, best) = match chunks ids now t in
        Again best (match chunks ids later (record_chain chunks u now walked)).1
  unfolding match record_chain
  match-record_chain chunks now later t a =
      let walked = (match_from chunks ids now t.root).0 in
      let stamped =
        match_from-children chunks ids later later
          (record_from chunks u now t.nodes (touch now walked)).0
          (record_from chunks u now t.nodes walked).0
          (record_from-children chunks u now t.nodes (touch now walked) walked
            (children-touch now walked)) in
      rw stamped (match_from-record_from chunks Anything now later t.nodes t.root a)
