-- ===== src/Affinity/Index/Again.antt =====
-- affinity.go: the same request asked again goes to the same upstream.
use breakwater.Base.{
  ℕ, ◌≡◌, refl, ap, subst, true, false, Bool-cases, Option-cases, inl, inr, List, [], ◌∷◌, Option,
  none, some, String, lookup, lookup-insert_self, size, leb,
}
use breakwater.Base.Int.{ℤ}
use breakwater.Affinity.Trie.{node, nil, contains, Trie, match, record_chain, position, nth}
use breakwater.Affinity.Trie.Kept.{IsNested}
use breakwater.Affinity.Trie.Sound.{fresh-IsSound}
use breakwater.Affinity.Trie.Again.{Again, match-record_chain}
use breakwater.Affinity.Trie.Positions.{match-position, position-nth, position_first}
use breakwater.Affinity.Index.{
  Index, new_index, is_sweep_due, sweep_if_due, trie_for, record_choice, promoted, route,
  pick_chunks, chunk_hashes, pick, max_models, or_first,
}
use breakwater.Affinity.Index.Bounds.{
  IsBounded, lookup-IsSound, sweep_if_due-IsBounded, Call, run, IsWithin, run-IsWithin,
  new_index-IsWithin,
}

-- The candidate that a match chooses, and its place.
choice :
    (id : String) (ids : List String) (chunks : List ℕ) (now : ℕ) (t : Trie)
    → contains id ids ≡ false
    → let chosen = or_first (match chunks (id ∷ ids) now t).1 in
      (u : String) × (nth (id ∷ ids) chosen ≡ some u) × (position (id ∷ ids) u ≡ some chosen)
choice id ids chunks now t once = elim (Option-cases (match chunks (id ∷ ids) now t).1) [
  | inl miss ↦
      let first = position_first id ids once in
      (id, rw miss (position-nth (id ∷ ids) id 0 first), rw miss first)
  | inr (i, hit) ↦
      let (u, placed) = match-position chunks (id ∷ ids) now t i hit in
      (u, rw hit (position-nth (id ∷ ids) u i placed), rw hit placed)
]

Again-same :
    (ids : List String) (u : String) (best r : Option ℕ)
    (placed : position ids u ≡ some (or_first best))
    → Again ids u (or_first best) placed best r
    → or_first r ≡ or_first best
Again-same ids u none r placed again = elim (again.0 refl) [ inl e ↦ rw e refl | inr e ↦ rw e refl ]
Again-same ids u (some i) r placed again = rw (again.1 refl) refl

-- What a pick of a model with a trie writes, and what it answers when it is asked again.
route_again :
    (model id : String) (chunks : List ℕ) (ids : List String) (now later : ℕ) (x : Index) (t : Trie)
    → IsNested t
    → contains id ids ≡ false
    → let (y, answer) = route model chunks (id ∷ ids) now x (some t) in
      (u : Trie) × (lookup model y.models ≡ some u)
      × ((z : Index) → (route model chunks (id ∷ ids) later z (some u)).1 ≡ answer)
unfolding route record_choice
route_again model id chunks ids now later x t nested once =
    let (walked, best) = match chunks (id ∷ ids) now t in
    let chosen = or_first best in
    let (v, named, placed) = choice id ids chunks now t once in
    let u = record_chain chunks v now walked in
    let again =
      Again-same (id ∷ ids) v best (match chunks (id ∷ ids) later u).1 placed
        (match-record_chain (id ∷ ids) v chosen placed chunks now later t nested) in
    (u, rw named (lookup-insert_self model u x.models), λ z. ap promoted again)

after_route :
    (model id : String) (chunks : List ℕ) (ids : List String) (now later : ℕ) (x : Index) (t : Trie)
    → IsNested t
    → contains id ids ≡ false
    → let (y, answer) = route model chunks (id ∷ ids) now x (some t) in
      is_sweep_due later y.ttl y.swept_at ≡ false
      → (pick_chunks model chunks (id ∷ ids) later y).1 ≡ answer
unfolding pick_chunks trie_for sweep_if_due
after_route model id chunks ids now later x t nested once early =
    let y = (route model chunks (id ∷ ids) now x (some t)).0 in
    let (u, found, same) = route_again model id chunks ids now later x t nested once in
    rw (early, found) (same y)

after_refusal :
    (model id : String) (chunks : List ℕ) (ids : List String) (later : ℕ) (x : Index)
    → lookup model x.models ≡ none
    → leb max_models (size x.models) ≡ true
    → is_sweep_due later x.ttl x.swept_at ≡ false
    → (pick_chunks model chunks (id ∷ ids) later x).1 ≡ none
unfolding pick_chunks trie_for sweep_if_due route
after_refusal model id chunks ids later x missing full early = rw (early, missing, full) refl

pick_chunks_again :
    (model id : String) (chunks : List ℕ) (ids : List String) (now later : ℕ) (x : Index)
    → IsBounded x
    → contains id ids ≡ false
    → let (y, answer) = pick_chunks model chunks (id ∷ ids) now x in
      is_sweep_due later y.ttl y.swept_at ≡ false
      → (pick_chunks model chunks (id ∷ ids) later y).1 ≡ answer
unfolding pick_chunks trie_for
pick_chunks_again model id chunks ids now later x b once =
    let swept = sweep_if_due now x in
    let bounded = sweep_if_due-IsBounded now x b in
    elim (Option-cases (lookup model swept.models)) [
      | inr (t, found) ↦
          let sound = lookup-IsSound model swept.models t bounded.0 found in
          rw found (after_route model id chunks ids now later swept t sound.1 once)
      | inl missing ↦ elim (Bool-cases (leb max_models (size swept.models))) [
        | inr room ↦
            let t : Trie = record { root = node nil [] now; nodes = 0 } in
            rw (missing, room)
              (after_route model id chunks ids now later swept t (fresh-IsSound now).1 once)
        | inl full ↦
            rw (missing, full)
              (unfold route in after_refusal model id chunks ids later swept missing full)
      ]
    ]

-- After any calls of Pick on a new index, at any times, a pick that is repeated for the same model,
-- prompt and candidates gets the same answer, when no sweep is due at its time and the first candidate
-- is not listed twice: what it was routed to is what it is routed to again, whether the trie of the
-- model had room for the prompt or not.
pub pick_again :
    (sum : List ℕ → ℕ) (ttl : ℤ) (calls : List Call) (x y : Index)
    → (model id : String) (prompt : List ℕ) (ids : List String) (now later : ℕ)
    → run sum (new_index ttl) calls ≡ some x
    → contains id ids ≡ false
    → (pick sum model prompt (id ∷ ids) now (some x)).0 ≡ some y
    → is_sweep_due later y.ttl y.swept_at ≡ false
    → (pick sum model prompt (id ∷ ids) later (some y)).1
      ≡ (pick sum model prompt (id ∷ ids) now (some x)).1
unfolding pick
pick_again sum ttl calls x y model id prompt ids now later reached once picked early =
    let within =
      subst (IsWithin sum) reached
        (run-IsWithin sum (new_index ttl) calls (new_index-IsWithin sum ttl)) in
    let chunks = chunk_hashes sum prompt in
    let same : (pick_chunks model chunks (id ∷ ids) now x).0 ≡ y = cc in
    subst
      (λ z.
        is_sweep_due later z.ttl z.swept_at ≡ false
        → (pick_chunks model chunks (id ∷ ids) later z).1
          ≡ (pick_chunks model chunks (id ∷ ids) now x).1)
      same (pick_chunks_again model id chunks ids now later x within once) early
