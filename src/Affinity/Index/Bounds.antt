-- ===== src/Affinity/Index/Bounds.antt =====
-- affinity.go: the index stays within its ceilings.
use breakwater.Base.{
  ℕ, ◌≤◌, ◌≡◌, refl, subst, Bool-cases, Option-cases, inl, inr, List, [], ◌∷◌, Option, none, some,
  String, str_eq, Assoc, lookup, insert, size, size-insert, size-insert_held, leb, arith,
}
use breakwater.Base.Int.{ℤ, pos, ltb_ℤ}
use breakwater.Affinity.Trie.{
  node, nil, children, Trie, match, prune_trie, is_empty, max_nodes, nth,
}
use breakwater.Affinity.Trie.Counts.{count}
use breakwater.Affinity.Trie.Sound.{
  fresh-IsSound, IsSound, match-IsSound, record_chain-IsSound, prune_trie-IsSound,
}
use breakwater.Affinity.Index.{
  Index, new_index, sweep_models, sweep, sweep_if_due, trie_for, record_choice, route, is_sweep_due,
  pick_chunks, chunk_hashes, pick, max_models, or_first,
}

abbrev pub AllSound : Assoc Trie → Type 0
AllSound [] = Unit {0}
AllSound ((model, t) ∷ models) = IsSound t × AllSound models

pub lookup-IsSound :
    (model : String) (models : Assoc Trie) (t : Trie)
    → AllSound models
    → lookup model models ≡ some t
    → IsSound t
unfolding lookup
lookup-IsSound model [] t all e = cc
lookup-IsSound model ((m, u) ∷ models) t all e = elim (Bool-cases (str_eq m model)) [
  | inl same ↦ let held = rw same at e in ground (arith, held, all.0)
  | inr other ↦ lookup-IsSound model models t all.1 (rw other at e)
]

insert-AllSound :
    (model : String) (models : Assoc Trie) (t : Trie)
    → IsSound t
    → AllSound models
    → AllSound (insert model t models)
unfolding insert
insert-AllSound model [] t c all = (c, tt)
insert-AllSound model ((m, u) ∷ models) t c all = elim (Bool-cases (str_eq m model)) [
  | inl same ↦ rw same (c, all.1)
  | inr other ↦ rw other (all.0, insert-AllSound model models t c all.1)
]

sweep_models-AllSound :
    (ttl now : ℕ) (models : Assoc Trie)
    → AllSound models
    → AllSound (sweep_models ttl now models) × (size (sweep_models ttl now models) ≤ size models)
unfolding sweep_models size
sweep_models-AllSound ttl now [] all = (tt, omega arith)
sweep_models-AllSound ttl now ((m, t) ∷ models) all =
    let (rest, fewer) = sweep_models-AllSound ttl now models all.1 in
    let kept = prune_trie-IsSound ttl now t all.0 in
    elim (Bool-cases (is_empty (children (prune_trie ttl now t).root))) [
      | inl e ↦ rw e (rest, omega (arith, fewer))
      | inr e ↦ rw e ((kept, rest), omega (arith, fewer))
    ]

abbrev pub IsBounded : Index → Type 0
IsBounded x = AllSound x.models × (size x.models ≤ max_models)

pub sweep_if_due-IsBounded : (now : ℕ) (x : Index) → IsBounded x → IsBounded (sweep_if_due now x)
unfolding sweep_if_due sweep
sweep_if_due-IsBounded now x b = elim (Bool-cases (is_sweep_due now x.ttl x.swept_at)) [
  | inl due ↦
      let (all, fewer) = sweep_models-AllSound x.ttl now x.models b.0 in
      let below = b.1 in rw due (all, omega (arith, fewer, below))
  | inr early ↦ rw early b
]

record_choice-IsSound :
    (chunks : List ℕ) (now : ℕ) (choice : Option String) (t : Trie)
    → IsSound t
    → IsSound (record_choice chunks now choice t)
unfolding record_choice
record_choice-IsSound chunks now none t c = c
record_choice-IsSound chunks now (some id) t c = record_chain-IsSound chunks id now t c

-- What a pick writes: a sound trie under its model.
route-IsBounded :
    (model : String) (chunks : List ℕ) (ids : List String) (now : ℕ) (x : Index) (t : Trie)
    → IsBounded x
    → IsSound t
    → size (insert model t x.models) ≤ max_models
    → ((u : Trie) → size (insert model u x.models) ≡ size (insert model t x.models))
    → IsBounded (route model chunks ids now x (some t)).0
unfolding route
route-IsBounded model chunks ids now x t (all, below) c fits same =
    let (walked, best) = match chunks ids now t in
    let written = record_choice chunks now (nth ids (or_first best)) walked in
    (
      insert-AllSound model x.models written
          (record_choice-IsSound chunks now (nth ids (or_first best)) walked
            (match-IsSound chunks ids now t c))
          all,
      omega (arith, same written, fits),
    )

size-insert_any :
    (model : String) (t u : Trie) (models : Assoc Trie)
    → size (insert model u models) ≡ size (insert model t models)
unfolding size insert
size-insert_any model t u [] = refl
size-insert_any model t u ((m, v) ∷ models) = ground (arith, size-insert_any model t u models)

pick_chunks-IsBounded :
    (model : String) (chunks : List ℕ) (ids : List String) (now : ℕ) (x : Index)
    → IsBounded x
    → IsBounded (pick_chunks model chunks ids now x).0
unfolding pick_chunks trie_for
pick_chunks-IsBounded model chunks [] now x b = b
pick_chunks-IsBounded model chunks (id ∷ ids) now x b =
    let y = sweep_if_due now x in
    let bounded = sweep_if_due-IsBounded now x b in
    let go =
      λ (t : Trie). λ (c : IsSound t). route-IsBounded model chunks (id ∷ ids) now y t bounded c in
    elim (Option-cases (lookup model y.models)) [
      | inr (t, e) ↦
          let fits = size-insert_held model t t y.models e in
          let below = bounded.1 in
          rw e (
            go t (lookup-IsSound model y.models t bounded.0 e) (omega (arith, fits, below))
              (λ u. size-insert_any model t u y.models))
      | inl e ↦ elim (Bool-cases (leb max_models (size y.models))) [
        | inl full ↦ rw (e, full) (unfold route in bounded)
        | inr room ↦
            let t : Trie = record { root = node nil [] now; nodes = 0 } in
            let fits = size-insert model t y.models in
            rw (e, room)
              (go t (fresh-IsSound now) (ground (arith, room, fits))
                (λ u. size-insert_any model t u y.models))
      ]
    ]

pub record Call : Type 0 where
  pub model : String
  pub prompt : List ℕ
  pub ids : List String
  pub now : ℕ

module _ (sum : List ℕ → ℕ) where
  -- The index after the calls of Pick, in their order.
  unfoldable pub run : Option Index → List Call → Option Index
  run x [] = x
  run x (c ∷ calls) = run (pick sum c.model c.prompt c.ids c.now x).0 calls

  abbrev pub IsWithin : Option Index → Type 0
  IsWithin none = Unit {0}
  IsWithin (some x) = IsBounded x

  pick-IsWithin :
      (c : Call) (x : Option Index)
      → IsWithin x
      → IsWithin (pick sum c.model c.prompt c.ids c.now x).0
  unfolding pick
  pick-IsWithin c none w = w
  pick-IsWithin c (some x) w =
      pick_chunks-IsBounded c.model (chunk_hashes sum c.prompt) c.ids c.now x w

  pub run-IsWithin : (x : Option Index) (calls : List Call) → IsWithin x → IsWithin (run x calls)
  unfolding run
  run-IsWithin x [] w = w
  run-IsWithin x (c ∷ calls) w =
      run-IsWithin (pick sum c.model c.prompt c.ids c.now x).0 calls (pick-IsWithin c x w)

  pub new_index-IsWithin : (ttl : ℤ) → IsWithin (new_index ttl)
  unfolding new_index size
  new_index-IsWithin ttl = elim (Bool-cases (ltb_ℤ (pos 0) ttl)) [
    | inl e ↦ rw e (tt, omega arith)
    | inr e ↦ rw e tt
  ]

  -- After any calls of Pick on a new index, at any times, it holds at most 512 tries, and the trie of
  -- a model holds at most 8192 nodes below its root and counts them exactly.
  pub run-new_index_bounds :
      (ttl : ℤ) (calls : List Call) (x : Index)
      → run (new_index ttl) calls ≡ some x
      → (size x.models ≤ max_models)
        × ((model : String) (t : Trie)
            → lookup model x.models ≡ some t
            → (t.nodes ≡ count t.root) × (count t.root ≤ max_nodes))
  run-new_index_bounds ttl calls x e =
      let within = subst IsWithin e (run-IsWithin (new_index ttl) calls (new_index-IsWithin ttl)) in
      (
        within.1,
        λ model t found.
            let ((same, below), nested) = lookup-IsSound model x.models t within.0 found in
            (same, omega (arith, same, below)),
      )
