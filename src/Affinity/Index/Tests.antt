-- ===== src/Affinity/Index/Tests.antt =====
-- The index on short prompts, with the sum of the bytes as the hash.
use breakwater.Base.{
  ℕ, ◌+◌, ◌≤◌, ◌≡◌, refl, false, List, [], ◌∷◌, some, lookup, insert, size, String,
}
use breakwater.Base.Int.{pos}
use breakwater.Affinity.Trie.{
  Trie, max_nodes, node, nil, cons, contains, match, match_from, record_chain, record_from, touch,
  add_endpoint, find_child, set_child, put_child, lowest_hit, position, nth, match_child, match_hit,
  deepest, lower, position_from, children, record_child,
}
use breakwater.Affinity.Trie.Counts.{count}
use breakwater.Affinity.Index.{
  Index, new_index, max_models, is_sweep_due, pick, pick_chunks, chunk_hashes, cut, hash_all,
  sweep_if_due, sweep, sweep_models, trie_for, route, record_choice, promoted,
}
use breakwater.Affinity.Index.Again.{pick_again}
use breakwater.Affinity.Index.Bounds.{Call, run, run-new_index_bounds}

add_bytes : List ℕ → ℕ
add_bytes [] = 0
add_bytes (b ∷ bytes) = b + add_bytes bytes

abbrev calls : List Call
calls =
    record { model = "m"; prompt = 1 ∷ 2 ∷ []; ids = "b" ∷ "a" ∷ []; now = 5 }
    ∷ record { model = "m"; prompt = 1 ∷ 2 ∷ []; ids = "a" ∷ "b" ∷ []; now = 6 }
    ∷ []

abbrev at : ℕ → Index
at now = record {
  models =
      ("m", record { root = node (cons 3 (node nil ("b" ∷ []) now) nil) [] now; nodes = 1 }) ∷ [];
  ttl = 10;
  swept_at = some 5;
}

reached : run add_bytes (new_index (pos 10)) calls ≡ some (at 6)
unfolding run new_index sweep sweep_models size pick pick_chunks route trie_for lookup sweep_if_due
    insert add_bytes chunk_hashes cut hash_all nth record_choice promoted is_sweep_due contains
    match match_from match_child match_hit deepest lower lowest_hit position position_from
    find_child children record_chain record_from record_child touch add_endpoint put_child set_child
reached = refl

picked : (pick add_bytes "m" (1 ∷ 2 ∷ []) ("a" ∷ "b" ∷ []) 7 (some (at 6))).0 ≡ some (at 7)
unfolding pick pick_chunks route trie_for lookup sweep_if_due insert add_bytes chunk_hashes cut
    hash_all nth record_choice promoted is_sweep_due contains match match_from match_child match_hit
    deepest lower lowest_hit position position_from find_child children record_chain record_from
    record_child touch add_endpoint put_child set_child
picked = refl

promoted_b : (pick add_bytes "m" (1 ∷ 2 ∷ []) ("a" ∷ "b" ∷ []) 7 (some (at 6))).1 ≡ some 1
unfolding pick pick_chunks route trie_for lookup sweep_if_due insert add_bytes chunk_hashes cut
    hash_all nth record_choice promoted is_sweep_due contains match match_from match_child match_hit
    deepest lower lowest_hit position position_from find_child children record_chain record_from
    record_child touch add_endpoint put_child set_child
promoted_b = refl

early : is_sweep_due 8 10 (some 5) ≡ false
unfolding is_sweep_due
early = refl

once : contains "a" ("b" ∷ []) ≡ false
unfolding contains
once = refl

run-new_index_bounds_example :
    (size (at 6).models ≤ max_models)
    × ((model : String) (t : Trie)
        → lookup model (at 6).models ≡ some t
        → (t.nodes ≡ count t.root) × (count t.root ≤ max_nodes))
run-new_index_bounds_example = run-new_index_bounds add_bytes (pos 10) calls (at 6) reached

pick_again_example :
    (pick add_bytes "m" (1 ∷ 2 ∷ []) ("a" ∷ "b" ∷ []) 8 (some (at 7))).1
    ≡ (pick add_bytes "m" (1 ∷ 2 ∷ []) ("a" ∷ "b" ∷ []) 7 (some (at 6))).1
pick_again_example =
    pick_again add_bytes (pos 10) calls (at 6) (at 7) "m" "a" (1 ∷ 2 ∷ []) ("b" ∷ []) 7 8 reached
      once picked early
