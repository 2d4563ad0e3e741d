-- ===== src/Affinity/Trie/Sound.antt =====
-- affinity.go: what every operation keeps of a trie.
use breakwater.Base.{ℕ, List, [], String}
use breakwater.Affinity.Trie.{node, nil, Trie, match, record_chain, prune_trie}
use breakwater.Affinity.Trie.Counts.{
  IsCounted, fresh-IsCounted, match-IsCounted, record_chain-IsCounted, prune_trie-IsCounted,
}
use breakwater.Affinity.Trie.Kept.{
  IsNested, fresh-IsNested, match-IsNested, record_chain-IsNested, prune_trie-IsNested,
}

-- The trie is counted, below the ceiling, and nested.
abbrev pub IsSound : Trie → Type 0
IsSound t = IsCounted t × IsNested t

pub fresh-IsSound : (now : ℕ) → IsSound (record { root = node nil [] now; nodes = 0 })
fresh-IsSound now = (fresh-IsCounted now, fresh-IsNested now)

pub match-IsSound :
    (chunks : List ℕ) (ids : List String) (now : ℕ) (t : Trie)
    → IsSound t
    → IsSound (match chunks ids now t).0
match-IsSound chunks ids now t (c, n) =
    (match-IsCounted chunks ids now t c, match-IsNested chunks ids now t n)

pub record_chain-IsSound :
    (chunks : List ℕ) (id : String) (now : ℕ) (t : Trie)
    → IsSound t
    → IsSound (record_chain chunks id now t)
record_chain-IsSound chunks id now t (c, n) =
    (record_chain-IsCounted chunks id now t c, record_chain-IsNested chunks id now t n)

pub prune_trie-IsSound : (ttl now : ℕ) (t : Trie) → IsSound t → IsSound (prune_trie ttl now t)
prune_trie-IsSound ttl now t (c, n) =
    (prune_trie-IsCounted ttl now t c, prune_trie-IsNested ttl now t n)
