-- ===== src/Affinity.antt =====
-- internal/affinity/affinity.go: the index of prompt prefixes. A trie of pointers is a value that each
-- walk rebuilds along its path; the map of children is a list of hashes and nodes, the set of
-- endpoints a list without repeats. The mutex makes Pick one step. The sum of FNV-1a over a chunk is
-- an argument.
pub mod Trie
pub mod Index
