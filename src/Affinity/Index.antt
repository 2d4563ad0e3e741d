-- ===== src/Affinity/Index.antt =====
-- affinity.go: the index over the tries, its sweep and Pick.
pub mod Bounds
pub mod Again
mod Tests
use breakwater.Base.{
  ℕ, zero, suc, ◌+◌, ◌*◌, ◌/◌, Bool, true, List, [], ◌∷◌, Option, none, some, String, Assoc, lookup,
  insert, size, leb, if◌then◌else◌, length,
}
use breakwater.Base.Int.{ℤ, pos, pos_part, ltb_ℤ}
use breakwater.Affinity.Trie.{
  node, nil, children, is_empty, Trie, match, record_chain, prune_trie, nth,
}

abbrev pub chunk_size : ℕ
chunk_size = 128

abbrev pub max_chunks : ℕ
max_chunks = 512

abbrev pub max_models : ℕ
max_models = 512

-- `swept_at` is `none` for the zero time.
pub record Index : Type 0 where
  pub models : Assoc Trie
  pub ttl : ℕ
  pub swept_at : Option ℕ

-- `NewIndex`: `none` is the nil index.
pub new_index : ℤ → Option Index
new_index ttl =
    if ltb_ℤ (pos 0) ttl
    then some (record { models = []; ttl = pos_part ttl; swept_at = none })
    else none

-- The loop of `sweep`.
pub sweep_models : ℕ → ℕ → Assoc Trie → Assoc Trie
sweep_models ttl now [] = []
sweep_models ttl now ((model, t) ∷ models) =
    let rest = sweep_models ttl now models in
    let pruned = prune_trie ttl now t in
    if is_empty (children pruned.root) then rest else (model, pruned) ∷ rest

pub sweep : ℕ → Index → Index
sweep now x = record x { models = sweep_models x.ttl now x.models; swept_at = some now }

pub is_sweep_due : ℕ → ℕ → Option ℕ → Bool
is_sweep_due now ttl none = true
is_sweep_due now ttl (some t) = leb (t + ttl / 2) now

pub sweep_if_due : ℕ → Index → Index
unfolding is_sweep_due
sweep_if_due now x = if is_sweep_due now x.ttl x.swept_at then sweep now x else x

-- The trie of the model, created where there is room.
pub trie_for : ℕ → Assoc Trie → Option Trie → Option Trie
trie_for now models (some t) = some t
trie_for now models none =
    if leb max_models (size models)
    then none
    else some (record { root = node nil [] now; nodes = 0 })

-- A position out of range, where the code would panic, is none that `match` gives.
pub record_choice : List ℕ → ℕ → Option String → Trie → Trie
record_choice chunks now none t = t
record_choice chunks now (some id) t = record_chain chunks id now t

abbrev pub or_first : Option ℕ → ℕ
or_first none = 0
or_first (some i) = i

-- Zero and no match are both the answer -1.
pub promoted : ℕ → Option ℕ
promoted zero = none
promoted (suc i) = some (suc i)

pub route : String → List ℕ → List String → ℕ → Index → Option Trie → Index × Option ℕ
unfolding record_choice promoted
route model chunks ids now x none = (x, none)
route model chunks ids now x (some t) =
    let (walked, best) = match chunks ids now t in
    let chosen = or_first best in
    let recorded = record_choice chunks now (nth ids chosen) walked in
    (record x { models = insert model recorded x.models }, promoted chosen)

-- `Pick` on an index and the chunks of a prompt.
pub pick_chunks : String → List ℕ → List String → ℕ → Index → Index × Option ℕ
pick_chunks model chunks [] now x = (x, none)
pick_chunks model chunks (id ∷ ids) now x =
    let swept = sweep_if_due now x in
    route model chunks (id ∷ ids) now swept (trie_for now swept.models (lookup model swept.models))

take : ℕ → List ℕ → List ℕ
take zero bs = []
take (suc n) [] = []
take (suc n) (b ∷ bs) = b ∷ take n bs

drop : ℕ → List ℕ → List ℕ
drop zero bs = bs
drop (suc n) [] = []
drop (suc n) (b ∷ bs) = drop n bs

-- The loop of `chunkHashes`, with the bytes that are left; their number is enough fuel.
pub cut : ℕ → List ℕ → List (List ℕ)
unfolding take drop
cut zero bytes = []
cut (suc fuel) [] = []
cut (suc fuel) (b ∷ bytes) = take chunk_size (b ∷ bytes) ∷ cut fuel (drop chunk_size (b ∷ bytes))

pub hash_all : (List ℕ → ℕ) → List (List ℕ) → List ℕ
hash_all sum [] = []
hash_all sum (c ∷ cs) = sum c ∷ hash_all sum cs

pub chunk_hashes : (List ℕ → ℕ) → List ℕ → List ℕ
unfolding take
chunk_hashes sum prompt =
    let head = take (max_chunks * chunk_size) prompt in hash_all sum (cut (length head) head)

-- `Pick`: `none` is the answer -1.
pub pick : (List ℕ → ℕ) → String → List ℕ → List String → ℕ → Option Index → Option Index × Option ℕ
pick sum model prompt ids now none = (none, none)
pick sum model prompt ids now (some x) =
    let (y, answer) = pick_chunks model (chunk_hashes sum prompt) ids now x in (some y, answer)
