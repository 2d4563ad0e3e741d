-- ===== src/Auth/Lru.antt =====
-- internal/auth/lru.go: the process-local cache of resolved API keys. The lookup map and the recency
-- list are one association list, most recently used first; the mutex makes `lookup` and `store` one
-- step each. An instant is a number of nanoseconds.
pub mod Bounded
pub mod Transparent
mod Tests
use breakwater.Base.{
  ℕ, zero, suc, ◌+◌, Bool, true, false, List, [], ◌∷◌, Option, none, some, String, Assoc, lookup,
  delete, Result, ok, err, leb, ltb, if◌then◌else◌,
}

-- An answer that is definitive, and a failure of the backend.
pub data AuthError : Type 0 where
  unauthorized unavailable : AuthError

-- `lruEntry`; a tenant is its identifier.
pub record LruEntry : Type 0 where
  pub answer : Result AuthError String
  pub expires : ℕ

-- `CachedStore`; `index` is the keyed digest.
pub record CachedStore : Type 0 where
  pub entries : Assoc LruEntry
  pub max : ℕ
  pub pos_ttl : ℕ
  pub neg_ttl : ℕ

-- `NewCachedStore` and `WithCacheCapacity`; `none` is the default capacity.
abbrev pub capacity_of : Option ℕ → ℕ
capacity_of none = 4096
capacity_of (some n) = if leb 1 n then n else 4096

pub new_cached_store : Option ℕ → ℕ → ℕ → CachedStore
new_cached_store capacity pos_ttl neg_ttl = record {
  entries = [];
  max = capacity_of capacity;
  pos_ttl = pos_ttl;
  neg_ttl = neg_ttl;
}

-- `MoveToFront`, and `PushFront` of a key that is not held.
to_front : String → LruEntry → Assoc LruEntry → Assoc LruEntry
to_front key e entries = (key, e) ∷ delete key entries

-- The eviction loop takes from the back until `n` are left.
evict : ℕ → Assoc LruEntry → Assoc LruEntry
evict zero entries = []
evict (suc n) [] = []
evict (suc n) (x ∷ entries) = x ∷ evict n entries

pub found :
    CachedStore → String → ℕ → Option LruEntry → CachedStore × Option (Result AuthError String)
unfolding to_front
found c key now none = (c, none)
found c key now (some e) =
    if ltb e.expires now
    then (record c { entries = delete key c.entries }, none)
    else (record c { entries = to_front key e c.entries }, some (e.answer))

-- `lookup`, of the digest of an API key.
pub lookup_key : CachedStore → String → ℕ → CachedStore × Option (Result AuthError String)
unfolding found
lookup_key c key now = found c key now (lookup key c.entries)

place : CachedStore → String → LruEntry → Option LruEntry → CachedStore
unfolding to_front evict
place c key e (some held) = record c { entries = to_front key e c.entries }
place c key e none = record c { entries = evict c.max (to_front key e c.entries) }

-- `store`.
pub store : CachedStore → String → LruEntry → CachedStore
unfolding place
store c key e = place c key e (lookup key c.entries)

-- What `Resolve` keeps of the answer of the system of record.
pub keep : CachedStore → String → ℕ → Result AuthError String → CachedStore
unfolding store
keep c key now (ok tenant) = store c key (record { answer = ok tenant; expires = now + c.pos_ttl })
keep c key now (err unauthorized) =
    store c key (record { answer = err unauthorized; expires = now + c.neg_ttl })
keep c key now (err unavailable) = c

module _ {W : Type 0} (index : String → String)
    (inner : W → String → W × Result AuthError String) where
  missed :
      String
      → ℕ
      → CachedStore × Option (Result AuthError String)
      → W
      → (CachedStore × W) × Result AuthError String
  unfolding keep
  missed api_key later (c, some answer) w = ((c, w), answer)
  missed api_key later (c, none) w =
      let (w', answer) = inner w api_key in ((keep c (index api_key) later answer, w'), answer)

  -- `Resolve`, with the clock as the lookup and as the store read it.
  pub resolve : CachedStore → W → String → ℕ → ℕ → (CachedStore × W) × Result AuthError String
  unfolding missed
  resolve c w api_key now later = missed api_key later (lookup_key c (index api_key) now) w
