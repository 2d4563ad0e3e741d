-- ===== src/Auth/Lru/Bounded.antt =====
-- lru.go: the cache stays within its capacity.
use breakwater.Base.{
  ℕ, zero, suc, ◌+◌, ◌≤◌, ◌≡◌, refl, inl, inr, [], ◌∷◌, Option, none, some, String, Assoc, lookup,
  size, size-delete, size-delete_held, Result, ok, err, arith, Option-cases,
}
use breakwater.Auth.Lru.{
  AuthError, unauthorized, unavailable, LruEntry, CachedStore, to_front, evict, found, place, store,
  keep,
}

to_front-size :
    (k : String) (e : LruEntry) (es : Assoc LruEntry) → size (to_front k e es) ≤ size es + 1
unfolding to_front size
to_front-size k e es = omega (arith, size-delete k es)

to_front-size_held :
    (k : String) (e f : LruEntry) (es : Assoc LruEntry)
    → lookup k es ≡ some f
    → size (to_front k e es) ≤ size es
unfolding to_front size
to_front-size_held k e f es h = omega (arith, size-delete_held k f es h)

evict-size : (n : ℕ) (es : Assoc LruEntry) → size (evict n es) ≤ n
unfolding evict size
evict-size zero es = omega arith
evict-size (suc n) [] = omega arith
evict-size (suc n) (x ∷ es) = omega (arith, evict-size n es)

abbrev pub IsBounded : CachedStore → Type 0
IsBounded c = size c.entries ≤ c.max

store-IsBounded :
    (c : CachedStore) (key : String) (e : LruEntry) → IsBounded c → IsBounded (store c key e)
unfolding store
store-IsBounded c key e h = of (lookup key c.entries) refl
  where
    of : (o : Option LruEntry) → lookup key c.entries ≡ o → IsBounded (place c key e o)
    of none at = unfold place in evict-size c.max (to_front key e c.entries)
    of (some held) at = unfold place in omega (arith, h, to_front-size_held key e held c.entries at)

pub found-IsBounded :
    (c : CachedStore) (key : String) (now : ℕ) (o : Option LruEntry)
    → lookup key c.entries ≡ o
    → IsBounded c
    → IsBounded (found c key now o).0
unfolding found
found-IsBounded c key now none at h = h
found-IsBounded c key now (some e) at h =
    ground (arith, h, size-delete key c.entries, to_front-size_held key e e c.entries at)

pub keep-IsBounded :
    (c : CachedStore) (key : String) (now : ℕ) (x : Result AuthError String)
    → IsBounded c
    → IsBounded (keep c key now x)
unfolding keep
keep-IsBounded c key now (ok tenant) h = store-IsBounded c key _ h
keep-IsBounded c key now (err unauthorized) h = store-IsBounded c key _ h
keep-IsBounded c key now (err unavailable) h = h

pub max-found :
    (c : CachedStore) (key : String) (now : ℕ) (o : Option LruEntry)
    → (found c key now o).0.max ≡ c.max
unfolding found
max-found c key now none = refl
max-found c key now (some e) = ground arith

max-store : (c : CachedStore) (key : String) (e : LruEntry) → (store c key e).max ≡ c.max
unfolding store place
max-store c key e = elim (Option-cases (lookup key c.entries)) [
  | inl h ↦ rw (h, place) refl
  | inr (f, h) ↦ rw (h, place) refl
]

pub max-keep :
    (c : CachedStore) (key : String) (now : ℕ) (x : Result AuthError String)
    → (keep c key now x).max ≡ c.max
unfolding keep
max-keep c key now (ok tenant) = max-store c key _
max-keep c key now (err unauthorized) = max-store c key _
max-keep c key now (err unavailable) = refl
