-- ===== src/Cache/Memory/Tests.antt =====
-- The store on small inputs: two residents, a gate that counts no key.
use breakwater.Base.{
  ℕ, ◌+◌, ◌≤◌, ◌<◌, ◌≡◌, refl, List, [], ◌∷◌, some, String, Assoc, lookup, delete, size, arith,
}
use breakwater.Cache.Memory.{
  Gate, Memory, MemoryEntry, set, swept, sweep_locked, is_due, drop_expired, clamped_ttl,
}
use breakwater.Cache.Memory.Capacity.{size-set, Ranges}

abbrev gate : Gate
gate = record { Sketch = ℕ; record_read = λ s key. s + 1; estimate = λ s key. s }

abbrev memory : Memory ℕ ℕ
memory = record {
  entries =
      ("a", record { entry = 1; expires = 100 }) ∷ ("b", record { entry = 2; expires = 900 }) ∷ [];
  max_entries = 2;
  sweep_at = some 50;
  sketch = 0;
}

abbrev order : Assoc (MemoryEntry ℕ) → List String
order entries = "b" ∷ []

left :
    (swept gate memory 100 ("a" ∷ "b" ∷ [])).entries
    ≡ ("b", record { entry = 2; expires = 900 }) ∷ []
unfolding swept is_due sweep_locked drop_expired lookup delete
left = refl

ranged :
    Ranges
      (order (swept gate memory 100 ("a" ∷ "b" ∷ [])).entries)
      (swept gate memory 100 ("a" ∷ "b" ∷ [])).entries
unfolding lookup
ranged = rw left (refl, tt)

within : size memory.entries ≤ 2
unfolding size
within = omega arith

size-set_example :
    size (set gate memory "c" 3 60 (λ ttl. ttl) 100 ("a" ∷ "b" ∷ []) order).entries ≤ 2
size-set_example =
    size-set gate memory "c" 3 60 100 (λ ttl. ttl) ("a" ∷ "b" ∷ []) order (omega arith) within
      ranged

alive : 170 < 100 + clamped_ttl 2_000_000
unfolding clamped_ttl
alive = omega arith
