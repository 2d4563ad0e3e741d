-- ===== src/Cache/Memory.antt =====
-- internal/cache/memory.go: the in-process store. What it asks of the admission gate of admission.go
-- is an interface; a stored response is any type, for the copies that guard its ownership do not
-- show in values. The locks make each call one step. The random draws and the range orders of the
-- map are arguments.
pub mod Capacity
pub mod Reads
mod Tests
use breakwater.Base.{
  ℕ, zero, suc, ◌+◌, ◌*◌, ◌/◌, Bool, true, false, not, ◌&&◌, List, [], ◌∷◌, Option, none, some,
  String, Assoc, lookup, insert, delete, size, leb, ltb, if◌then◌else◌,
}

-- The operations of the gate: a read is recorded, and the frequency of a key estimated.
pub record Gate : Type 1 where
  pub Sketch : Type 0
  pub record_read : Sketch → String → Sketch
  pub estimate : Sketch → String → ℕ

abbrev pub sweep_interval : ℕ
sweep_interval = 1_000_000_000

pub record MemoryEntry (E : Type 0) : Type 0 where
  pub entry : E
  pub expires : ℕ

-- `sweep_at` is `none` for the zero time.
pub record Memory (E : Type 0) (S : Type 0) : Type 0 where
  pub entries : Assoc (MemoryEntry E)
  pub max_entries : ℕ
  pub sweep_at : Option ℕ
  pub sketch : S

abbrev pub held {ℓ} : {A : Type ℓ} → Option A → Bool
held none = false
held (some a) = true

-- `NewMemory`; a capacity of zero is none given.
unfoldable pub new_memory : {E S : Type 0} → ℕ → S → Memory E S
new_memory capacity sketch = record {
  entries = [];
  max_entries = if leb 1 capacity then capacity else 1024;
  sweep_at = none;
  sketch = sketch;
}

-- `maxTrackedKeys` of admission.go, and `trackedKeyBudget`.
abbrev pub max_tracked_keys : ℕ
max_tracked_keys = 2_097_152

pub tracked_key_budget : ℕ → ℕ
tracked_key_budget capacity =
    if ltb (max_tracked_keys / 8) capacity then max_tracked_keys else capacity * 8

-- The time to live that the jitter has scaled: it saturates, and is at least a millisecond.
unfoldable pub clamped_ttl : ℕ → ℕ
clamped_ttl scaled =
    if leb 9_223_372_036_854_775_807 scaled
    then 9_223_372_036_854_775_807
    else (if ltb scaled 1_000_000 then 1_000_000 else scaled)

unfoldable pub is_due : ℕ → Option ℕ → Bool
is_due now none = true
is_due now (some at) = leb at now

first : ℕ → List String → List String
first zero keys = []
first (suc n) [] = []
first (suc n) (k ∷ keys) = k ∷ first n keys

module _ (gate : Gate) where
  -- The loop of `admitLocked` over a sample of residents: the first of the least-read ones.
  least_read : gate.Sketch → String → List String → String
  least_read sketch victim [] = victim
  least_read sketch victim (key ∷ sample) =
      least_read sketch
        (if ltb (gate.estimate sketch key) (gate.estimate sketch victim) then key else victim)
        sample

module _ {E : Type 0} where
  drop_expired : ℕ → String → Option (MemoryEntry E) → Assoc (MemoryEntry E) → Assoc (MemoryEntry E)
  drop_expired now key none entries = entries
  drop_expired now key (some e) entries = if ltb now e.expires then entries else delete key entries

  -- `sweepLocked`, over the keys in range order.
  unfoldable pub sweep_locked : ℕ → List String → Assoc (MemoryEntry E) → Assoc (MemoryEntry E)
  unfolding drop_expired
  sweep_locked now [] entries = entries
  sweep_locked now (key ∷ order) entries =
      sweep_locked now order (drop_expired now key (lookup key entries) entries)

  -- What a read serves.
  unfoldable pub live : ℕ → Option (MemoryEntry E) → Option E
  live now none = none
  live now (some e) = if ltb now e.expires then some e.entry else none

module _ {E : Type 0} (gate : Gate) where
  -- `Get`: every read feeds the gate; `none` is a miss.
  unfoldable pub get : Memory E gate.Sketch → String → ℕ → Memory E gate.Sketch × Option E
  get m key now =
      (record m { sketch = gate.record_read m.sketch key }, live now (lookup key m.entries))

  -- `admitLocked`, of the residents in range order: the entries without the victim, or `none` when
  -- the newcomer is read less than it. An empty map has no victim and admits.
  admit_locked :
      gate.Sketch → String → List String → Assoc (MemoryEntry E) → Option (Assoc (MemoryEntry E))
  unfolding least_read first
  admit_locked sketch key [] entries = some entries
  admit_locked sketch key (resident ∷ order) entries =
      let victim = least_read gate sketch resident (first 4 order) in
      if ltb (gate.estimate sketch key) (gate.estimate sketch victim)
      then none
      else some (delete victim entries)

  store :
      Memory E gate.Sketch
      → String
      → MemoryEntry E
      → Option (Assoc (MemoryEntry E))
      → Memory E gate.Sketch
  store m key e none = m
  store m key e (some entries) = record m { entries = insert key e entries }

  -- The sweep, when its time has come.
  unfoldable pub swept : Memory E gate.Sketch → ℕ → List String → Memory E gate.Sketch
  unfolding is_due
  swept m now order =
      if is_due now m.sweep_at
      then record m {
        entries = sweep_locked now order m.entries;
        sweep_at = some (now + sweep_interval);
      }
      else m

  -- The room for a key: the residents as they are for an update or below the cap.
  make_room : Memory E gate.Sketch → String → List String → Option (Assoc (MemoryEntry E))
  unfolding admit_locked
  make_room m key order =
      if not (held (lookup key m.entries)) && leb m.max_entries (size m.entries)
      then admit_locked m.sketch key order m.entries
      else some m.entries

  -- `Set`: `scaled` is the base time to live times the drawn jitter; `sweep_order` and `order` are
  -- the range orders of the sweep and of the sample.
  pub set :
      Memory E gate.Sketch
      → String
      → E
      → ℕ
      → (ℕ → ℕ)
      → ℕ
      → List String
      → (Assoc (MemoryEntry E) → List String)
      → Memory E gate.Sketch
  unfolding store swept make_room
  set m key entry base_ttl scaled now sweep_order order =
      if leb base_ttl 0
      then m
      else (let s = swept m now sweep_order in
          store s key (record { entry = entry; expires = now + clamped_ttl (scaled base_ttl) })
            (make_room s key (order s.entries)))
