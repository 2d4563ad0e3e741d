-- ===== src/Cache/Memory/Capacity.antt =====
-- memory.go: the cap on the entries.
use breakwater.Base.{
  ℕ, zero, suc, ◌+◌, ◌≤◌, ◌<◌, ◌≡◌, refl, ap, true, false, List, [], ◌∷◌, Option, none, some,
  String, Assoc, lookup, insert, delete, size, size-insert, size-insert_held, size-delete,
  size-delete_held, leb, ltb, arith, Bool-cases, Option-cases, inl, inr, All,
}
use breakwater.Cache.Memory.{
  Gate, Memory, MemoryEntry, held, clamped_ttl, drop_expired, sweep_locked, set, least_read, first,
  admit_locked, store, swept, make_room,
}

module _ {E : Type 0} where
  size-drop_expired :
      (now : ℕ) (key : String) (o : Option (MemoryEntry E)) (entries : Assoc (MemoryEntry E))
      → size (drop_expired now key o entries) ≤ size entries
  unfolding drop_expired
  size-drop_expired now key none entries = omega arith
  size-drop_expired now key (some e) entries = ground (arith, size-delete key entries)

  size-sweep_locked :
      (now : ℕ) (order : List String) (entries : Assoc (MemoryEntry E))
      → size (sweep_locked now order entries) ≤ size entries
  unfolding sweep_locked
  size-sweep_locked now [] entries = omega arith
  size-sweep_locked now (key ∷ order) entries =
      let next = drop_expired now key (lookup key entries) entries in
      let rest = size-sweep_locked now order next in
      let step = size-drop_expired now key (lookup key entries) entries in omega (arith, rest, step)

absurd_none : {A : Type 0} → false ≡ true → A
absurd_none h = ground arith

some-inj : {A : Type 0} {x y : A} → some x ≡ some y → x ≡ y
some-inj {x = x} h = ap (λ o. elim o [ none ↦ x | some a ↦ a ]) h

-- A range order lists residents, one at least when there is any.
abbrev pub Ranges : {E : Type 0} → List String → Assoc (MemoryEntry E) → Type 0
Ranges [] entries = size entries ≡ 0
Ranges (key ∷ order) entries = All (λ k. held (lookup k entries) ≡ true) (key ∷ order)

module _ {E : Type 0} (gate : Gate) where
  least_read-held :
      (sketch : gate.Sketch) (victim : String) (sample : List String)
      (entries : Assoc (MemoryEntry E))
      → held (lookup victim entries) ≡ true
      → All (λ k. held (lookup k entries) ≡ true) sample
      → held (lookup (least_read gate sketch victim sample) entries) ≡ true
  unfolding least_read
  least_read-held sketch victim [] entries h all = h
  least_read-held sketch victim (key ∷ sample) entries h all =
      elim (Bool-cases (ltb (gate.estimate sketch key) (gate.estimate sketch victim))) [
        | inl e ↦ rw e (least_read-held sketch key sample entries all.0 all.1)
        | inr e ↦ rw e (least_read-held sketch victim sample entries h all.1)
      ]

  first-All :
      (n : ℕ) (keys : List String) (entries : Assoc (MemoryEntry E))
      → All (λ k. held (lookup k entries) ≡ true) keys
      → All (λ k. held (lookup k entries) ≡ true) (first n keys)
  unfolding first
  first-All zero keys entries all = tt
  first-All (suc n) [] entries all = tt
  first-All (suc n) (k ∷ keys) entries all = (all.0, first-All n keys entries all.1)

  size-delete_resident :
      (key : String) (entries : Assoc (MemoryEntry E))
      → held (lookup key entries) ≡ true
      → size (delete key entries) + 1 ≤ size entries
  size-delete_resident key entries h = elim (Option-cases (lookup key entries)) [
    | inl e ↦ absurd_none (rw e at h)
    | inr (x, e) ↦ size-delete_held key x entries e
  ]

  size-admit_locked :
      (sketch : gate.Sketch) (key : String) (order : List String)
      (entries room : Assoc (MemoryEntry E)) (limit : ℕ)
      → 0 < limit
      → size entries ≤ limit
      → Ranges order entries
      → admit_locked gate sketch key order entries ≡ some room
      → size room < limit
  unfolding admit_locked
  size-admit_locked sketch key [] entries room limit some_limit le ranged won =
      ground (arith, ranged)
  size-admit_locked sketch key (resident ∷ order) entries room limit some_limit le ranged won =
      let victim = least_read gate sketch resident (first 4 order) in
      let resident_victim =
        least_read-held sketch resident (first 4 order) entries ranged.0
          (first-All 4 order entries ranged.1) in
      ground (arith, size-delete_resident victim entries resident_victim)

  size-make_room :
      (m : Memory E gate.Sketch) (key : String) (order : List String) (room : Assoc (MemoryEntry E))
      → 0 < m.max_entries
      → size m.entries ≤ m.max_entries
      → Ranges order m.entries
      → make_room gate m key order ≡ some room
      → (e : MemoryEntry E) → size (insert key e room) ≤ m.max_entries
  unfolding make_room
  size-make_room m key order room some_max le ranged won e =
      let grown = size-insert key e room in
      elim (Option-cases (lookup key m.entries)) [
        | inr (x, resident) ↦
            let same : m.entries ≡ room = some-inj (rw resident at won) in
            let kept = size-insert_held key e x m.entries resident in
            rw (← same) (omega (arith, kept, le))
        | inl missing ↦ elim (Bool-cases (leb m.max_entries (size m.entries))) [
          | inl full ↦
              let below =
                size-admit_locked m.sketch key order m.entries room m.max_entries some_max le ranged
                  (rw (missing, full) at won) in
              omega (arith, grown, below)
          | inr free ↦
              let same : m.entries ≡ room = some-inj (rw (missing, free) at won) in
              let below : size m.entries < m.max_entries = ground (arith, free) in
              let grown_same = size-insert key e m.entries in
              rw (← same) (omega (arith, grown_same, below))
        ]
      ]

  size-store :
      (m : Memory E gate.Sketch) (key : String) (e : MemoryEntry E)
      (room : Option (Assoc (MemoryEntry E)))
      → size m.entries ≤ m.max_entries
      → ((r : Assoc (MemoryEntry E)) → room ≡ some r → size (insert key e r) ≤ m.max_entries)
      → size (store gate m key e room).entries ≤ m.max_entries
  unfolding store
  size-store m key e none le h = le
  size-store m key e (some r) le h = h r refl

  size-swept :
      (m : Memory E gate.Sketch) (now : ℕ) (order : List String)
      → (size (swept gate m now order).entries ≤ size m.entries)
        × ((swept gate m now order).max_entries ≡ m.max_entries)
  unfolding swept
  size-swept m now order = ground (arith, size-sweep_locked now order m.entries)

  -- A write keeps a store of at least one entry within its cap, when the entries that the runtime
  -- ranges over for the sample are residents.
  pub size-set :
      (m : Memory E gate.Sketch) (key : String) (entry : E) (base_ttl now : ℕ) (scaled : ℕ → ℕ)
      (sweep_order : List String) (order : Assoc (MemoryEntry E) → List String)
      → 0 < m.max_entries
      → size m.entries ≤ m.max_entries
      → Ranges (order (swept gate m now sweep_order).entries) (swept gate m now sweep_order).entries
      → size (set gate m key entry base_ttl scaled now sweep_order order).entries ≤ m.max_entries
  unfolding set
  size-set m key entry base_ttl now scaled sweep_order order some_max le ranged =
      let s = swept gate m now sweep_order in
      let e : MemoryEntry E = record {
        entry = entry;
        expires = now + clamped_ttl (scaled base_ttl);
      } in
      let (smaller, same) = size-swept m now sweep_order in
      let room = make_room gate s key (order s.entries) in
      let within : size s.entries ≤ s.max_entries = omega (arith, smaller, same, le) in
      let stored = size-store s key e room within (λ r won.
        size-make_room s key (order s.entries) r (omega (arith, same, some_max)) within ranged won
          e) in
      elim (Bool-cases (leb base_ttl 0)) [
        | inl off ↦ rw off le
        | inr on ↦ rw on (omega (arith, stored, same))
      ]
