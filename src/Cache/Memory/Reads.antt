-- ===== src/Cache/Memory/Reads.antt =====
-- memory.go: what a read serves.
use breakwater.Base.{
  ℕ, ◌+◌, ◌≤◌, ◌<◌, ◌≡◌, refl, ◌∙◌, true, false, List, [], ◌∷◌, Option, none, some, String, Assoc,
  lookup, lookup-delete, lookup-insert, str_eq, str_eq_refl, leb, ltb, arith, String-cases,
  Bool-cases, inl, inr, ◌⊎◌, size,
}
use breakwater.Cache.Memory.{
  Gate, Memory, MemoryEntry, held, drop_expired, sweep_locked, set, get, store, swept, make_room,
  live, clamped_ttl,
}

module _ {E : Type 0} where
  live-drop_expired :
      (now later : ℕ) (key other : String) (entries : Assoc (MemoryEntry E))
      → now ≤ later
      → live later (lookup key (drop_expired now other (lookup other entries) entries))
        ≡ live later (lookup key entries)
  unfolding drop_expired live
  live-drop_expired now later key other entries after = go (lookup other entries) refl
    where
      go :
          (o : Option (MemoryEntry E))
          → lookup other entries ≡ o
          → live later (lookup key (drop_expired now other o entries))
            ≡ live later (lookup key entries)
      go none e = refl
      go (some x) e = elim (Bool-cases (ltb now x.expires)) [
        | inl kept ↦ rw kept refl
        | inr over ↦ elim (String-cases other key) [
          | inl same ↦
              let gone : ltb later x.expires ≡ false = ground (arith, over, after) in
              rw (over, lookup-delete, same, str_eq_refl, ← same, e, gone) refl
          | inr differ ↦ rw (over, lookup-delete, differ) refl
        ]
      ]

  live-sweep_locked :
      (now later : ℕ) (order : List String) (key : String) (entries : Assoc (MemoryEntry E))
      → now ≤ later
      → live later (lookup key (sweep_locked now order entries)) ≡ live later (lookup key entries)
  unfolding sweep_locked
  live-sweep_locked now later [] key entries after = refl
  live-sweep_locked now later (other ∷ order) key entries after =
      live-sweep_locked now later order key (drop_expired now other (lookup other entries) entries)
        after
      ∙ live-drop_expired now later key other entries after

module _ {E : Type 0} (gate : Gate) where
  live-swept :
      (m : Memory E gate.Sketch) (now later : ℕ) (order : List String) (key : String)
      → now ≤ later
      → live later (lookup key (swept gate m now order).entries) ≡ live later (lookup key m.entries)
  unfolding swept
  live-swept m now later order key after =
      ground (arith, live-sweep_locked now later order key m.entries after)

  kept_room :
      (m : Memory E gate.Sketch) (key : String) (order : List String)
      → (held (lookup key m.entries) ≡ true) ⊎ (size m.entries < m.max_entries)
      → make_room gate m key order ≡ some m.entries
  unfolding make_room
  kept_room m key order (inl resident) = rw resident refl
  kept_room m key order (inr below) =
      let free : leb m.max_entries (size m.entries) ≡ false = ground arith in ground (arith, free)

  pub get-set :
      (m : Memory E gate.Sketch) (key : String) (entry : E) (base_ttl now later : ℕ)
      (scaled : ℕ → ℕ) (sweep_order : List String) (order : Assoc (MemoryEntry E) → List String)
      → 0 < base_ttl
      → let s = swept gate m now sweep_order in
        let t = set gate m key entry base_ttl scaled now sweep_order order in
        (held (lookup key s.entries) ≡ true) ⊎ (size s.entries < s.max_entries)
        → now ≤ later
        → later < now + clamped_ttl (scaled base_ttl)
        → ((get gate t key later).1 ≡ some entry)
          × ((other : String)
              → str_eq key other ≡ false
              → (get gate t other later).1 ≡ (get gate m other later).1)
  unfolding set get store live
  get-set m key entry base_ttl now later scaled sweep_order order positive room after fresh =
      let s = swept gate m now sweep_order in
      let on : leb base_ttl 0 ≡ false = ground arith in
      let kept = kept_room s key (order s.entries) room in
      let alive : ltb later (now + clamped_ttl (scaled base_ttl)) ≡ true = ground arith in
      (
        rw (on, kept, lookup-insert, str_eq_refl, alive) refl,
        λ other differ.
            rw (on, kept, lookup-insert, differ) (live-swept m now later sweep_order other after),
      )

module _ {E : Type 0} (gate : Gate) where
  -- Reads of keys, each at its time.
  pub read_all : List (String × ℕ) → Memory E gate.Sketch → Memory E gate.Sketch
  read_all [] m = m
  read_all ((key, now) ∷ reads) m = read_all reads (get gate m key now).0

  pub get-read_all :
      (reads : List (String × ℕ)) (m : Memory E gate.Sketch) (key : String) (now : ℕ)
      → (get gate (read_all reads m) key now).1 ≡ (get gate m key now).1
  unfolding read_all
  get-read_all [] m key now = refl
  get-read_all ((other, at) ∷ reads) m key now =
      get-read_all reads (get gate m other at).0 key now ∙ (unfold get in refl)
