-- ===== src/Cache/Stage/Replayed.antt =====
-- middleware.go: what is stored, and what a later request gets.
use breakwater.Base.{
  inl, inr, ℕ, ◌+◌, ◌≤◌, ◌<◌, ◌≡◌, refl, sym, ap, subst, ◌∙◌, Bool, true, false, ◌&&◌, ◌||◌, ◌⊎◌,
  List, Option, none, some, String, lookup, size, length, ltb, arith,
}
use mathlib.Core.Option.{some-injective}
use breakwater.Base.Int.{pos}
use breakwater.Cache.Memory.{Gate, Memory, get, set, swept, held, clamped_ttl}
use breakwater.Cache.Memory.Reads.{read_all, get-read_all, get-set}
use breakwater.Cache.Stage.{
  store_worthy, relay_aborted, stream_miss, max_cacheable_bytes, Entry, Tee, Carrier, starts,
  replayed, eligible, capture, store_worthy_from_entry, fetched_entry, Request, Served, write,
  replay, started, flight_miss, looked_up, cache_stage,
}

-- A whole successful response.
abbrev pub IsWhole : {H : Type 0} → Tee H → Type 0
IsWhole t =
    (200 ≤ t.status)
    × (t.status < 300)
    × (t.truncated ≡ false)
    × (length t.body ≤ max_cacheable_bytes)

module _ {H : Type 0} (t : Tee H) (whole : IsWhole t) where
  fetched_whole : fetched_entry t ≡ some (capture t)
  unfolding fetched_entry
  fetched_whole =
      let (low, high, kept, fits) = whole in
      let inside : (ltb t.status 100 || ltb 599 t.status) ≡ false = ground arith in
      rw (inside, kept) refl

  stream_worthy : store_worthy t ≡ true
  unfolding store_worthy
  stream_worthy = let (low, high, kept, fits) = whole in ground arith

  worthy_whole : store_worthy_from_entry (capture t) ≡ true
  unfolding store_worthy_from_entry capture
  worthy_whole = let (low, high, kept, fits) = whole in ground arith

-- A request that fetches on a miss: the starter of a flight, or a stream that was not aborted.
abbrev pub IsFetch : {H F : Type 0} → Request H F → Carrier F → Type 0
IsFetch r c =
    ((c.chat.stream ≡ false) × (r.part ≡ starts))
    ⊎ ((c.chat.stream ≡ true) × (relay_aborted (r.next c).0 ≡ false))

abbrev pub IsCacheable : {F : Type 0} (is_zero is_one : F → Bool) → Carrier F → Type 0
IsCacheable is_zero is_one c = (c.canonical && eligible is_zero is_one c.chat) ≡ true

module _ {H F : Type 0} (is_zero is_one : F → Bool) (digest : List ℕ → String) (ttl : ℕ)
    (gate : Gate) where
  abbrev stage : Request H F → Memory (Entry H) gate.Sketch → Carrier F → Served H F gate.Sketch
  stage = cache_stage is_zero is_one digest ttl gate

  fetched_stored :
      (r : Request H F) (m : Memory (Entry H) gate.Sketch) (key : String) (c : Carrier F)
      → IsWhole (r.next c).1
      → (flight_miss is_zero is_one digest ttl gate r m key c starts).store
        ≡ set gate m key (capture (r.next c).1) ttl r.scaled r.stored_at r.sweep_order r.order
  unfolding flight_miss started write
  fetched_stored r m key c whole =
      let t = (r.next c).1 in
      let fetched = fetched_whole t whole in
      let worthy = worthy_whole t whole in rw (fetched, worthy) refl

  after_miss :
      (r : Request H F) (key : String) (c : Carrier F)
      (x : Memory (Entry H) gate.Sketch × Option (Entry H))
      → x.1 ≡ none
      → c.chat.stream ≡ false
      → looked_up is_zero is_one digest ttl gate r key c x
        ≡ flight_miss is_zero is_one digest ttl gate r x.0 key c r.part
  unfolding looked_up
  after_miss r key c (m, some e) miss unstreamed = cc
  after_miss r key c (m, none) miss unstreamed = simp unstreamed refl

  after_hit :
      (r : Request H F) (key : String) (c : Carrier F) (e : Entry H)
      (x : Memory (Entry H) gate.Sketch × Option (Entry H))
      → x.1 ≡ some e
      → looked_up is_zero is_one digest ttl gate r key c x
        ≡ replay is_zero is_one digest ttl gate "cache" x.0 c e
  unfolding looked_up
  after_hit r key c e (m, some d) hit =
      ap (replay is_zero is_one digest ttl gate "cache" m c) (some-injective d e hit)
  after_hit r key c e (m, none) hit = cc

  looked_at :
      (r : Request H F) (m : Memory (Entry H) gate.Sketch) (c : Carrier F)
      → IsCacheable is_zero is_one c
      → stage r m c
        ≡ looked_up is_zero is_one digest ttl gate r
            (digest c.body)
            c
            (get gate m (digest c.body) r.read_at)
  unfolding cache_stage
  looked_at r m c cacheable = simp cacheable refl

  after_stream :
      (r : Request H F) (key : String) (c : Carrier F)
      (x : Memory (Entry H) gate.Sketch × Option (Entry H))
      → x.1 ≡ none
      → c.chat.stream ≡ true
      → looked_up is_zero is_one digest ttl gate r key c x
        ≡ stream_miss is_zero is_one digest ttl gate r x.0 key (r.next c)
  unfolding looked_up
  after_stream r key c (m, some e) miss streamed = cc
  after_stream r key c (m, none) miss streamed = simp streamed refl

  stream_stored :
      (r : Request H F) (m : Memory (Entry H) gate.Sketch) (key : String) (c : Carrier F)
      → IsWhole (r.next c).1
      → relay_aborted (r.next c).0 ≡ false
      → (stream_miss is_zero is_one digest ttl gate r m key (r.next c)).store
        ≡ set gate m key (capture (r.next c).1) ttl r.scaled r.stored_at r.sweep_order r.order
  unfolding stream_miss write
  stream_stored r m key c whole intact =
      let worthy = stream_worthy (r.next c).1 whole in rw (worthy, intact) refl

  -- The store after a fetch that this request made on a miss.
  stored_fetch :
      (r : Request H F) (m : Memory (Entry H) gate.Sketch) (c : Carrier F)
      → IsCacheable is_zero is_one c
      → IsFetch r c
      → (get gate m (digest c.body) r.read_at).1 ≡ none
      → IsWhole (r.next c).1
      → (stage r m c).store
        ≡ set gate
            (get gate m (digest c.body) r.read_at).0
            (digest c.body)
            (capture (r.next c).1)
            ttl
            r.scaled
            r.stored_at
            r.sweep_order
            r.order
  stored_fetch r m c cacheable (inl (unstreamed, starter)) miss whole =
      let key = digest c.body in
      let read = get gate m key r.read_at in
      ap (λ s. s.store)
        (looked_at r m c cacheable
          ∙ after_miss r key c read miss unstreamed
          ∙ ap (flight_miss is_zero is_one digest ttl gate r read.0 key c) starter)
      ∙ fetched_stored r read.0 key c whole
  stored_fetch r m c cacheable (inr (streamed, intact)) miss whole =
      let key = digest c.body in
      let read = get gate m key r.read_at in
      ap (λ s. s.store) (looked_at r m c cacheable ∙ after_stream r key c read miss streamed)
      ∙ stream_stored r read.0 key c whole intact

  -- A request that comes to the store which a request with the same body left, or to that store
  -- after any reads of it, from the write on until the positive time to live is over, is served
  -- what the earlier request fetched, whatever the store held before and whatever the later
  -- request's chain would do: it replays that response, calls nothing and consumes nothing. Both
  -- requests are cacheable; the earlier one missed and got a whole response with a status of
  -- success, as the starter of a flight or as a stream that was not aborted; and the store had the
  -- key, or room for it after its sweep.
  pub hit_after_fetch :
      (r later : Request H F) (m : Memory (Entry H) gate.Sketch) (c d : Carrier F)
      (reads : List (String × ℕ))
      → IsCacheable is_zero is_one c
      → IsCacheable is_zero is_one d
      → d.body ≡ c.body
      → IsFetch r c
      → let read = get gate m (digest c.body) r.read_at in
        let fetched = (r.next c).1 in
        let s = swept gate read.0 r.stored_at r.sweep_order in
        read.1 ≡ none
        → IsWhole fetched
        → 0 < ttl
        → (held (lookup (digest c.body) s.entries) ≡ true) ⊎ (size s.entries < s.max_entries)
        → r.stored_at ≤ later.read_at
        → later.read_at < r.stored_at + clamped_ttl (r.scaled ttl)
        → let hit = stage later (read_all gate reads (stage r m c).store) d in
          (hit.reply ≡ replayed (capture fetched))
          × (hit.forwarded ≡ false)
          × (hit.carrier.consumed ≡ pos 0)
          × (hit.carrier.served_by ≡ "cache")
  unfolding replay
  hit_after_fetch r later m c d reads first dd same fetch miss whole positive room after fresh =
      let read = get gate m (digest c.body) r.read_at in
      let fetched = capture (r.next c).1 in
      let left = (stage r m c).store in
      let stored = stored_fetch r m c first fetch miss whole in
      let found =
        (get-set gate read.0 (digest c.body) fetched ttl r.stored_at later.read_at r.scaled
          r.sweep_order r.order positive room after fresh).0 in
      let there =
        get-read_all gate reads left (digest d.body) later.read_at
        ∙ ap (λ b. (get gate left (digest b) later.read_at).1) same
        ∙ ap (λ n. (get gate n (digest c.body) later.read_at).1) stored
        ∙ found in
      let again = get gate (read_all gate reads left) (digest d.body) later.read_at in
      let same_reply =
        looked_at later (read_all gate reads left) d dd
        ∙ after_hit later (digest d.body) d fetched again there in
      subst
        (λ s.
          (s.reply ≡ replayed fetched)
          × (s.forwarded ≡ false)
          × (s.carrier.consumed ≡ pos 0)
          × (s.carrier.served_by ≡ "cache"))
        (sym same_reply) (refl, refl, refl, refl)
