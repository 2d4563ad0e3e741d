-- ===== src/Cache/Stage/Stored.antt =====
-- middleware.go: which responses the stage stores, and for how long.
use breakwater.Base.{
  ℕ, ◌/◌, ◌≤◌, ◌≡◌, refl, Bool, true, false, ◌&&◌, ◌||◌, not, Bool-cases, inl, inr, ◌⊎◌, List,
  Option, none, some, String, str_eq, ltb, arith,
}
use breakwater.Cache.Memory.{Gate, Memory, get, set}
use breakwater.Cache.Stage.{
  Entry, Tee, Carrier, Part, starts, waits, eligible, capture, store_worthy, relay_aborted,
  store_worthy_from_entry, negatively_cacheable, fetched_entry, Request, replay, write, stream_miss,
  started, flight_miss, looked_up, cache_stage, is_success, names_upstream,
}

-- An error that a named upstream answered.
abbrev pub IsFact : {H F : Type 0} → Carrier F → Tee H → Type 0
IsFact c t =
    (400 ≤ t.status)
    × (t.status ≤ 507)
    × (names_upstream c.relay ≡ true)
    × (str_eq c.served_by "" ≡ true)

module _ {H : Type 0} (t : Tee H) where
  fetched_cases :
      (fetched_entry t ≡ none) ⊎ ((fetched_entry t ≡ some (capture t)) × (t.truncated ≡ false))
  unfolding fetched_entry
  fetched_cases = elim (Bool-cases (ltb t.status 100 || ltb 599 t.status)) [
    | inl out ↦ inl (rw out refl)
    | inr inside ↦ elim (Bool-cases t.truncated) [
      | inl cut ↦ inl (simp inside (simp cut refl))
      | inr kept ↦ inr (simp inside (simp kept refl), kept)
    ]
  ]

  success_kept : store_worthy_from_entry (capture t) ≡ true → is_success t.status ≡ true
  unfolding store_worthy_from_entry capture is_success
  success_kept worthy = ground arith

  IsFact-kept :
      {F : Type 0} (c : Carrier F)
      → store_worthy_from_entry (capture t) ≡ false
      → negatively_cacheable (capture t) c ≡ true
      → IsFact c t
  unfolding store_worthy_from_entry negatively_cacheable capture is_success
  IsFact-kept c unworthy negative = ground arith

module _ {H F S : Type 0} (change : Entry H → ℕ → Memory (Entry H) S) where
  -- What the exchange may make of a store: nothing, or an entry of its own.
  abbrev pub IsWarmed :
      ℕ → Bool → Memory (Entry H) S → Carrier F → Tee H → Memory (Entry H) S → Type 0
  IsWarmed ttl stream m c t n =
      (n ≡ m)
      ⊎ ((t.truncated ≡ false)
          × (((is_success t.status ≡ true)
                × (stream ≡ true → relay_aborted c ≡ false)
                × (n ≡ change (capture t) ttl))
              ⊎ (IsFact c t × (stream ≡ false) × (n ≡ change (capture t) (ttl / 10)))))

module _ {H F : Type 0} (is_zero is_one : F → Bool) (digest : List ℕ → String) (ttl : ℕ)
    (gate : Gate) (r : Request H F) (m : Memory (Entry H) gate.Sketch) (key : String) where
  abbrev Warmed : Bool → Carrier F × Tee H → Memory (Entry H) gate.Sketch → Type 0
  Warmed stream (c, t) n =
      IsWarmed (λ e base. set gate m key e base r.scaled r.stored_at r.sweep_order r.order) ttl
        stream m c t n

  stream_warms :
      (x : Carrier F × Tee H)
      → Warmed true x (stream_miss is_zero is_one digest ttl gate r m key x).store
  unfolding stream_miss store_worthy write
  stream_warms (c, t) = elim (Bool-cases (store_worthy t && not (relay_aborted c))) [
    | inl kept ↦ inr (ground arith, inl (ground arith, (λ s. ground arith), simp kept refl))
    | inr left ↦ inl (simp left refl)
  ]

  -- What the owner of a fetch stores, by what the fetch function returned.
  owner_warms :
      (x : Carrier F × Tee H)
      → Warmed false x
          (started is_zero is_one digest ttl gate r m key x.0 x.1 (fetched_entry x.1)).store
  unfolding started write
  owner_warms (c, t) = elim (fetched_cases t) [
    | inl failed ↦ rw failed (inl refl)
    | inr (caught, kept) ↦ elim (Bool-cases (store_worthy_from_entry (capture t))) [
      | inl worthy ↦
          simp caught (simp worthy (inr (kept, inl (success_kept t worthy, (λ s. cc), refl))))
      | inr unworthy ↦ elim (Bool-cases (negatively_cacheable (capture t) c)) [
        | inl negative ↦ simp caught (
            simp unworthy
              (simp negative (inr (kept, inr (IsFact-kept t c unworthy negative, refl, refl)))))
        | inr left ↦ simp caught (simp unworthy (simp left (inl refl)))
      ]
    ]
  ]

module _ {H F : Type 0} (is_zero is_one : F → Bool) (digest : List ℕ → String) (ttl : ℕ)
    (gate : Gate) (r : Request H F) where
  abbrev pub IsKept :
      (m : Memory (Entry H) gate.Sketch) (c : Carrier F) → Memory (Entry H) gate.Sketch → Type 0
  IsKept m c n =
      let key = digest c.body in
      IsWarmed (λ e base. set gate m key e base r.scaled r.stored_at r.sweep_order r.order) ttl
        c.chat.stream m (r.next c).0 (r.next c).1 n

  flight_warms :
      (m : Memory (Entry H) gate.Sketch) (c : Carrier F) (p : Part H)
      → Warmed is_zero is_one digest ttl gate r m
          (digest c.body)
          false
          (r.next c)
          (flight_miss is_zero is_one digest ttl gate r m (digest c.body) c p).store
  unfolding flight_miss replay
  flight_warms m c starts =
      owner_warms is_zero is_one digest ttl gate r m (digest c.body) (r.next c)
  flight_warms m c (waits (some e)) = inl refl
  flight_warms m c (waits none) = inl refl

  look_warms :
      (c : Carrier F) (x : Memory (Entry H) gate.Sketch × Option (Entry H))
      → IsKept x.0 c (looked_up is_zero is_one digest ttl gate r (digest c.body) c x).store
  unfolding looked_up replay
  look_warms c (m, some e) = inl refl
  look_warms c (m, none) = elim (Bool-cases c.chat.stream) [
    | inl streamed ↦
        simp streamed (stream_warms is_zero is_one digest ttl gate r m (digest c.body) (r.next c))
    | inr unstreamed ↦ simp unstreamed (flight_warms m c r.part)
  ]

  -- Whatever happens to a request of the stage, the store is left as the request found it, or as its
  -- own look for the key left it, or, for an eligible request of the canonical wire, has for the key of
  -- the body the whole response that the rest of the chain wrote. Such a response has a status of success and, for a stream, was not aborted, and
  -- is stored for the time to live; or it is an error that a named upstream answered, up to 507, to a
  -- request that is no stream, and is stored for a tenth of it.
  pub stored_whole :
      (m : Memory (Entry H) gate.Sketch) (c : Carrier F)
      → let n = (cache_stage is_zero is_one digest ttl gate r m c).store in
        (n ≡ m)
        ⊎ (((c.canonical && eligible is_zero is_one c.chat) ≡ true)
            × IsKept (get gate m (digest c.body) r.read_at).0 c n)
  unfolding cache_stage
  stored_whole m c = elim (Bool-cases (c.canonical && eligible is_zero is_one c.chat)) [
    | inl cacheable ↦
        let look = look_warms c (get gate m (digest c.body) r.read_at) in
        inr (cacheable, simp cacheable look)
    | inr bypassed ↦ inl (simp bypassed refl)
  ]
