-- ===== src/Cache/Stage.antt =====
-- internal/cache/middleware.go and eligibility.go: the cache stage of the pipeline over the in-process
-- store. The rest of the chain is a function from the carrier to the carrier it leaves and what the
-- tee around the writer has captured; whether the request starts the shared fetch of its key or waits
-- for one is an argument, as Flight decides it. SHA-256, the header map and the float64 tests are
-- parameters. Requests of this stage have a carrier and a body.
pub mod Replayed
pub mod Stored
mod Tests
use breakwater.Base.{
  ℕ, ◌/◌, ◌==◌, Bool, true, false, not, ◌&&◌, ◌||◌, List, [], Option, none, some, String, str_eq,
  Assoc, ltb, leb, length, if◌then◌else◌,
}
use breakwater.Base.Int.{ℤ, pos, negsuc}
use breakwater.Cache.Memory.{Gate, Memory, MemoryEntry, get, set}

abbrev pub max_cacheable_bytes : ℕ
max_cacheable_bytes = 8_388_608

-- The fields of the canonical request that the stage reads, with numbers of the type `F`.
pub record ChatRequest (F : Type 0) : Type 0 where
  pub temperature : Option F
  pub top_p : Option F
  pub n : Option ℤ
  pub stream : Bool

pub record Entry (H : Type 0) : Type 0 where
  pub status : ℕ
  pub header : H
  pub body : List ℕ

-- What the tee has recorded; no status is 0.
pub record Tee (H : Type 0) : Type 0 where
  pub status : ℕ
  pub header : H
  pub body : List ℕ
  pub truncated : Bool

pub record Relayed : Type 0 where
  pub upstream_id : String
  pub aborted : Bool

-- What the stage reads and writes of the carrier; `canonical` says whether its format is the
-- canonical wire.
pub record Carrier (F : Type 0) : Type 0 where
  pub canonical : Bool
  pub chat : ChatRequest F
  pub body : List ℕ
  pub consumed : ℤ
  pub cache_hit : Bool
  pub served_by : String
  pub relay : Option Relayed

-- How a request takes part in the flight of its key: it fetches, or it gets the shared outcome; a
-- failed fetch is `none`.
pub data Part (H : Type 0) : Type 0 where
  starts : Part H
  waits : Option (Entry H) → Part H

-- What the client gets from the stage: what the chain wrote, a stored entry, the 502 envelope, or
-- nothing because it is gone.
pub data Reply (H : Type 0) : Type 0 where
  passed : Reply H
  replayed : Entry H → Reply H
  bad_gateway : Reply H
  silence : Reply H

module _ {F : Type 0} (is_zero is_one : F → Bool) where
  absent_or : {A : Type 0} → (A → Bool) → Option A → Bool
  absent_or test none = true
  absent_or test (some a) = test a

  explicit : (F → Bool) → Option F → Bool
  explicit test none = false
  explicit test (some f) = test f

  is_one_choice : ℤ → Bool
  is_one_choice (pos n) = n == 1
  is_one_choice (negsuc n) = false

  pub eligible : ChatRequest F → Bool
  unfolding explicit absent_or is_one_choice
  eligible req =
      explicit is_zero req.temperature
      && absent_or is_one req.top_p
      && absent_or is_one_choice req.n

unfoldable pub is_success : ℕ → Bool
is_success status = leb 200 status && ltb status 300

is_aborted : Option Relayed → Bool
is_aborted none = false
is_aborted (some r) = r.aborted

-- No upstream is named where the relay has no result or an empty name.
unfoldable pub names_upstream : Option Relayed → Bool
names_upstream none = false
names_upstream (some r) = not (str_eq r.upstream_id "")

pub relay_aborted : {F : Type 0} → Carrier F → Bool
unfolding is_aborted
relay_aborted c = is_aborted c.relay

module _ {H : Type 0} where
  pub capture : Tee H → Entry H
  capture t = record { status = t.status; header = t.header; body = t.body }

  pub store_worthy : Tee H → Bool
  unfolding is_success
  store_worthy t = is_success t.status && not t.truncated

  pub store_worthy_from_entry : Entry H → Bool
  unfolding is_success
  store_worthy_from_entry e = is_success e.status && leb (length e.body) max_cacheable_bytes

  -- The outcome of the fetch function: `none` where it produced no response or one too large.
  pub fetched_entry : Tee H → Option (Entry H)
  unfolding capture
  fetched_entry t =
      if ltb t.status 100 || ltb 599 t.status
      then none
      else (if t.truncated then none else some (capture t))

  -- The negative answers of a flight.
  refusal : Bool → Reply H
  refusal gone = if gone then silence else bad_gateway

pub negatively_cacheable : {H F : Type 0} → Entry H → Carrier F → Bool
unfolding is_success names_upstream
negatively_cacheable e c =
    str_eq c.served_by ""
    && names_upstream c.relay
    && (if leb 400 e.status && leb e.status 507
        then true
        else is_success e.status && length e.body == 0)

-- The stage's surroundings in one request: the rest of the chain, the part in the flight, whether the
-- client is gone when a failed fetch is answered, and what the clock, the draws and the range orders
-- give to the store.
pub record Request (H F : Type 0) : Type 0 where
  pub next : Carrier F → Carrier F × Tee H
  pub part : Part H
  pub gone : Bool
  pub read_at : ℕ
  pub stored_at : ℕ
  pub scaled : ℕ → ℕ
  pub sweep_order : List String
  pub order : Assoc (MemoryEntry (Entry H)) → List String

-- What a request leaves; `forwarded` says whether the rest of the chain was called.
pub record Served (H F S : Type 0) : Type 0 where
  pub store : Memory (Entry H) S
  pub carrier : Carrier F
  pub reply : Reply H
  pub forwarded : Bool

module _ {H F : Type 0} (is_zero is_one : F → Bool) (digest : List ℕ → String) (ttl : ℕ)
    (gate : Gate) where
  write :
      Request H F
      → Memory (Entry H) gate.Sketch
      → String
      → Entry H
      → ℕ
      → Memory (Entry H) gate.Sketch
  write r m key e base = set gate m key e base r.scaled r.stored_at r.sweep_order r.order

  -- A replay, from the store or from a shared fetch.
  pub replay : String → Memory (Entry H) gate.Sketch → Carrier F → Entry H → Served H F gate.Sketch
  replay source m c e = record {
    store = m;
    carrier = record c { cache_hit = true; consumed = pos 0; served_by = source };
    reply = replayed e;
    forwarded = false;
  }

  -- A stream that missed.
  stream_miss :
      Request H F
      → Memory (Entry H) gate.Sketch
      → String
      → Carrier F × Tee H
      → Served H F gate.Sketch
  unfolding write capture store_worthy relay_aborted
  stream_miss r m key (c, t) = record {
    store = if store_worthy t && not (relay_aborted c) then write r m key (capture t) ttl else m;
    carrier = c;
    reply = passed;
    forwarded = true;
  }

  -- The end of a fetch that this request started.
  started :
      Request H F
      → Memory (Entry H) gate.Sketch
      → String
      → Carrier F
      → Tee H
      → Option (Entry H)
      → Served H F gate.Sketch
  unfolding write refusal store_worthy_from_entry negatively_cacheable
  started r m key c t none = record {
    store = m;
    carrier = c;
    reply = if ltb t.status 100 then refusal r.gone else passed;
    forwarded = true;
  }
  started r m key c t (some e) = record {
    store =
        if store_worthy_from_entry e
        then write r m key e ttl
        else (if negatively_cacheable e c then write r m key e (ttl / 10) else m);
    carrier = c;
    reply = passed;
    forwarded = true;
  }

  -- A request that is not a stream, and missed.
  flight_miss :
      Request H F
      → Memory (Entry H) gate.Sketch
      → String
      → Carrier F
      → Part H
      → Served H F gate.Sketch
  unfolding replay refusal started fetched_entry
  flight_miss r m key c starts = let (d, t) = r.next c in started r m key d t (fetched_entry t)
  flight_miss r m key c (waits (some e)) = replay "shared-fetch" m c e
  flight_miss r m key c (waits none) = record {
    store = m;
    carrier = c;
    reply = refusal r.gone;
    forwarded = false;
  }

  -- The request after the look into the store.
  looked_up :
      Request H F
      → String
      → Carrier F
      → Memory (Entry H) gate.Sketch × Option (Entry H)
      → Served H F gate.Sketch
  unfolding replay stream_miss flight_miss
  looked_up r key c (m, some e) = replay "cache" m c e
  looked_up r key c (m, none) =
      if c.chat.stream then stream_miss r m key (r.next c) else flight_miss r m key c r.part

  -- `Middleware`.
  pub cache_stage : Request H F → Memory (Entry H) gate.Sketch → Carrier F → Served H F gate.Sketch
  unfolding looked_up eligible
  cache_stage r m c =
      let (d, t) = r.next c in
      if c.canonical && eligible is_zero is_one c.chat
      then looked_up r (digest c.body) c (get gate m (digest c.body) r.read_at)
      else record { store = m; carrier = d; reply = passed; forwarded = true }
