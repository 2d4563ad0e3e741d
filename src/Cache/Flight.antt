-- ===== src/Cache/Flight.antt =====
-- internal/cache/singleflight.go: one fetch per key. A flight is numbered in the order of creation and
-- has one holder, whose progress is the flight's stage; the waiters are numbered callers. Each critical
-- section, each write of the holder and each wake of a waiter is one step, taken in any order; a step
-- that its caller is not ready for changes nothing. A fetch that panics publishes an error as its
-- outcome and goes on in the same order.
pub mod Invariant
pub mod Steps
pub mod Published
pub mod Served
mod Tests
use breakwater.Base.{
  ℕ, ◌+◌, Bool, true, false, List, [], ◌∷◌, Option, none, some, String, Assoc, lookup, insert,
  delete, ◌==◌, ltb, if◌then◌else◌,
}

-- The holder runs the fetch, has written its outcome, has left the registry, has closed the channel.
pub data Stage (R : Type 0) : Type 0 where
  running : Stage R
  fetched : R → Stage R
  removed : R → Stage R
  closed : R → Stage R

-- `call`.
pub record Call (R : Type 0) : Type 0 where
  pub key : String
  pub stage : Stage R

-- A caller that does not hold a flight.
pub data Waiter (R : Type 0) : Type 0 where
  idle : Waiter R
  waiting : ℕ → Waiter R
  got : ℕ → R → Waiter R
  left : ℕ → Waiter R

-- `Flight`, with every call that it made.
pub record Flight (R : Type 0) : Type 0 where
  pub calls : Assoc ℕ
  pub flights : ℕ → Call R
  pub next : ℕ
  pub waiters : ℕ → Waiter R

abbrev pub update {ℓ} : {A : Type ℓ} → (ℕ → A) → ℕ → A → ℕ → A
update f i v j = if j == i then v else f j

-- `NewFlight`.
pub new_flight : {R : Type 0} → Flight R
new_flight = record {
  calls = [];
  flights = λ i. record { key = ""; stage = running };
  next = 0;
  waiters = λ c. idle;
}

module _ {R : Type 0} where
  pub set_stage : ℕ → Stage R → Flight R → Flight R
  set_stage id x s = record s {
    flights = update s.flights id (record { key = (s.flights id).key; stage = x });
  }

  pub set_waiter : ℕ → Waiter R → Flight R → Flight R
  set_waiter c x s = record s { waiters = update s.waiters c x }

  -- The critical section at the head of `Do`.
  pub join : String → ℕ → Option ℕ → Flight R → Flight R
  unfolding set_waiter
  join key c (some id) s = set_waiter c (waiting id) s
  join key c none s = record s {
    calls = insert key s.next s.calls;
    flights = update s.flights s.next (record { key = key; stage = running });
    next = s.next + 1;
  }

  enter : String → ℕ → Waiter R → Flight R → Flight R
  unfolding join
  enter key c idle s = join key c (lookup key s.calls) s
  enter key c _ s = s

  -- The steps of a holder: the outcome is written, the key leaves the registry, the channel closes.
  fetch : ℕ → R → Stage R → Flight R → Flight R
  unfolding set_stage
  fetch id r running s = set_stage id (fetched r) s
  fetch id r _ s = s

  pub remove : ℕ → Stage R → Flight R → Flight R
  unfolding set_stage
  remove id (fetched r) s = record (set_stage id (removed r) s) {
    calls = delete (s.flights id).key s.calls;
  }
  remove id _ s = s

  close : ℕ → Stage R → Flight R → Flight R
  unfolding set_stage
  close id (removed r) s = set_stage id (closed r) s
  close id _ s = s

  -- The two ways out of `wait`.
  wake : ℕ → ℕ → Stage R → Flight R → Flight R
  unfolding set_waiter
  wake c id (closed r) s = set_waiter c (got id r) s
  wake c id _ s = s

  receive : ℕ → Waiter R → Flight R → Flight R
  unfolding wake
  receive c (waiting id) s = wake c id (s.flights id).stage s
  receive c _ s = s

  leave : ℕ → Waiter R → Flight R → Flight R
  unfolding set_waiter
  leave c (waiting id) s = set_waiter c (left id) s
  leave c _ s = s

pub data Action (R : Type 0) : Type 0 where
  enters : String → ℕ → Action R
  fetches : ℕ → R → Action R
  removes : ℕ → Action R
  closes : ℕ → Action R
  receives : ℕ → Action R
  leaves : ℕ → Action R

-- The holder of a flight that was never made does nothing.
pub step : {R : Type 0} → Action R → Flight R → Flight R
unfolding enter fetch remove close receive leave
step (enters key c) s = enter key c (s.waiters c) s
step (fetches id r) s = if ltb id s.next then fetch id r (s.flights id).stage s else s
step (removes id) s = if ltb id s.next then remove id (s.flights id).stage s else s
step (closes id) s = if ltb id s.next then close id (s.flights id).stage s else s
step (receives c) s = receive c (s.waiters c) s
step (leaves c) s = leave c (s.waiters c) s

-- A run, oldest step first.
pub run : {R : Type 0} → Flight R → List (Action R) → Flight R
unfolding step
run s [] = s
run s (a ∷ actions) = run (step a s) actions
