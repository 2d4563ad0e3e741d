-- ===== src/Recovery.antt =====
-- cmd/breakwater/recovery.go: the recovery loop over the router's switch and the breakers. The
-- goroutine owns its book, so a pass is one function; the order of the sorted identifiers, what each
-- probe answers and what the clock reads are arguments, and the metric calls are a log, newest first.
pub mod Backoff
pub mod Streak
pub mod Restored
mod Tests
use breakwater.Base.{
  ℕ, zero, suc, ◌+◌, ◌-◌, ◌*◌, ◌%◌, ◌^◌, ◌==◌, Bool, true, false, not, ◌&&◌, ◌||◌, List, [], ◌∷◌,
  ◌++◌, Option, none, some, String, Assoc, lookup, insert, delete, Result, ok, err, ltb, leb,
  if◌then◌else◌,
}
use breakwater.Base.Int.{pos, pos_part, ltb_ℤ, int64}
use breakwater.Circuit.Types.{State, closed, opened, half_open}
use breakwater.Circuit.Port.{Port}
use breakwater.Circuit.Prober.{Check, healthy, failed, cancelled, Clock, active_probe}
use breakwater.Router.Control.{Switch, AutoDisable, Error, auto_enable_upstream, is_some}

pub record ProbeRetry : Type 0 where
  pub fails : ℕ
  pub next : ℕ

pub record ProbeBook : Type 0 where
  pub passes : Assoc ℕ
  pub retries : Assoc ProbeRetry

-- `due`.
abbrev pub is_due : ProbeRetry → ℕ → Bool
is_due r now = leb r.next now

-- The loop of `probeBackoff`, with the rounds that are left.
pub double_up : ℕ → ℕ → ℕ → ℕ
double_up zero ceiling delay = delay
double_up (suc rounds) ceiling delay =
    let doubled = int64 (pos (delay * 2)) in
    let rest = double_up rounds ceiling (pos_part doubled) in
    if leb ceiling delay
    then ceiling
    else (if ltb_ℤ (pos ceiling) doubled || not (ltb_ℤ (pos 0) doubled) then ceiling else rest)

-- `probeBackoff`; the durations are not negative.
pub probe_backoff : ℕ → ℕ → ℕ → ℕ
probe_backoff base ceiling fails =
    double_up (fails - 1) ceiling (if ltb ceiling base then ceiling else base)

-- The parameters of `startRecovery`; `probes` holds the upstreams that can be asked.
pub record Config : Type 0 where
  pub interval : ℕ
  pub backoff : ℕ
  pub passes : ℕ
  pub probes : Assoc (Unit {0})

-- One call of the probe metric.
-- The book of a loop that starts.
abbrev pub new_book : ProbeBook
new_book = record { passes = []; retries = [] }

pub record Probed : Type 0 where
  pub id : String
  pub passed : Bool

-- What the passes read and write: the switch, the book, the calls of the metric and those of the
-- callback of the switch, each newest first.
pub record Loop : Type 0 where
  pub switch : Switch
  pub book : ProbeBook
  pub log : List Probed
  pub called : List String

abbrev pub count_of : Option ℕ → ℕ
count_of none = 0
count_of (some n) = n

abbrev fails_of : Option ProbeRetry → ℕ
fails_of none = 0
fails_of (some r) = r.fails

is_waiting : ℕ → ℕ → Option ProbeRetry → Bool
is_waiting backoff now none = false
is_waiting backoff now (some r) = ltb 0 backoff && not (is_due r now)

-- A probe that failed: the streak is over, and the next attempt waits for longer.
note_failure : Config → ℕ → String → Loop → Loop
unfolding probe_backoff
note_failure c start id l =
    let fails = fails_of (lookup id l.book.retries) + 1 in
    record l {
      book = record {
        passes = insert id 0 l.book.passes;
        retries =
            insert id
              (record { fails = fails; next = start + probe_backoff c.interval c.backoff fails })
              l.book.retries;
      };
      log = record { id = id; passed = false } ∷ l.log;
    }

-- The streak is long enough; a switch that refuses leaves the book as it is.
restore : String → Loop → Switch × Result Error (Unit {0}) × List String → Loop
restore id l (s, ok u, fired) = record l {
  switch = s;
  book = record (l.book) { passes = delete id l.book.passes };
  called = fired ++ l.called;
}
restore id l (s, err e, fired) = record l { switch = s; called = fired ++ l.called }

-- A probe that succeeded lengthens the streak and forgets the ladder.
noted : String → Loop → Loop
noted id l = record l {
  book = record {
    passes = insert id (count_of (lookup id l.book.passes) + 1) l.book.passes;
    retries = delete id l.book.retries;
  };
  log = record { id = id; passed = true } ∷ l.log;
}

note_success : Config → String → Loop → Loop
unfolding noted restore
note_success c id l =
    if ltb (count_of (lookup id l.book.passes) + 1) c.passes
    then noted id l
    else restore id (noted id l) (auto_enable_upstream l.switch id)

-- The body of the loop of `recoverAutoDisabled`.
pub recover_one : Config → ℕ → (String → Bool) → String → Loop → Loop
unfolding is_waiting note_failure note_success
recover_one c start answers id l =
    if not (is_some (lookup id c.probes))
    then l
    else (if is_waiting c.backoff start (lookup id l.book.retries)
        then l
        else (if answers id then note_success c id l else note_failure c start id l))

pub recover_each : Config → ℕ → (String → Bool) → List String → Loop → Loop
recover_each c start answers [] l = l
recover_each c start answers (id ∷ ids) l =
    recover_each c start answers ids (recover_one c start answers id l)

-- `AutoDisabledIDs`, before they are sorted.
pub auto_disabled_ids : Assoc AutoDisable → List String
auto_disabled_ids [] = []
auto_disabled_ids ((id, d) ∷ m) = id ∷ auto_disabled_ids m

-- `recoverAutoDisabled`: `start` is the one reading of the clock, `answers` what the probes answer.
pub recover_auto_disabled : (List String → List String) → Config → ℕ → (String → Bool) → Loop → Loop
recover_auto_disabled sorted c start answers l =
    recover_each c start answers (sorted (auto_disabled_ids l.switch.auto_disabled)) l

-- One round of `reviveEjected`: what the clock reads and what the probe answers.
pub record Visit : Type 0 where
  pub id : String
  pub read : ℕ
  pub clock : Clock
  pub check : Check

module _ {R : Type 0} (breaker : Port R) where
  is_ejected : State → Bool
  is_ejected opened = true
  is_ejected half_open = true
  is_ejected closed = false

  logged : String → Option Check → List Probed → List Probed
  logged id none log = log
  logged id (some healthy) log = record { id = id; passed = true } ∷ log
  logged id (some failed) log = record { id = id; passed = false } ∷ log
  logged id (some cancelled) log = record { id = id; passed = false } ∷ log

  -- The body of the loop of `reviveEjected`.
  pub revive_one : ℕ → Clock → Check → String → R × List Probed → R × List Probed
  unfolding is_ejected logged
  revive_one read clock check id (r, log) =
      let (seen, state) = breaker.state_of r id read in
      if is_ejected state
      then (let (probed, ran) = active_probe breaker seen id clock check in
          (probed, logged id ran log))
      else (seen, log)

  -- `reviveEjected`, with the upstreams in the order that the map is ranged in.
  pub revive_ejected : List Visit → R × List Probed → R × List Probed
  revive_ejected [] s = s
  revive_ejected (v ∷ visits) s = revive_ejected visits (revive_one v.read v.clock v.check v.id s)
