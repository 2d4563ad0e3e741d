-- ===== src/Circuit/Machine.antt =====
-- internal/circuit/machine.go: the three-state skeleton of the two state-machine strategies.
-- A strategy's own evidence (a failure count, a sample window) stands beside the machine.
use breakwater.Base.{ℕ, ◌+◌, Bool, List, [], ◌∷◌, Option, none, some, String, ltb, if◌then◌else◌}
use breakwater.Circuit.Types.{State, closed, opened, half_open, state_eq, ProbeGrant, Transition}

pub record Machine : Type 0 where
  pub id : String
  pub name : State
  pub opened_at : ℕ
  pub probe : Option ProbeGrant

pub record Guarded (E : Type 0) : Type 0 where
  pub machine : Machine
  pub open machine use *
  pub evidence : E

-- `observed` says whether `onTransition` is installed.
pub record Governor : Type 0 where
  pub cooldown : ℕ
  pub probe_timeout : ℕ
  pub observed : Bool

-- The call of the transition observer, when one is installed.
fire : Governor → String → State → State → List Transition
fire g id from to =
    if g.observed then record { upstream_id = id; from = from; to = to } ∷ [] else []

module _ {E : Type 0} (g : Governor) where
  settle : ℕ → State → (E → E) → Guarded E → Guarded E
  settle stamp opened on_closed s = record s {
    machine = record (s.machine) { name = opened; opened_at = stamp };
  }
  settle stamp closed on_closed s = record {
    machine = record (s.machine) { name = closed; probe = none };
    evidence = on_closed s.evidence;
  }
  settle stamp half_open on_closed s = record s {
    machine = record (s.machine) { name = half_open };
  }

  -- `stamp` is what the clock reads when open is entered.
  unfoldable pub enter : ℕ → State → (E → E) → Guarded E → Guarded E × List Transition
  unfolding settle fire
  enter stamp to on_closed s =
      if state_eq s.name to then (s, []) else (settle stamp to on_closed s, fire g s.id s.name to)

  unfoldable pub reclaim : ℕ → Guarded E → Guarded E × List Transition
  unfolding enter
  reclaim now s =
      let (t, fired) =
        enter now opened (λ e. e) (record s { machine = record (s.machine) { probe = none } }) in
      (record t { machine = record (t.machine) { opened_at = now } }, fired)

  -- The probe slot goes to a new grant of the given serial number.
  grant_probe :
      ℕ → ℕ → Guarded E → List Transition → Guarded E × List Transition × Option (Option ProbeGrant)
  grant_probe now serial s fired =
      let grant : ProbeGrant = record { serial = serial; deadline = now + g.probe_timeout } in
      (record s { machine = record (s.machine) { probe = some grant } }, fired, some (some grant))

  half_open_allow :
      ℕ
      → ℕ
      → Option ProbeGrant
      → Guarded E
      → Guarded E × List Transition × Option (Option ProbeGrant)
  unfolding reclaim grant_probe
  half_open_allow now serial none s = grant_probe now serial s []
  half_open_allow now serial (some p) s =
      if ltb p.deadline now
      then (let (t, fired) = reclaim now s in (t, fired, none))
      else (s, [], none)

  allow_at : State → ℕ → ℕ → Guarded E → Guarded E × List Transition × Option (Option ProbeGrant)
  unfolding half_open_allow enter grant_probe
  allow_at closed now serial s = (s, [], some none)
  allow_at opened now serial s =
      if ltb now (s.opened_at + g.cooldown)
      then (s, [], none)
      else (let (t, fired) = enter now half_open (λ e. e) s in grant_probe now serial t fired)
  allow_at half_open now serial s = half_open_allow now serial s.probe s

  -- The last part is the admission: `none` denies, `some grant` hands a permission its grant.
  unfoldable pub allow :
      ℕ → ℕ → Guarded E → Guarded E × List Transition × Option (Option ProbeGrant)
  unfolding allow_at
  allow now serial s = allow_at s.name now serial s

  observe_probe : ℕ → Option ProbeGrant → Guarded E → Guarded E × List Transition
  unfolding reclaim
  observe_probe now none s = (s, [])
  observe_probe now (some p) s = if ltb p.deadline now then reclaim now s else (s, [])

  observe_at : State → ℕ → Guarded E → Guarded E × List Transition
  unfolding enter observe_probe
  observe_at closed now s = (s, [])
  observe_at opened now s =
      if ltb now (s.opened_at + g.cooldown) then (s, []) else enter now half_open (λ e. e) s
  observe_at half_open now s = observe_probe now s.probe s

  -- The state that a read returns is the name of the machine it leaves.
  unfoldable pub observe : ℕ → Guarded E → Guarded E × List Transition
  unfolding observe_at
  observe now s = observe_at s.name now s
