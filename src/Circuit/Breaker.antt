-- ===== src/Circuit/Breaker.antt =====
-- internal/circuit/breaker.go: the consecutive-failure registry. The evidence is the failure count.
-- A machine is never dropped from the map, so a permission's pointer to its state is the
-- upstream's name. The registry's mutex makes each operation one step.
pub mod Invariant
pub mod Local
pub mod Runs
pub mod Trails
pub mod Recovery
mod Tests
use breakwater.Base.{
  ℕ, suc, ◌+◌, ◌==◌, Bool, true, false, List, [], ◌∷◌, ◌++◌, Option, none, some, String, Assoc,
  lookup, insert, ltb, leb, if◌then◌else◌, ◌≡◌, str_eq, lookup-insert, arith,
}
use breakwater.Circuit.Types.{
  State, closed, opened, half_open, Outcome, success, client_fault, server_fault, slow,
  gateway_terminated, ProbeGrant, Transition, Permission, Config, same_grant,
}
use breakwater.Circuit.Machine.{Machine, Guarded, Governor, enter, reclaim, allow, observe}

-- `next_serial` numbers the grants that have been allocated; `transitions` lists the calls of the
-- observer, oldest first.
pub record Registry : Type 0 where
  pub gov : Governor
  pub fail_threshold : ℕ
  pub by_upstream : Assoc (Guarded ℕ)
  pub next_serial : ℕ
  pub transitions : List Transition

abbrev pub default_fail_threshold : ℕ
default_fail_threshold = 5

abbrev pub default_cooldown : ℕ
default_cooldown = 30_000_000_000

abbrev pub default_probe_timeout : ℕ
default_probe_timeout = 5_000_000_000

abbrev or_default : ℕ → ℕ → ℕ
or_default n d = if n == 0 then d else n

pub new_registry : Config → Bool → Registry
new_registry c observed = record {
  gov = record {
    cooldown = or_default c.cooldown default_cooldown;
    probe_timeout = or_default c.probe_timeout default_probe_timeout;
    observed = observed;
  };
  fail_threshold = or_default c.fail_threshold default_fail_threshold;
  by_upstream = [];
  next_serial = 0;
  transitions = [];
}

abbrev fresh : String → Guarded ℕ
fresh id = record {
  machine = record { id = id; name = closed; opened_at = 0; probe = none };
  evidence = 0;
}

abbrev found : String → Option (Guarded ℕ) → Guarded ℕ
found id none = fresh id
found id (some s) = s

-- `stateOf`: a missing machine is created closed.
unfoldable pub state_of : Registry → String → Guarded ℕ
state_of r id = found id (lookup id r.by_upstream)

-- The registry after a step of one machine.
unfoldable pub store : Registry → String → Guarded ℕ → List Transition → Registry
store r id s fired = record r {
  by_upstream = insert id s r.by_upstream;
  transitions = r.transitions ++ fired;
}

pub state_of-store :
    (r : Registry) (id j : String) (s : Guarded ℕ) (fired : List Transition)
    → state_of (store r id s fired) j ≡ (if str_eq id j then s else state_of r j)
unfolding state_of store
state_of-store r id j s fired = rw lookup-insert (ground arith)

-- A permission of an admission; the serial of a grant is used up by it.
admit : Registry → String → Option (Option ProbeGrant) → Registry × Option Permission
admit r id none = (r, none)
admit r id (some none) = (r, some (record { upstream_id = id; grant = none; reported = false }))
admit r id (some (some p)) = (
  record r { next_serial = suc r.next_serial },
  some (record { upstream_id = id; grant = some p; reported = false }),
)

-- `Allow`: `none` is a denial.
pub allow_call : Registry → String → ℕ → Registry × Option Permission
unfolding admit
allow_call r id now =
    let (s, fired, admitted) = allow r.gov now r.next_serial (state_of r id) in
    admit (store r id s fired) id admitted

-- `StateOf`.
pub read_state : Registry → String → ℕ → Registry × State
read_state r id now =
    let (s, fired) = observe r.gov now (state_of r id) in (store r id s fired, s.name)

reset_state : Governor → ℕ → Guarded ℕ → Guarded ℕ × List Transition
unfolding enter
reset_state g stamp s =
    enter g stamp closed (λ e. e)
      (record { machine = record (s.machine) { probe = none }; evidence = 0 })

-- `Reset`.
pub reset : Registry → String → ℕ → Registry
unfolding reset_state
reset r id stamp = let (s, fired) = reset_state r.gov stamp (state_of r id) in store r id s fired

-- The closed half of `Report`.
report_closed : Governor → ℕ → ℕ → Outcome → Guarded ℕ → Guarded ℕ × List Transition
unfolding enter
report_closed g threshold stamp server_fault s =
    let t = record s { evidence = s.evidence + 1 } in
    if leb threshold t.evidence then enter g stamp opened (λ e. e) t else (t, [])
report_closed g threshold stamp gateway_terminated s = (s, [])
report_closed g threshold stamp _ s = (record s { evidence = 0 }, [])

-- A probe that answered in time.
settle_probe : Governor → ℕ → Outcome → Guarded ℕ → Guarded ℕ × List Transition
unfolding enter
settle_probe g stamp server_fault s = enter g stamp opened (λ e. e) s
settle_probe g stamp gateway_terminated s = (s, [])
settle_probe g stamp _ s = enter g stamp closed (λ _. 0) s

is_gateway_terminated : Outcome → Bool
is_gateway_terminated gateway_terminated = true
is_gateway_terminated _ = false

abbrev deadline_of : Option ProbeGrant → ℕ
deadline_of none = 0
deadline_of (some p) = p.deadline

-- The half-open part of `Report`, for a permission that holds `grant`.
report_half_open :
    Governor → ℕ → ℕ → Option ProbeGrant → Outcome → Guarded ℕ → Guarded ℕ × List Transition
unfolding settle_probe is_gateway_terminated reclaim
report_half_open g now stamp grant outcome s =
    if same_grant s.probe grant
    then (if is_gateway_terminated outcome
        then reclaim g now s
        else (if ltb (deadline_of s.probe) now
            then reclaim g now s
            else settle_probe g stamp outcome
                (record s { machine = record (s.machine) { probe = none } })))
    else (s, [])

report_at :
    State
    → Governor
    → ℕ
    → ℕ
    → ℕ
    → Option ProbeGrant
    → Outcome
    → Guarded ℕ
    → Guarded ℕ × List Transition
unfolding report_closed report_half_open
report_at closed g threshold now stamp grant outcome s = report_closed g threshold stamp outcome s
report_at half_open g threshold now stamp grant outcome s =
    report_half_open g now stamp grant outcome s
report_at opened g threshold now stamp grant outcome s = (s, [])

-- `Report`: `now` is the clock's first reading, `stamp` the one taken when open is entered.
pub report : Registry → Permission → Outcome → ℕ → ℕ → Registry × Permission
unfolding report_at
report r p outcome now stamp =
    if p.reported
    then (r, p)
    else (let s = state_of r p.upstream_id in
        let (t, fired) = report_at s.name r.gov r.fail_threshold now stamp p.grant outcome s in
        (store r p.upstream_id t fired, record p { reported = true }))

-- The calls of the port, with what the clock reads during each. A permission may be any value.
pub data Call : Type 0 where
  allows : String → ℕ → Call
  reads : String → ℕ → Call
  resets : String → ℕ → Call
  reports : Permission → Outcome → ℕ → ℕ → Call

pub step : Registry → Call → Registry
step r (allows id now) = (allow_call r id now).0
step r (reads id now) = (read_state r id now).0
step r (resets id stamp) = reset r id stamp
step r (reports p o now stamp) = (report r p o now stamp).0

pub run : Registry → List Call → Registry
run r [] = r
run r (c ∷ calls) = run (step r c) calls
