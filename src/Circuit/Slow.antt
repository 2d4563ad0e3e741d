-- ===== src/Circuit/Slow.antt =====
-- internal/circuit/slow.go: the slow-call registry over the shared machine. A machine is never
-- dropped from the map, so a permission's pointer to its state is the upstream's name. The mutex
-- makes each operation one step.
pub mod Evidence
mod Tests
use breakwater.Base.{
  ℕ, suc, ◌+◌, ◌*◌, ◌==◌, ◌&&◌, Bool, true, false, not, List, [], ◌∷◌, ◌++◌, Option, none, some,
  String, Assoc, lookup, insert, ltb, leb, if◌then◌else◌,
}
use breakwater.Circuit.Types.{
  State, closed, opened, half_open, Outcome, success, client_fault, server_fault, slow,
  gateway_terminated, ProbeGrant, Transition, Permission, same_grant,
}
use breakwater.Circuit.Machine.{Machine, Guarded, Governor, enter, reclaim, allow, observe}
use breakwater.Circuit.SlowWindow.{
  Window, empty, slow_min_samples, clear_window, record_completion, share,
}

-- A ratio as a fraction; a zero denominator is NaN. The code compares the rounded quotient of the
-- two counts with it, the model the exact one.
pub record Ratio : Type 0 where
  pub num : ℕ
  pub den : ℕ

pub record SlowConfig : Type 0 where
  pub slow_ratio : Ratio
  pub cooldown : ℕ
  pub probe_timeout : ℕ

-- `transitions` lists the calls of the observer, `next_serial` numbers the grants.
pub record SlowRegistry : Type 0 where
  pub gov : Governor
  pub slow_ratio : Ratio
  pub by_upstream : Assoc (Guarded Window)
  pub next_serial : ℕ
  pub transitions : List Transition

abbrev pub default_slow_ratio : Ratio
default_slow_ratio = record { num = 1; den = 2 }

abbrev or_default : ℕ → ℕ → ℕ
or_default n d = if n == 0 then d else n

-- The ratio lies in (0, 1].
abbrev is_share : Ratio → Bool
is_share r = ltb 0 r.num && leb r.num r.den

pub new_slow_registry : SlowConfig → Bool → SlowRegistry
new_slow_registry c observed = record {
  gov = record {
    cooldown = or_default c.cooldown 30_000_000_000;
    probe_timeout = or_default c.probe_timeout 5_000_000_000;
    observed = observed;
  };
  slow_ratio = if is_share c.slow_ratio then c.slow_ratio else default_slow_ratio;
  by_upstream = [];
  next_serial = 0;
  transitions = [];
}

fresh_slow : String → ℕ → Guarded Window
fresh_slow id stamp = record {
  machine = record { id = id; name = closed; opened_at = 0; probe = none };
  evidence = record { buckets = λ i. empty; offset = 0; last_write = stamp };
}

found : String → ℕ → Option (Guarded Window) → Guarded Window
unfolding fresh_slow
found id stamp none = fresh_slow id stamp
found id stamp (some s) = s

-- `stateOf`: a missing machine is created closed; `stamp` is the clock then.
pub slow_state_of : SlowRegistry → String → ℕ → Guarded Window
unfolding found
slow_state_of r id stamp = found id stamp (lookup id r.by_upstream)

pub store_slow : SlowRegistry → String → Guarded Window → List Transition → SlowRegistry
store_slow r id s fired = record r {
  by_upstream = insert id s r.by_upstream;
  transitions = r.transitions ++ fired;
}

admit_slow : SlowRegistry → String → Option (Option ProbeGrant) → SlowRegistry × Option Permission
admit_slow r id none = (r, none)
admit_slow r id (some none) =
    (r, some (record { upstream_id = id; grant = none; reported = false }))
admit_slow r id (some (some p)) = (
  record r { next_serial = suc r.next_serial },
  some (record { upstream_id = id; grant = some p; reported = false }),
)

-- `Allow`: `none` is a denial.
pub slow_allow : SlowRegistry → String → ℕ → SlowRegistry × Option Permission
unfolding admit_slow
slow_allow r id now =
    let (s, fired, admitted) = allow r.gov now r.next_serial (slow_state_of r id now) in
    admit_slow (store_slow r id s fired) id admitted

-- `StateOf`.
pub slow_read_state : SlowRegistry → String → ℕ → SlowRegistry × State
slow_read_state r id now =
    let (s, fired) = observe r.gov now (slow_state_of r id now) in (store_slow r id s fired, s.name)

-- `Reset`: the probe slot is given up by entering closed only.
pub slow_reset : SlowRegistry → String → ℕ → SlowRegistry
slow_reset r id now =
    let (s, fired) = enter r.gov now closed clear_window (slow_state_of r id now) in
    store_slow r id (record s { evidence = record (clear_window s.evidence) { last_write = now } })
      fired

pub is_gateway_cut : Outcome → Bool
is_gateway_cut gateway_terminated = true
is_gateway_cut _ = false

is_server_fault : Outcome → Bool
is_server_fault server_fault = true
is_server_fault _ = false

pub is_slow_evidence : Outcome → Bool
is_slow_evidence slow = true
is_slow_evidence server_fault = true
is_slow_evidence _ = false

-- The window has the samples and the share of slow ones that open the breaker.
pub trips : Ratio → ℕ × ℕ → Bool
trips ratio (total, slow_count) =
    leb slow_min_samples total && leb (ratio.num * total) (slow_count * ratio.den)

-- The closed half of `Report`.
pub slow_report_closed :
    Governor → Ratio → ℕ → ℕ → Outcome → Guarded Window → Guarded Window × List Transition
unfolding is_gateway_cut
slow_report_closed g ratio now stamp outcome s =
    if is_gateway_cut outcome
    then (s, [])
    else (let t = record s {
      evidence = record_completion now (is_slow_evidence outcome) s.evidence;
    } in
        if trips ratio (share now t.evidence) then enter g stamp opened (λ e. e) t else (t, []))

abbrev deadline_of : Option ProbeGrant → ℕ
deadline_of none = 0
deadline_of (some p) = p.deadline

-- The half-open part of `Report`: a fault counts even past the deadline.
pub slow_report_half_open :
    Governor
    → ℕ
    → ℕ
    → Option ProbeGrant
    → Outcome
    → Guarded Window
    → Guarded Window × List Transition
unfolding is_gateway_cut is_server_fault
slow_report_half_open g now stamp grant outcome s =
    if same_grant s.probe grant
    then (if is_gateway_cut outcome
        then reclaim g now s
        else (if ltb (deadline_of s.probe) now && not (is_server_fault outcome)
            then reclaim g now s
            else (let t = record s { machine = record (s.machine) { probe = none } } in
                if is_server_fault outcome
                then enter g stamp opened (λ e. e) t
                else enter g stamp closed clear_window t)))
    else (s, [])

pub slow_report_at :
    State
    → Governor
    → Ratio
    → ℕ
    → ℕ
    → Option ProbeGrant
    → Outcome
    → Guarded Window
    → Guarded Window × List Transition
slow_report_at closed g ratio now stamp grant outcome s =
    slow_report_closed g ratio now stamp outcome s
slow_report_at half_open g ratio now stamp grant outcome s =
    slow_report_half_open g now stamp grant outcome s
slow_report_at opened g ratio now stamp grant outcome s = (s, [])

-- `Report`: `now` is the clock's first reading, `stamp` the one taken when open is entered.
pub slow_report : SlowRegistry → Permission → Outcome → ℕ → ℕ → SlowRegistry × Permission
slow_report r p outcome now stamp =
    if p.reported
    then (r, p)
    else (let s = slow_state_of r p.upstream_id now in
        let (t, fired) = slow_report_at s.name r.gov r.slow_ratio now stamp p.grant outcome s in
        (store_slow r p.upstream_id t fired, record p { reported = true }))
