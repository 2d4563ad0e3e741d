-- ===== src/Circuit/Breaker/Runs.antt =====
-- What a breaker lets through over whole runs of calls.
use breakwater.Base.{
  ℕ, ◌+◌, ◌≤◌, ◌<◌, ◌≡◌, refl, ◌∙◌, inl, inr, true, false, List, [], ◌∷◌, none, some, String,
  str_eq, arith, Bool-cases, str_eq_refl, if◌then◌else◌, All, length, leb,
}
use breakwater.Circuit.Types.{
  closed, opened, half_open, server_fault, ProbeGrant, Permission, same_grant,
}
use breakwater.Circuit.Machine.{Guarded, Governor, allow, observe}
use breakwater.Circuit.Breaker.{
  Registry, state_of, allow_call, report_at, admit, Call, allows, reads, resets, reports, step, run,
}
use breakwater.Circuit.Breaker.Local.{machine_step, state_of-step, gov-step, threshold-step}

-- The calls that leave the machine of `id` alone until `t`: no reset, and no clock at `t` or later.
abbrev pub IsBefore : String → ℕ → Call → Type 0
IsBefore id t (allows j now) = str_eq j id ≡ true → now < t
IsBefore id t (reads j now) = str_eq j id ≡ true → now < t
IsBefore id t (resets j stamp) = str_eq j id ≡ false
IsBefore id t (reports p o now stamp) = Unit {0}

machine_step-opened :
    (g : Governor) (k n : ℕ) (id : String) (c : Call) (s : Guarded ℕ)
    → s.machine.name ≡ opened
    → IsBefore id (s.machine.opened_at + g.cooldown) c
    → machine_step g k n id c s ≡ s
unfolding machine_step allow observe report_at
machine_step-opened g k n id (allows j now) s e h = ground arith
machine_step-opened g k n id (reads j now) s e h = ground arith
machine_step-opened g k n id (resets j stamp) s e h = ground arith
machine_step-opened g k n id (reports p o now stamp) s e h = ground arith

-- The calls that leave an outstanding probe of `id` alone: clocks up to its deadline, no reset, and
-- no report by the probe's own holder.
abbrev pub IsAside : String → ProbeGrant → Call → Type 0
IsAside id q (allows j now) = str_eq j id ≡ true → now ≤ q.deadline
IsAside id q (reads j now) = str_eq j id ≡ true → now ≤ q.deadline
IsAside id q (resets j stamp) = str_eq j id ≡ false
IsAside id q (reports p o now stamp) = same_grant (some q) p.grant ≡ false

machine_step-probing :
    (g : Governor) (k n : ℕ) (id : String) (c : Call) (s : Guarded ℕ) (q : ProbeGrant)
    → s.machine.name ≡ half_open
    → s.machine.probe ≡ some q
    → IsAside id q c
    → machine_step g k n id c s ≡ s
unfolding machine_step allow observe report_at
machine_step-probing g k n id (allows j now) s q e f h = ground arith
machine_step-probing g k n id (reads j now) s q e f h = ground arith
machine_step-probing g k n id (resets j stamp) s q e f h = ground arith
machine_step-probing g k n id (reports p o now stamp) s q e f h = ground arith

-- A run whose every call leaves the machine of `id` alone leaves it alone.
run_unchanged :
    (P : Call → Type 0) (s : Guarded ℕ) (g : Governor) (id : String)
    → ((k n : ℕ) (c : Call) → P c → machine_step g k n id c s ≡ s)
    → (calls : List Call) → All P calls
    → (r : Registry) → r.gov ≡ g
    → state_of r id ≡ s
    → (state_of (run r calls) id ≡ s) × ((run r calls).gov ≡ g)
unfolding run
run_unchanged P s g id keep [] h r eg es = (es, eg)
run_unchanged P s g id keep (c ∷ calls) h r eg es =
    run_unchanged P s g id keep calls h.1 (step r c) (gov-step r c ∙ eg)
      (state_of-step r c id ∙ rw (es, eg) (keep r.fail_threshold r.next_serial c h.0))

denied_opened :
    (r : Registry) (id : String) (now : ℕ) (s : Guarded ℕ) (g : Governor)
    → state_of r id ≡ s
    → r.gov ≡ g
    → s.machine.name ≡ opened
    → now < s.machine.opened_at + g.cooldown
    → (allow_call r id now).1 ≡ none
unfolding allow_call allow admit
denied_opened r id now s g es eg e h = rw (es, eg, allow_call) (ground arith)

denied_probing :
    (r : Registry) (id : String) (now : ℕ) (s : Guarded ℕ) (q : ProbeGrant)
    → state_of r id ≡ s
    → s.machine.name ≡ half_open
    → s.machine.probe ≡ some q
    → (allow_call r id now).1 ≡ none
unfolding allow_call allow admit
denied_probing r id now s q es e f = rw (es, allow_call) (ground arith)

-- An open breaker stays exactly as it is, and denies, until its cooldown has passed, whatever calls
-- come before: reports of any permissions, reads and admissions with clocks inside the cooldown,
-- and anything at all on other upstreams; only a reset of this upstream is left out.
pub open_until_cooldown :
    (r : Registry) (id : String) (calls : List Call) (now : ℕ)
    → (state_of r id).machine.name ≡ opened
    → All (IsBefore id ((state_of r id).machine.opened_at + r.gov.cooldown)) calls
    → now < (state_of r id).machine.opened_at + r.gov.cooldown
    → (state_of (run r calls) id ≡ state_of r id) × ((allow_call (run r calls) id now).1 ≡ none)
open_until_cooldown r id calls now e h before =
    let s = state_of r id in
    let kept =
      run_unchanged (IsBefore id (s.machine.opened_at + r.gov.cooldown)) s r.gov id
        (λ k n c hc. machine_step-opened r.gov k n id c s e hc) calls h r refl refl in
    (kept.0, denied_opened (run r calls) id now s r.gov kept.0 kept.1 e before)

-- While a probe is outstanding and its deadline has not passed, half-open admits nobody else: over
-- any calls but a reset of this upstream and a report by the probe's own holder, the machine stays
-- as it is, and an admission is denied, even one that comes after the deadline.
pub single_probe :
    (r : Registry) (id : String) (q : ProbeGrant) (calls : List Call) (now : ℕ)
    → (state_of r id).machine.name ≡ half_open
    → (state_of r id).machine.probe ≡ some q
    → All (IsAside id q) calls
    → (state_of (run r calls) id ≡ state_of r id) × ((allow_call (run r calls) id now).1 ≡ none)
single_probe r id q calls now e f h =
    let s = state_of r id in
    let kept =
      run_unchanged (IsAside id q) s r.gov id
        (λ k n c hc. machine_step-probing r.gov k n id c s q e f hc) calls h r refl refl in
    (kept.0, denied_probing (run r calls) id now s q kept.0 e f)

-- Unreported permissions of calls admitted in closed, each reported as a server fault.
abbrev pub faults : String → List (ℕ × ℕ) → List Call
faults id [] = []
faults id ((now, stamp) ∷ times) =
    reports (record { upstream_id = id; grant = none; reported = false }) server_fault now stamp
    ∷ faults id times

machine_step-fault :
    (g : Governor) (k n : ℕ) (id : String) (p : Permission) (now stamp : ℕ) (s : Guarded ℕ)
    → p.reported ≡ false
    → str_eq p.upstream_id id ≡ true
    → s.machine.name ≡ closed
    → machine_step g k n id (reports p server_fault now stamp) s ≡ (
        if leb k (s.evidence + 1)
        then record {
          machine = record (s.machine) { name = opened; opened_at = stamp };
          evidence = s.evidence + 1;
        }
        else record s { evidence = s.evidence + 1 })
unfolding machine_step report_at
machine_step-fault g k n id p now stamp s f h e = ground arith

stays_opened :
    (times : List (ℕ × ℕ)) (r : Registry) (id : String)
    → (state_of r id).machine.name ≡ opened
    → (state_of (run r (faults id times)) id).machine.name ≡ opened
unfolding run
stays_opened [] r id e = e
stays_opened ((now, stamp) ∷ times) r id e =
    stays_opened times _ id
      (rw (state_of-step r _ id, machine_step-opened r.gov _ _ id _ (state_of r id) e tt) e)

trips :
    (times : List (ℕ × ℕ)) (r : Registry) (id : String)
    → (state_of r id).machine.name ≡ closed
    → (state_of r id).evidence < r.fail_threshold
    → (state_of (run r (faults id times)) id).machine.name
      ≡ (if leb r.fail_threshold ((state_of r id).evidence + length times) then opened else closed)
unfolding run
trips [] r id e h = ground arith
trips ((now, stamp) ∷ times) r id e h =
    let c =
      reports (record { upstream_id = id; grant = none; reported = false }) server_fault now
        stamp in
    let q =
      state_of-step r c id
      ∙ machine_step-fault r.gov r.fail_threshold r.next_serial id _ now stamp (state_of r id) refl
          (str_eq_refl id) e in
    elim (Bool-cases (leb r.fail_threshold ((state_of r id).evidence + 1))) [
      | inl t ↦ ground (arith, q, stays_opened times (step r c) id)
      | inr t ↦ ground (arith, q, threshold-step r c, trips times (step r c) id)
    ]

-- From closed with no failure counted, a run of server faults with nothing in between opens the
-- breaker exactly when it is as long as the threshold.
trips_at_threshold :
    (r : Registry) (id : String) (times : List (ℕ × ℕ))
    → (state_of r id).machine.name ≡ closed
    → (state_of r id).evidence ≡ 0
    → 0 < r.fail_threshold
    → (state_of (run r (faults id times)) id).machine.name
      ≡ (if leb r.fail_threshold (length times) then opened else closed)
trips_at_threshold r id times e z h = ground (arith, trips times r id)
