-- ===== src/Circuit/Breaker/Recovery.antt =====
-- The way back from open: the cooldown, one probe, its verdict.
use breakwater.Base.{
  ℕ, ◌+◌, ◌≤◌, ◌≡◌, refl, ap, ◌∙◌, false, none, some, String, arith, str_eq_refl, if◌then◌else◌,
}
use breakwater.Circuit.Types.{
  State, closed, opened, half_open, Outcome, server_fault, gateway_terminated, ProbeGrant,
  Permission, state_eq,
}
use breakwater.Circuit.Machine.{Guarded, Governor, allow}
use breakwater.Circuit.Breaker.{
  Registry, state_of, allow_call, report_at, report, admit, allows, reports, step,
}
use breakwater.Circuit.Breaker.Local.{machine_step, state_of-step}

-- What a probe that answers in time makes of the machine.
abbrev pub verdict : Outcome → State
verdict server_fault = opened
verdict gateway_terminated = opened
verdict _ = closed

-- The permission of a probe.
abbrev pub probe_permission : Registry → String → ℕ → Permission
probe_permission r id now = record {
  upstream_id = id;
  grant = some (record { serial = r.next_serial; deadline = now + r.gov.probe_timeout });
  reported = false;
}

cools :
    (g : Governor) (k n : ℕ) (id : String) (now : ℕ) (s : Guarded ℕ)
    → s.machine.name ≡ opened
    → s.machine.opened_at + g.cooldown ≤ now
    → machine_step g k n id (allows id now) s ≡ record s {
      machine = record (s.machine) {
        name = half_open;
        probe = some (record { serial = n; deadline = now + g.probe_timeout });
      };
    }
unfolding machine_step allow
cools g k n id now s e h = ground (arith, str_eq_refl id)

settles :
    (g : Governor) (k n : ℕ) (p : Permission) (q : ProbeGrant) (later stamp : ℕ) (o : Outcome)
    (s : Guarded ℕ)
    → s.machine.name ≡ half_open
    → s.machine.probe ≡ some q
    → p.grant ≡ some q
    → p.reported ≡ false
    → later ≤ q.deadline
    → let t = machine_step g k n p.upstream_id (reports p o later stamp) s in
      (t.machine.name ≡ verdict o)
      × (t.machine.probe ≡ none)
      × (t.evidence ≡ (if state_eq (verdict o) closed then 0 else s.evidence))
unfolding machine_step report_at
settles g k n p q later stamp o s e f eg u h = ground (arith, str_eq_refl p.upstream_id)

admitted_cooled :
    (r : Registry) (id : String) (now : ℕ)
    → (state_of r id).machine.name ≡ opened
    → (state_of r id).machine.opened_at + r.gov.cooldown ≤ now
    → (allow_call r id now).1 ≡ some (probe_permission r id now)
unfolding allow_call allow admit
admitted_cooled r id now e h = ground arith

-- Once its cooldown has passed, an open breaker admits the next call as the probe, and what that
-- probe reports before its deadline decides: a healthy answer, a client fault or a slow answer
-- closes the machine with no failure counted, a server fault or a gateway cut opens it again with
-- the count it had; either way no probe is left outstanding.
pub probe_decides :
    (r : Registry) (id : String) (now later stamp : ℕ) (o : Outcome)
    → (state_of r id).machine.name ≡ opened
    → (state_of r id).machine.opened_at + r.gov.cooldown ≤ now
    → later ≤ now + r.gov.probe_timeout
    → let admitted = allow_call r id now in
      let settled = state_of (report admitted.0 (probe_permission r id now) o later stamp).0 id in
      (admitted.1 ≡ some (probe_permission r id now))
      × (settled.machine.name ≡ verdict o)
      × (settled.machine.probe ≡ none)
      × (settled.evidence ≡ (if state_eq (verdict o) closed then 0 else (state_of r id).evidence))
unfolding step
probe_decides r id now later stamp o e h before =
    let p = probe_permission r id now in
    let q : ProbeGrant = record { serial = r.next_serial; deadline = now + r.gov.probe_timeout } in
    let r1 = step r (allows id now) in
    let probing =
      state_of-step r (allows id now) id
      ∙ cools r.gov r.fail_threshold r.next_serial id now (state_of r id) e h in
    let settled =
      settles r1.gov r1.fail_threshold r1.next_serial p q later stamp o (state_of r1 id)
        (ap (λ (s : Guarded ℕ). s.machine.name) probing)
        (ap (λ (s : Guarded ℕ). s.machine.probe) probing) refl refl before in
    let same = ap (λ (s : Guarded ℕ). s.evidence) probing in
    rw (state_of-step r1 (reports p o later stamp) id)
      (admitted_cooled r id now e h, settled.0, settled.1, ground (arith, same, settled.2))
