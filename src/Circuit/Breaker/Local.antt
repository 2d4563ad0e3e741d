-- ===== src/Circuit/Breaker/Local.antt =====
-- Each upstream's machine evolves by itself: the registry as a family of independent machines.
use breakwater.Base.{
  ℕ, ◌≡◌, refl, ◌∙◌, inl, inr, List, Option, none, some, String, str_eq, arith, Bool-cases,
  str_eq_refl, String-cases, if◌then◌else◌,
}
use breakwater.Circuit.Types.{ProbeGrant, Transition}
use breakwater.Circuit.Machine.{Guarded, Governor, allow, observe}
use breakwater.Circuit.Breaker.{
  Registry, state_of, store, allow_call, read_state, reset, reset_state, report_at, report,
  state_of-store, admit, Call, allows, reads, resets, reports, step,
}

-- What a call does to the machine of `id`.
unfoldable pub machine_step : Governor → ℕ → ℕ → String → Call → Guarded ℕ → Guarded ℕ
unfolding reset_state report_at
machine_step g k n id (allows j now) s = if str_eq j id then (allow g now n s).0 else s
machine_step g k n id (reads j now) s = if str_eq j id then (observe g now s).0 else s
machine_step g k n id (resets j stamp) s = if str_eq j id then (reset_state g stamp s).0 else s
machine_step g k n id (reports p o now stamp) s =
    if p.reported
    then s
    else (if str_eq p.upstream_id id
        then (report_at s.machine.name g k now stamp p.grant o s).0
        else s)

state_of-admit :
    (r : Registry) (id j : String) (a : Option (Option ProbeGrant))
    → state_of (admit r id a).0 j ≡ state_of r j
unfolding state_of admit
state_of-admit r id j none = refl
state_of-admit r id j (some none) = refl
state_of-admit r id j (some (some p)) = refl

stepped :
    (f : Guarded ℕ → Guarded ℕ) (r : Registry) (j id : String) (fired : List Transition)
    → state_of (store r j (f (state_of r j)) fired) id
      ≡ (if str_eq j id then f (state_of r id) else state_of r id)
stepped f r j id fired = elim (String-cases j id) [
  | inl e ↦ rw (state_of-store, e, str_eq_refl)
  | inr e ↦ rw (state_of-store, e)
]

-- A call steps the machine that it names as the machine's own operation does, and no other.
pub state_of-step :
    (r : Registry) (c : Call) (id : String)
    → state_of (step r c) id
      ≡ machine_step r.gov r.fail_threshold r.next_serial id c (state_of r id)
unfolding step machine_step allow_call read_state reset report
state_of-step r (allows j now) id =
    state_of-admit _ j id _ ∙ stepped (λ s. (allow r.gov now r.next_serial s).0) r j id _
state_of-step r (reads j now) id = stepped (λ s. (observe r.gov now s).0) r j id _
state_of-step r (resets j stamp) id =
    unfold reset_state in stepped (λ s. (reset_state r.gov stamp s).0) r j id _
state_of-step r (reports p o now stamp) id = elim (Bool-cases p.reported) [
  | inl e ↦ rw (e, report, machine_step)
  | inr e ↦
      rw (e, report, machine_step)
        (stepped (λ s. (report_at s.machine.name r.gov r.fail_threshold now stamp p.grant o s).0) r
          p.upstream_id id _)
]

gov-admit :
    (r : Registry) (id : String) (a : Option (Option ProbeGrant)) → (admit r id a).0.gov ≡ r.gov
unfolding admit
gov-admit r id a = ground arith

-- No call changes the configuration.
pub gov-step : (r : Registry) (c : Call) → (step r c).gov ≡ r.gov
unfolding step allow_call read_state reset report store admit
gov-step r c = ground arith

pub threshold-step : (r : Registry) (c : Call) → (step r c).fail_threshold ≡ r.fail_threshold
unfolding step allow_call read_state reset report store admit
threshold-step r c = ground arith
