-- ===== src/Circuit/Prober/Verdict.antt =====
-- prober.go over breaker.go: what a health check makes of an open breaker.
use breakwater.Base.{◌+◌, ◌≤◌, ◌≡◌, refl, ap, ◌∙◌, none, some, String, if◌then◌else◌}
use breakwater.Circuit.Types.{State, closed, opened, state_eq}
use breakwater.Circuit.Breaker.{Registry, state_of}
use breakwater.Circuit.Breaker.Recovery.{probe_decides, verdict}
use breakwater.Circuit.Port.{consecutive}
use breakwater.Circuit.Prober.{Check, healthy, failed, cancelled, outcome_of, Clock, active_probe}

-- The state after a check.
abbrev pub state_after : Check → State
state_after failed = opened
state_after _ = closed

verdict-outcome_of : (check : Check) → verdict (outcome_of check) ≡ state_after check
unfolding outcome_of
verdict-outcome_of healthy = refl
verdict-outcome_of failed = refl
verdict-outcome_of cancelled = refl

-- Once the cooldown of an open breaker of the consecutive strategy has passed, a health check is run
-- as its probe, and when it answers before the probe's deadline it decides: a failed check opens the
-- breaker again with the count it had, a healthy one closes it with no failure counted, and so does
-- one that its caller cancelled. No probe is left outstanding.
pub active_probe_decides :
    (r : Registry) (id : String) (c : Clock) (check : Check)
    → (state_of r id).machine.name ≡ opened
    → (state_of r id).machine.opened_at + r.gov.cooldown ≤ c.asked
    → c.answered ≤ c.asked + r.gov.probe_timeout
    → let (after, ran) = active_probe consecutive r id c check in
      (ran ≡ some check)
      × ((state_of after id).machine.name ≡ state_after check)
      × ((state_of after id).machine.probe ≡ none)
      × ((state_of after id).evidence
          ≡ (if state_eq (state_after check) closed then 0 else (state_of r id).evidence))
unfolding active_probe
active_probe_decides r id c check e cooled early =
    let (admitted, name, probe, evidence) =
      probe_decides r id c.asked c.answered c.stamp (outcome_of check) e cooled early in
    rw admitted (
      refl,
      name ∙ verdict-outcome_of check,
      probe,
      evidence
          ∙ ap (λ s. if state_eq s closed then 0 else (state_of r id).evidence)
              (verdict-outcome_of check),
    )
