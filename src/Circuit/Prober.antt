-- ===== src/Circuit/Prober.antt =====
-- internal/circuit/prober.go: one health check as a call through the breaker.
pub mod Verdict
mod Tests
use breakwater.Base.{ℕ, Bool, true, false, Option, none, some, String}
use breakwater.Circuit.Types.{Outcome, success, client_fault, server_fault, Permission}
use breakwater.Circuit.Port.{Port}

-- What the probe function returns: no error, an error, or an error after the caller cancelled.
pub data Check : Type 0 where
  healthy failed cancelled : Check

-- The switch over the probe's error.
pub outcome_of : Check → Outcome
outcome_of healthy = success
outcome_of cancelled = client_fault
outcome_of failed = server_fault

-- The readings of the clock during a probe: at Allow, at Report, and at a transition it makes.
pub record Clock : Type 0 where
  pub asked : ℕ
  pub answered : ℕ
  pub stamp : ℕ

module _ {R : Type 0} (breaker : Port R) where
  granted_probe : Clock → Check → R × Option Permission → R × Option Check
  granted_probe c check (r, none) = (r, none)
  granted_probe c check (r, some p) =
      ((breaker.report r p (outcome_of check) c.answered c.stamp).0, some check)

  -- `ActiveProbe`: `none` is a probe that was not run.
  pub active_probe : R → String → Clock → Check → R × Option Check
  unfolding granted_probe
  active_probe r id c check = granted_probe c check (breaker.allow r id c.asked)
