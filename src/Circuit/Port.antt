-- ===== src/Circuit/Port.antt =====
-- internal/circuit/circuit.go: the port `Breaker` as its callers take it, and the two state machines
-- behind it. What the clock reads during a call is an argument of the call.
use breakwater.Base.{ℕ, Option, String}
use breakwater.Circuit.Types.{State, Outcome, Permission}
use breakwater.Circuit.Breaker.{Registry, allow_call, read_state, report}
use breakwater.Circuit.Slow.{SlowRegistry, slow_allow, slow_read_state, slow_report}

-- `report` takes the clock's first reading and the one of a transition.
pub record Port (R : Type 0) : Type 0 where
  pub allow : R → String → ℕ → R × Option Permission
  pub state_of : R → String → ℕ → R × State
  pub report : R → Permission → Outcome → ℕ → ℕ → R × Permission

abbrev pub consecutive : Port Registry
consecutive = record { allow = allow_call; state_of = read_state; report = report }

abbrev pub slow_calls : Port SlowRegistry
slow_calls = record { allow = slow_allow; state_of = slow_read_state; report = slow_report }
