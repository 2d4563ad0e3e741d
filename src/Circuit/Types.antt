-- ===== src/Circuit/Types.antt =====
-- The vocabulary of internal/circuit/circuit.go and the values that the strategies share.
-- An instant and a duration are numbers of nanoseconds; `now.Sub(t) < d` is `now < t + d`.
use breakwater.Base.{ℕ, ◌==◌, Bool, true, false, Option, some, String}

pub data State : Type 0 where
  closed opened half_open : State

abbrev pub state_eq : State → State → Bool
state_eq closed closed = true
state_eq opened opened = true
state_eq half_open half_open = true
state_eq _ _ = false

pub data Outcome : Type 0 where
  success client_fault server_fault slow gateway_terminated : Outcome

-- `*probeGrant` is compared by identity: the serial number is the pointer.
pub record ProbeGrant : Type 0 where
  pub serial : ℕ
  pub deadline : ℕ

-- One call of the transition observer.
pub record Transition : Type 0 where
  pub upstream_id : String
  pub from : State
  pub to : State

-- `g.grant` of a permission against `s.probe`: true only for the same non-nil grant.
abbrev pub same_grant : Option ProbeGrant → Option ProbeGrant → Bool
same_grant (some a) (some b) = a.serial == b.serial
same_grant _ _ = false

-- What an admitted call holds; `reported` guards the exactly-once rule.
pub record Permission : Type 0 where
  pub upstream_id : String
  pub grant : Option ProbeGrant
  pub reported : Bool

-- The config of the state machines: a zero member selects its default.
pub record Config : Type 0 where
  pub fail_threshold : ℕ
  pub cooldown : ℕ
  pub probe_timeout : ℕ
