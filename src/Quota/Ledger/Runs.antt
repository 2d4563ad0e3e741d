-- ===== src/Quota/Ledger/Runs.antt =====
-- Whole histories of the request path and the sweeper.
use breakwater.Base.{ℕ, ◌+◌, ◌^◌, ◌<◌, ◌≡◌, List, [], ◌∷◌, none, String, lookup, arith}
use breakwater.Base.Int.{ℤ, pos_part, neg_part}
use breakwater.Quota.Ledger.{Memory, reserve, settle, cancel, sweep_once}
use breakwater.Quota.Ledger.Funds.{funds, IsValid}
use breakwater.Quota.Ledger.Steps.{reserve-Conserves, sweep-Conserves}
use breakwater.Quota.Ledger.Conservation.{Conserves, settle-Conserves, cancel-Conserves, spent_by}

-- The operations of the request path and the sweeper. The identifier of a reservation is what
-- `newLeaseID` draws, the order of a sweep how the runtime ranges over the map.
pub data Op : Type 0 where
  reserves : String → ℤ → String → ℕ → Op
  settles : String → ℤ → ℕ → Op
  cancels : String → ℕ → Op
  sweeps : ℕ → ℕ → List String → Op

pub step : Memory → Op → Memory
step m (reserves tenant amount id now) = (reserve m tenant amount id now).0
step m (settles id used now) = (settle m id used now).0
step m (cancels id now) = (cancel m id now).0
step m (sweeps now limit order) = (sweep_once m now limit order).0

pub run : Memory → List Op → Memory
run m [] = m
run m (o ∷ ops) = run (step m o) ops

-- What the callers see to: an estimate is not negative, a drawn identifier is not in use, a usage
-- figure is an int64.
abbrev pub IsProper : Memory → Op → Type 0
IsProper m (reserves tenant amount id now) = (neg_part amount ≡ 0) × (lookup id m.leases ≡ none)
IsProper m (settles id used now) = pos_part used < 2 ^ 63
IsProper m _ = Unit {0}

abbrev pub AllProper : Memory → List Op → Type 0
AllProper m [] = Unit {0}
AllProper m (o ∷ ops) = IsProper m o × AllProper (step m o) ops

-- What the settlements of a history take from a tenant.
abbrev pub spent_in : Memory → Op → String → ℕ
spent_in m (settles id used now) tenant = spent_by m id used tenant
spent_in m _ tenant = 0

pub spent : Memory → List Op → String → ℕ
spent m [] tenant = 0
spent m (o ∷ ops) tenant = spent_in m o tenant + spent (step m o) ops tenant

step-Conserves :
    (m : Memory) (o : Op) → IsValid m → IsProper m o → Conserves m (step m o) (spent_in m o)
unfolding step sweep_once
step-Conserves m (reserves tenant amount id now) v p =
    reserve-Conserves m v tenant amount id now p.1 p.0
step-Conserves m (settles id used now) v p = settle-Conserves m v id used now p
step-Conserves m (cancels id now) v p = cancel-Conserves m v id now
step-Conserves m (sweeps now limit order) v p = sweep-Conserves order now limit _ m 0 v

-- Over any history of reservations, settlements, cancellations and sweeps, whatever their order and
-- however often a lease is settled, cancelled or swept again: the ledger stays valid (no balance is
-- negative), and what a tenant owns, its balance and its live leases together, falls by exactly what
-- the settlements of live leases used, up to the reserved amount of each.
pub run_conserves :
    (m : Memory) (ops : List Op)
    → IsValid m
    → AllProper m ops
    → IsValid (run m ops)
      × ((tenant : String) → funds (run m ops) tenant + spent m ops tenant ≡ funds m tenant)
unfolding run spent
run_conserves m [] v p = (v, λ tenant. omega arith)
run_conserves m (o ∷ ops) v p =
    let a = step-Conserves m o v p.0 in
    let b = run_conserves (step m o) ops a.valid p.1 in
    (b.0, λ tenant. omega (arith, a.conserved tenant, b.1 tenant))
