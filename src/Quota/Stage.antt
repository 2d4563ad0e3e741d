-- ===== src/Quota/Stage.antt =====
-- internal/quota/middleware.go: the quota stage over the in-process ledger. A panic of the rest of the
-- chain runs the deferred settlement as a return does; a request without a carrier never gets here.
pub mod Spends
mod Tests
use breakwater.Base.{ℕ, Bool, Option, none, some, String, Result, ok, err, if◌then◌else◌}
use breakwater.Base.Int.{ℤ, pos, ltb_ℤ}
use breakwater.Quota.Ledger.{
  Lease, Memory, Error, insufficient_balance, unknown_tenant, unknown_lease, reserve, settle,
  cancel,
}

-- What the stage reads and writes of the carrier; `estimate` is what ReserveTokens answers.
pub record Carrier : Type 0 where
  pub tenant_id : String
  pub estimate : ℤ
  pub tokens : ℤ
  pub consumed : ℤ
  pub reject_code : String

-- The error that the stage renders.
pub record Rejection : Type 0 where
  pub status : ℕ
  pub code : String

abbrev pub amount_of : Carrier → ℤ
amount_of c = if ltb_ℤ (pos 0) c.tokens then c.tokens else c.estimate

abbrev pub with_amount : Carrier → Carrier
with_amount c = record c { tokens = amount_of c }

abbrev pub rejection_of : Error → Rejection
rejection_of insufficient_balance = record { status = 402; code = "insufficient_quota" }
rejection_of unknown_tenant = record { status = 503; code = "quota_not_provisioned" }
rejection_of unknown_lease = record { status = 503; code = "governance_unavailable" }

-- The deferred function.
settle_up : String → ℕ → Memory × Carrier → Memory × Carrier
settle_up id later (m, c) =
    if ltb_ℤ (pos 0) c.consumed
    then ((settle m id c.consumed later).0, c)
    else ((cancel m id later).0, c)

-- The rest of the stage, by the outcome of the reservation.
after_reserve :
    (Memory → Carrier → Memory × Carrier)
    → ℕ
    → Carrier
    → Memory × Result Error Lease
    → (Memory × Carrier) × Option Rejection
unfolding settle_up
after_reserve next later c (m, err e) =
    ((m, record c { reject_code = (rejection_of e).code }), some (rejection_of e))
after_reserve next later c (m, ok lease) = (settle_up lease.id later (next m c), none)

-- `Middleware`, around the rest of the chain; the lease is drawn as `id`.
pub quota_stage :
    (Memory → Carrier → Memory × Carrier)
    → String
    → ℕ
    → ℕ
    → Memory
    → Carrier
    → (Memory × Carrier) × Option Rejection
unfolding after_reserve
quota_stage next id now later m c =
    after_reserve next later (with_amount c) (reserve m c.tenant_id (amount_of c) id now)
