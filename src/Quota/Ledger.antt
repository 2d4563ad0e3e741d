-- ===== src/Quota/Ledger.antt =====
-- internal/quota/quota.go and memory.go: the in-process ledger.
-- Balances and amounts are int64; an instant is a number of nanoseconds, `t.Before(now.Add(-d))` is
-- `t + d < now`. The mutex makes each operation one step; a nil `m.now` does not occur.
pub mod Funds
pub mod Conservation
pub mod Steps
pub mod Lifecycle
pub mod Runs
pub mod Spend
mod Tests
use breakwater.Base.{
  ℕ, suc, ◌+◌, ◌-◌, Bool, true, false, ◌&&◌, List, [], ◌∷◌, Option, none, some, String, Assoc,
  lookup, insert, delete, Result, ok, err, ltb, leb, if◌then◌else◌,
}
use breakwater.Base.Int.{ℤ, pos, ltb_ℤ, int64, ◌+ℤ◌, ◌-ℤ◌}

pub data LeaseState : Type 0 where
  reserved settled expired cancelled : LeaseState

abbrev pub is_reserved : LeaseState → Bool
is_reserved reserved = true
is_reserved _ = false

pub record Lease : Type 0 where
  pub id : String
  pub tenant_id : String
  pub amount : ℤ
  pub state : LeaseState
  pub created_at : ℕ

-- `memLease`; `terminal_at` is read of terminal leases only.
pub record MemLease : Type 0 where
  pub lease : Lease
  pub open lease use *
  pub terminal_at : ℕ

pub record Memory : Type 0 where
  pub balances : Assoc ℤ
  pub leases : Assoc MemLease
  pub lease_ttl : ℕ

pub data Error : Type 0 where
  insufficient_balance unknown_tenant unknown_lease : Error

abbrev pub default_lease_ttl : ℕ
default_lease_ttl = 600_000_000_000

abbrev pub lease_audit_ttl : ℕ
lease_audit_ttl = 3_600_000_000_000

abbrev pub scan_batch : ℕ
scan_batch = 8192

unfoldable pub new_memory : Memory
new_memory = record { balances = []; leases = []; lease_ttl = default_lease_ttl }

unfoldable pub with_lease_ttl : Memory → ℕ → Memory
with_lease_ttl m d = if ltb 0 d then record m { lease_ttl = d } else m

unfoldable pub set_balance : Memory → String → ℤ → Memory
set_balance m tenant balance = record m { balances = insert tenant balance m.balances }

-- The flag reports whether the balance was created.
unfoldable pub ensure_balance : Memory → String → ℤ → Memory × Bool
ensure_balance m tenant initial = elim (lookup tenant m.balances) [
  | some b ↦ (m, false)
  | none ↦ (record m { balances = insert tenant initial m.balances }, true)
]

abbrev pub fresh_lease : String → ℤ → String → ℕ → Lease
fresh_lease tenant amount id now = record {
  id = id;
  tenant_id = tenant;
  amount = amount;
  state = reserved;
  created_at = now;
}

-- The debit, and the lease under the identifier that `newLeaseID` draws.
debit : Memory → String → ℤ → String → ℕ → ℤ → Memory
debit m tenant amount id now b = record m {
  balances = insert tenant (int64 (b -ℤ amount)) m.balances;
  leases =
      insert id (record { lease = fresh_lease tenant amount id now; terminal_at = 0 }) m.leases;
}

reserve_from : Memory → String → ℤ → String → ℕ → ℤ → Memory × Result Error Lease
unfolding debit
reserve_from m tenant amount id now b =
    if ltb_ℤ b amount
    then (m, err insufficient_balance)
    else (debit m tenant amount id now b, ok (fresh_lease tenant amount id now))

unfoldable pub reserve : Memory → String → ℤ → String → ℕ → Memory × Result Error Lease
unfolding reserve_from
reserve m tenant amount id now = elim (lookup tenant m.balances) [
  | none ↦ (m, err unknown_tenant)
  | some balance ↦ reserve_from m tenant amount id now balance
]

abbrev pub or_zero : Option ℤ → ℤ
or_zero none = pos 0
or_zero (some b) = b

-- `m.balances[tenant] += amount`: a missing balance reads zero.
unfoldable pub credit : Memory → String → ℤ → Memory
credit m tenant amount = record m {
  balances = insert tenant (int64 (or_zero (lookup tenant m.balances) +ℤ amount)) m.balances;
}

-- A write through the `*memLease` of a lease.
unfoldable pub retire : Memory → String → MemLease → LeaseState → ℕ → Memory
retire m id l state now = record m {
  leases =
      insert id (record { lease = record (l.lease) { state = state }; terminal_at = now }) m.leases;
}

-- `max(used, 0)`.
abbrev pub floor_zero : ℤ → ℤ
floor_zero used = if ltb_ℤ used (pos 0) then pos 0 else used

-- A refund is credited only when it is positive.
settle_refund : Memory → String → MemLease → ℤ → ℕ → Memory
settle_refund m id l refund now =
    retire (if ltb_ℤ (pos 0) refund then credit m l.tenant_id refund else m) id l settled now

settle_lease : Memory → String → MemLease → ℤ → ℕ → Memory
unfolding settle_refund
settle_lease m id l used now = settle_refund m id l (int64 (l.amount -ℤ floor_zero used)) now

-- A terminal lease is left as it is, and that is no error.
unfoldable pub settle : Memory → String → ℤ → ℕ → Memory × Option Error
unfolding settle_lease
settle m id used now = elim (lookup id m.leases) [
  | none ↦ (m, some unknown_lease)
  | some l ↦ (if is_reserved l.state then settle_lease m id l used now else m, none)
]

unfoldable pub cancel : Memory → String → ℕ → Memory × Option Error
cancel m id now = elim (lookup id m.leases) [
  | none ↦ (m, some unknown_lease)
  | some l ↦ (
    if is_reserved l.state then retire (credit m l.tenant_id l.amount) id l cancelled now else m,
    none,
  )
]

unfoldable pub balance : Memory → String → Result Error ℤ
balance m tenant = elim (lookup tenant m.balances) [ none ↦ err unknown_tenant | some b ↦ ok b ]

-- One turn of the loop over the leases: what becomes of one of them, and whether it was reclaimed.
sweep_lease : Memory → ℕ → ℕ → ℕ → String → MemLease → Memory × ℕ
sweep_lease m now limit expired_count id l =
    if is_reserved l.state
    then (if leb limit expired_count
        then (m, expired_count)
        else (if ltb (l.created_at + m.lease_ttl) now
            then (retire (credit m l.tenant_id l.amount) id l expired now, suc expired_count)
            else (m, expired_count)))
    else (if ltb (l.terminal_at + lease_audit_ttl) now
        then (record m { leases = delete id m.leases }, expired_count)
        else (m, expired_count))

sweep_found : Memory → ℕ → ℕ → ℕ → String → Option MemLease → Memory × ℕ
unfolding sweep_lease
sweep_found m now limit expired_count id none = (m, expired_count)
sweep_found m now limit expired_count id (some l) = sweep_lease m now limit expired_count id l

-- The loop over the identifiers in the order in which the runtime ranges over the map; `room` is
-- how many more leases the pass may examine.
unfoldable pub sweep : List String → ℕ → ℕ → ℕ → Memory → ℕ → Memory × ℕ
unfolding sweep_found
sweep [] now limit room m expired_count = (m, expired_count)
sweep (id ∷ order) now limit room m expired_count =
    let (t, count) = sweep_found m now limit expired_count id (lookup id m.leases) in
    let rest = sweep order now limit (room - 1) t count in
    if leb room 0 then (m, expired_count) else rest

unfoldable pub sweep_once : Memory → ℕ → ℕ → List String → Memory × ℕ
sweep_once m now limit order = sweep order now limit scan_batch m 0
