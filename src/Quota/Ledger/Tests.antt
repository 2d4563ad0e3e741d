-- ===== src/Quota/Ledger/Tests.antt =====
-- The ledger on small inputs.
use breakwater.Base.{◌+◌, ◌≡◌, refl, none, List, [], ◌∷◌, String, arith, lookup, insert, total}
use breakwater.Base.Int.{pos, negsuc, ◌-ℤ◌, int64}
use breakwater.Quota.Ledger.{Memory, MemLease, reserve, settle, cancel, fresh_lease}
use breakwater.Quota.Ledger.Funds.{IsValid, funds, balance_of}
use breakwater.Quota.Ledger.Runs.{Op, reserves, settles, cancels, sweeps, run, spent, run_conserves}
use breakwater.Quota.Ledger.Lifecycle.{ends_once}

abbrev funded : Memory
funded = record { balances = ("t", pos 100) ∷ []; leases = []; lease_ttl = 50 }

abbrev l30 : MemLease
l30 = record { lease = fresh_lease "t" (pos 30) "x" 5; terminal_at = 0 }

abbrev holding : Memory
holding = record { balances = ("t", pos 70) ∷ []; leases = ("x", l30) ∷ []; lease_ttl = 50 }

reserve_runs : (reserve funded "t" (pos 30) "x" 5).0 ≡ holding
unfolding reserve insert lookup int64 ◌-ℤ◌
reserve_runs = refl

funded-IsValid : IsValid funded
funded-IsValid = record {
  distinct = tt;
  balance_nonneg = λ t. unfold balance_of lookup in (ground arith);
  amount_nonneg = λ id l h. unfold lookup in (cc);
  fits = λ t. unfold funds balance_of lookup total in (ground arith);
}

-- A reservation of 30, settled at 12 and again at 0, then a cancellation of the same lease.
abbrev history : List Op
history =
    reserves "t" (pos 30) "x" 5
    ∷ settles "x" (pos 12) 9
    ∷ settles "x" (pos 0) 10
    ∷ cancels "x" 11
    ∷ sweeps 100 10 ("x" ∷ [])
    ∷ []

run_conserves_example :
    IsValid (run funded history)
    × ((tenant : String)
        → funds (run funded history) tenant + spent funded history tenant ≡ funds funded tenant)
run_conserves_example =
    run_conserves funded history funded-IsValid
      ((refl, unfold lookup in refl), (omega arith, (omega arith, (tt, (tt, tt)))))

ends_once_example :
    let s = (settle holding "x" (pos 12) 9).0 in
    let c = (cancel holding "x" 9).0 in
    (settle s "x" (negsuc 3) 20 ≡ (s, none))
    × (cancel s "x" 20 ≡ (s, none))
    × (settle c "x" (negsuc 3) 20 ≡ (c, none))
    × (cancel c "x" 20 ≡ (c, none))
ends_once_example = ends_once holding "x" l30 (pos 12) (negsuc 3) 9 20 (unfold lookup in refl)
