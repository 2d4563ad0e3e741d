-- ===== src/Quota/Stage/Tests.antt =====
-- A request of 30 tokens that uses 12, of a tenant that has 100.
use breakwater.Base.{◌≤◌, ◌<◌, ◌≡◌, refl, false, none, some, [], ◌∷◌, lookup, arith}
use breakwater.Base.Int.{pos}
use breakwater.Quota.Ledger.{Memory, MemLease, is_reserved}
use breakwater.Quota.Stage.{Carrier, quota_stage}
use breakwater.Quota.Stage.Spends.{quota_stage-spends}

abbrev funded : Memory
funded = record { balances = ("t", pos 100) ∷ []; leases = []; lease_ttl = 50 }

abbrev carrier : Carrier
carrier = record {
  tenant_id = "t";
  estimate = pos 30;
  tokens = pos 0;
  consumed = pos 0;
  reject_code = "";
}

abbrev answer : Memory → Carrier → Memory × Carrier
answer m c = (m, record c { consumed = pos 12 })

quota_stage-spends_example :
    let r = quota_stage answer "x" 5 9 funded carrier in
    (30 ≤ 100
      → (r.1 ≡ none)
        × ((lookup "t" r.0.0.balances ≡ some (pos 88))
            × ((l : MemLease) × (lookup "x" r.0.0.leases ≡ some l)
                × (is_reserved l.state ≡ false))))
    × (100 < 30
        → (r.0.0 ≡ funded) × (r.1 ≡ some (record { status = 402; code = "insufficient_quota" })))
quota_stage-spends_example =
    quota_stage-spends answer "x" 5 9 funded carrier 30 100 12 (λ t d. refl) refl
      (unfold lookup in refl) (omega arith) (λ t. refl) (omega arith)
