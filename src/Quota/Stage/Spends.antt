-- ===== src/Quota/Stage/Spends.antt =====
-- middleware.go: what a request costs its tenant.
use breakwater.Base.{
  ℕ, ◌-◌, ◌^◌, ◌≤◌, ◌<◌, ◌≡◌, min, refl, sym, subst, ap, ◌∙◌, inl, inr, true, false, none, some,
  String, lookup, arith, Bool-cases, ltb,
}
use breakwater.Base.Int.{pos, ltb_ℤ}
use breakwater.Quota.Ledger.{Memory, MemLease, is_reserved, reserve, cancel}
use breakwater.Quota.Ledger.Spend.{
  holding, Ended, reserve-refused, reserve-granted, settle-Ended, cancel-Ended,
}
use breakwater.Quota.Stage.{Carrier, amount_of, with_amount, settle_up, after_reserve, quota_stage}

-- The deferred function ends the lease of a held reservation.
settle_up-Ended :
    (m : Memory) (tenant id : String) (a b now later u : ℕ)
    (funded : lookup tenant m.balances ≡ some (pos b)) (covered : a ≤ b) (small : b < 2 ^ 63)
    → u < 2 ^ 63
    → (x : Memory × Carrier) → x.0 ≡ holding m tenant id a b now funded covered small
    → x.1.consumed ≡ pos u
    → Ended m tenant id a b now funded covered small (settle_up id later x).0 (b - min u a)
unfolding settle_up
settle_up-Ended m tenant id a b now later u funded covered small fits x same consumed =
    let held = holding m tenant id a b now funded covered small in
    elim (Bool-cases (ltb 0 u)) [
      | inl e ↦
          let positive : ltb_ℤ (pos 0) x.1.consumed ≡ true = rw consumed (ground (arith, e)) in
          simp positive (
            simp (same, consumed)
              (settle-Ended m tenant id a b now funded covered small u later fits))
      | inr e ↦
          let none_used : ltb_ℤ (pos 0) x.1.consumed ≡ false = rw consumed (ground (arith, e)) in
          let whole : b ≡ b - min u a = ground (arith, e) in
          simp none_used (
            simp same (
              subst (Ended m tenant id a b now funded covered small (cancel held id later).0) whole
                (cancel-Ended m tenant id a b now funded covered small later)))
    ]

-- A request of a tenant with balance `b` that reserves `a` tokens, when nothing else moves the ledger
-- meanwhile. If the balance covers it, the request runs, its lease ends, and the tenant pays what the
-- request consumed, at most the reservation. Otherwise the stage answers 402 and changes no balance.
pub quota_stage-spends :
    (next : Memory → Carrier → Memory × Carrier) (id : String) (now later : ℕ) (m : Memory)
    (c : Carrier) (a b u : ℕ)
    → ((t : Memory) (d : Carrier) → (next t d).0 ≡ t)
    → amount_of c ≡ pos a
    → lookup c.tenant_id m.balances ≡ some (pos b)
    → b < 2 ^ 63
    → ((t : Memory) → (next t (with_amount c)).1.consumed ≡ pos u)
    → u < 2 ^ 63
    → let r = quota_stage next id now later m c in
      (a ≤ b
        → (r.1 ≡ none)
          × ((lookup c.tenant_id r.0.0.balances ≡ some (pos (b - min u a)))
              × ((l : MemLease) × (lookup id r.0.0.leases ≡ some l)
                  × (is_reserved l.state ≡ false))))
      × (b < a → (r.0.0 ≡ m) × (r.1 ≡ some (record { status = 402; code = "insufficient_quota" })))
unfolding quota_stage
quota_stage-spends next id now later m c a b u still amount funded small consumed fits = (
  λ covered.
      let held = holding m c.tenant_id id a b now funded covered small in
      let granted =
        ap (λ k. reserve m c.tenant_id k id now) amount
        ∙ reserve-granted m c.tenant_id id a b now funded covered small in
      let ended =
        settle_up-Ended m c.tenant_id id a b now later u funded covered small fits
          (next held (with_amount c)) (still held (with_amount c)) (consumed held) in
      subst
        (λ y.
          ((after_reserve next later (with_amount c) y).1 ≡ none)
          × Ended m c.tenant_id id a b now funded covered small
              (after_reserve next later (with_amount c) y).0.0 (b - min u a))
        (sym granted) (unfold after_reserve in (refl, ended)),
  λ short.
      let refused =
        ap (λ k. reserve m c.tenant_id k id now) amount
        ∙ (reserve-refused m c.tenant_id id a b now).1 funded short in
      subst
        (λ y.
          ((after_reserve next later (with_amount c) y).0.0 ≡ m)
          × ((after_reserve next later (with_amount c) y).1
              ≡ some (record { status = 402; code = "insufficient_quota" })))
        (sym refused) (unfold after_reserve in (refl, refl)),
)
