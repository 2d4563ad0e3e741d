-- ===== src/Quota/Ledger/Funds.antt =====
-- What a tenant owns: its balance and what its live leases hold.
use breakwater.Base.{
  ℕ, ◌+◌, ◌^◌, ◌≤◌, ◌<◌, ◌≡◌, refl, true, false, some, String, str_eq, lookup, total, IsDistinct,
  insert-IsDistinct, lookup-insert, total-insert, le-total, arith, eq_iff, str_eq_refl,
  if◌then◌else◌,
}
use breakwater.Base.Int.{ℤ, pos_part, neg_part, int64, int64_add, ◌+ℤ◌}
use breakwater.Quota.Ledger.{LeaseState, is_reserved, MemLease, Memory, credit, retire, or_zero}

-- What a lease holds of a tenant's tokens.
unfoldable pub held : String → MemLease → ℕ
held tenant l =
    if is_reserved l.state then (if str_eq l.tenant_id tenant then pos_part l.amount else 0) else 0

unfoldable pub balance_of : Memory → String → ℤ
balance_of m tenant = or_zero (lookup tenant m.balances)

unfoldable pub funds : Memory → String → ℕ
funds m tenant = pos_part (balance_of m tenant) + total (held tenant) m.leases

-- No balance and no amount is negative, no identifier stands twice, and no tenant owns more than an
-- int64 holds.
pub record IsValid (m : Memory) : Type 0 where
  pub distinct : IsDistinct m.leases
  pub balance_nonneg : (tenant : String) → neg_part (balance_of m tenant) ≡ 0
  pub amount_nonneg :
      (id : String) (l : MemLease) → lookup id m.leases ≡ some l → neg_part l.amount ≡ 0
  pub fits : (tenant : String) → funds m tenant < 2 ^ 63

balance_of-credit :
    (m : Memory) (tenant other : String) (a : ℤ)
    → balance_of (credit m tenant a) other
      ≡ (if str_eq tenant other then int64 (balance_of m tenant +ℤ a) else balance_of m other)
unfolding balance_of credit
balance_of-credit m tenant other a = rw lookup-insert (ground arith)

-- The part of a refund that goes to a tenant.
abbrev pub share : String → MemLease → ℤ → ℕ
share tenant l refund = if str_eq l.tenant_id tenant then pos_part refund else 0

module _ (m : Memory) (v : IsValid m) (id : String) (l : MemLease)
    (found : lookup id m.leases ≡ some l) (live : is_reserved l.state ≡ true) where
  pub balance-le-funds : (tenant : String) → pos_part (balance_of m tenant) + held tenant l < 2 ^ 63
  unfolding funds
  balance-le-funds tenant = omega (arith, v.fits tenant, le-total (held tenant) id l m.leases found)

  -- A refund out of a live lease is credited exactly.
  pub balance-credit :
      (refund : ℤ) (tenant : String)
      → neg_part refund ≡ 0
      → pos_part refund ≤ pos_part l.amount
      → let b = balance_of (credit m l.tenant_id refund) tenant in
        (pos_part b ≡ pos_part (balance_of m tenant) + share tenant l refund) × (neg_part b ≡ 0)
  unfolding held
  balance-credit refund tenant r h = ground (
    arith,
    balance_of-credit m l.tenant_id tenant refund,
    balance-le-funds l.tenant_id,
    int64_add (balance_of m l.tenant_id) refund (v.balance_nonneg l.tenant_id) r,
    v.balance_nonneg tenant,
    eq_iff l.tenant_id tenant,
    str_eq_refl l.tenant_id,
  )

  abbrev pub ended : LeaseState → ℕ → MemLease
  ended state now = record { lease = record (l.lease) { state = state }; terminal_at = now }

  -- The lease ends after `n`, which is `m` with a part of the lease's amount credited.
  module _ (n : Memory) (state : LeaseState) (now : ℕ) (same : n.leases ≡ m.leases)
      (dead : is_reserved state ≡ false) where
    pub funds-retire :
        (tenant : String) (extra : ℕ)
        → pos_part (balance_of n tenant) ≡ pos_part (balance_of m tenant) + extra
        → funds (retire n id l state now) tenant + held tenant l ≡ funds m tenant + extra
    unfolding funds retire balance_of held
    funds-retire tenant extra h =
        ground (arith, h, same, total-insert (held tenant) id (ended state now) l m.leases)

    amount-retire :
        (j : String) (x : MemLease)
        → lookup j (retire n id l state now).leases ≡ some x
        → neg_part x.amount ≡ 0
    unfolding retire
    amount-retire j x h = ground (
      arith,
      h,
      same,
      lookup-insert j id (ended state now) n.leases,
      v.amount_nonneg id l found,
      v.amount_nonneg j x,
    )

    pub retire-IsValid :
        ((tenant : String)
          → (extra : ℕ) × (pos_part (balance_of n tenant) ≡ pos_part (balance_of m tenant) + extra)
            × (neg_part (balance_of n tenant) ≡ 0)
            × (extra ≤ held tenant l))
        → IsValid (retire n id l state now)
    retire-IsValid credited = record {
      distinct =
          unfold retire in rw same (insert-IsDistinct id (ended state now) m.leases v.distinct);
      balance_nonneg = unfold retire balance_of in λ tenant. (credited tenant).2;
      amount_nonneg = amount-retire;
      fits = λ tenant.
          let c = credited tenant in omega (arith, funds-retire tenant c.0 c.1, c.3, v.fits tenant);
    }

  -- The two ways in which a live lease ends: with a refund out of its amount, or with none.
  pub refund-IsValid :
      (refund : ℤ) (state : LeaseState) (now : ℕ)
      → is_reserved state ≡ false
      → neg_part refund ≡ 0
      → pos_part refund ≤ pos_part l.amount
      → IsValid (retire (credit m l.tenant_id refund) id l state now)
  unfolding credit held
  refund-IsValid refund state now dead r h =
      retire-IsValid (credit m l.tenant_id refund) state now refl dead λ tenant.
        let b = balance-credit refund tenant r h in (share tenant l refund, b.0, b.1, ground arith)

  pub keep-IsValid :
      (state : LeaseState) (now : ℕ) → is_reserved state ≡ false → IsValid (retire m id l state now)
  keep-IsValid state now dead =
      retire-IsValid m state now refl dead
        λ tenant. (0, omega arith, v.balance_nonneg tenant, omega arith)
