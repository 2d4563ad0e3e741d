-- ===== src/Quota/Ledger/Steps.antt =====
-- Reservations and sweeps neither make nor lose tokens.
use breakwater.Base.{
  ℕ, ◌+◌, ◌-◌, ◌^◌, ◌≤◌, ◌<◌, ◌≡◌, refl, inl, inr, true, false, List, [], ◌∷◌, none, some, String,
  str_eq, lookup, delete, insert-IsDistinct, delete-IsDistinct, lookup-insert, lookup-delete,
  total-insert_fresh, total-delete, arith, eq_iff, Bool-cases, Option-cases, if◌then◌else◌, leb,
  ltb,
}
use breakwater.Base.Int.{ℤ, pos_part, neg_part, ltb_ℤ, int64, int64_sub, ◌-ℤ◌}
use breakwater.Quota.Ledger.{
  expired, is_reserved, MemLease, Memory, reserve, credit, retire, sweep_found, sweep, reserve_from,
  sweep_lease, debit, fresh_lease, lease_audit_ttl,
}
use breakwater.Quota.Ledger.Funds.{held, balance_of, funds, IsValid}
use breakwater.Quota.Ledger.Conservation.{
  Conserves, nothing, unchanged, Conserves-congr, Conserves-trans, refund-Conserves,
}

-- The debit of an admitted reservation, with its lease.
module _ (m : Memory) (v : IsValid m) (tenant : String) (amount : ℤ) (id : String) (now : ℕ)
    (fresh : lookup id m.leases ≡ none) (nonneg : neg_part amount ≡ 0) where
  module _ (b : ℤ) (found : lookup tenant m.balances ≡ some b)
      (covered : ltb_ℤ b amount ≡ false) where
    balance_found : (neg_part b ≡ 0) × (pos_part amount ≤ pos_part b) × (pos_part b < 2 ^ 63)
    unfolding funds balance_of
    balance_found = ground (arith, found, covered, v.balance_nonneg tenant, v.fits tenant)

    balance-debit :
        (t : String)
        → let d = balance_of (debit m tenant amount id now b) t in
          (pos_part d + (if str_eq tenant t then pos_part amount else 0)
            ≡ pos_part (balance_of m t))
          × (neg_part d ≡ 0)
    unfolding balance_of debit
    balance-debit t = ground (
      arith,
      found,
      lookup-insert t tenant (int64 (b -ℤ amount)) m.balances,
      balance_found,
      int64_sub b amount,
      v.balance_nonneg t,
      eq_iff tenant t,
    )

    conserved-debit : (t : String) → funds (debit m tenant amount id now b) t ≡ funds m t
    unfolding funds held debit
    conserved-debit t = ground (
      arith,
      balance-debit t,
      total-insert_fresh (held t) id
          (record { lease = fresh_lease tenant amount id now; terminal_at = 0 }) m.leases fresh,
    )

    debit-Conserves : Conserves m (debit m tenant amount id now b) nothing
    unfolding debit
    debit-Conserves = record {
      valid = record {
        distinct = insert-IsDistinct id _ m.leases v.distinct;
        balance_nonneg = λ t. (balance-debit t).1;
        amount_nonneg = λ j x h. ground (
          arith,
          nonneg,
          lookup-insert j id (record { lease = fresh_lease tenant amount id now; terminal_at = 0 })
              m.leases,
          v.amount_nonneg j x,
        );
        fits = λ t. omega (arith, conserved-debit t, v.fits t);
      };
      conserved = λ t. omega (arith, conserved-debit t);
    }

  reserve_from-Conserves :
      (b : ℤ)
      → lookup tenant m.balances ≡ some b
      → Conserves m (reserve_from m tenant amount id now b).0 nothing
  unfolding reserve_from
  reserve_from-Conserves b found = elim (Bool-cases (ltb_ℤ b amount)) [
    | inl e ↦ rw (e, reserve_from) (unchanged m v)
    | inr e ↦ rw (e, reserve_from) (debit-Conserves b found e)
  ]

  pub reserve-Conserves : Conserves m (reserve m tenant amount id now).0 nothing
  unfolding reserve
  reserve-Conserves = elim (Option-cases (lookup tenant m.balances)) [
    | inl e ↦ rw (e, reserve) (unchanged m v)
    | inr (b, e) ↦ rw (e, reserve) (reserve_from-Conserves b e)
  ]

reclaim-Conserves :
    (m : Memory)
    → IsValid m
    → (now : ℕ) (id : String) (l : MemLease) → lookup id m.leases ≡ some l
    → is_reserved l.state ≡ true
    → Conserves m (retire (credit m l.tenant_id l.amount) id l expired now) nothing
reclaim-Conserves m v now id l e live =
    Conserves-congr (λ t. ground arith)
      (refund-Conserves m v id l e live l.amount expired now refl (v.amount_nonneg id l e)
        (omega arith))

-- A terminal lease that is dropped held nothing.
purge-Conserves :
    (m : Memory)
    → IsValid m
    → (id : String) (l : MemLease) → lookup id m.leases ≡ some l
    → is_reserved l.state ≡ false
    → Conserves m (record m { leases = delete id m.leases }) nothing
unfolding funds balance_of held
purge-Conserves m v id l found dead = record {
  valid = record {
    distinct = delete-IsDistinct id m.leases v.distinct;
    balance_nonneg = unfold balance_of in v.balance_nonneg;
    amount_nonneg = λ j x h. ground (arith, lookup-delete j id m.leases, v.amount_nonneg j x);
    fits =
        unfold funds balance_of held in
        λ t. ground (arith, v.fits t, total-delete (held t) id l m.leases v.distinct found);
  };
  conserved = λ t. ground (arith, total-delete (held t) id l m.leases v.distinct found);
}

sweep_lease-Conserves :
    (m : Memory)
    → IsValid m
    → (now limit count : ℕ) (id : String) (l : MemLease) → lookup id m.leases ≡ some l
    → Conserves m (sweep_lease m now limit count id l).0 nothing
unfolding sweep_lease
sweep_lease-Conserves m v now limit count id l e = elim (Bool-cases (is_reserved l.state)) [
  | inl live ↦ rw live (elim (Bool-cases (leb limit count)) [
    | inl full ↦ rw full (unchanged m v)
    | inr room ↦ rw room (elim (Bool-cases (ltb (l.created_at + m.lease_ttl) now)) [
      | inl old ↦ rw old (reclaim-Conserves m v now id l e live)
      | inr young ↦ rw young (unchanged m v)
    ])
  ])
  | inr dead ↦ rw dead (elim (Bool-cases (ltb (l.terminal_at + lease_audit_ttl) now)) [
    | inl old ↦ rw old (purge-Conserves m v id l e dead)
    | inr young ↦ rw young (unchanged m v)
  ])
]

sweep_found-Conserves :
    (m : Memory)
    → IsValid m
    → (now limit count : ℕ) (id : String)
    → Conserves m (sweep_found m now limit count id (lookup id m.leases)).0 nothing
unfolding sweep_found
sweep_found-Conserves m v now limit count id = elim (Option-cases (lookup id m.leases)) [
  | inl e ↦ rw (e, sweep_found) (unchanged m v)
  | inr (l, e) ↦ rw (e, sweep_found) (sweep_lease-Conserves m v now limit count id l e)
]

pub sweep-Conserves :
    (order : List String) (now limit room : ℕ) (m : Memory) (count : ℕ)
    → IsValid m
    → Conserves m (sweep order now limit room m count).0 nothing
unfolding sweep
sweep-Conserves [] now limit room m count v = unchanged m v
sweep-Conserves (id ∷ order) now limit room m count v = elim (Bool-cases (leb room 0)) [
  | inl full ↦ rw full (unchanged m v)
  | inr more ↦ rw more (
      let a = sweep_found-Conserves m v now limit count id in
      Conserves-trans a (sweep-Conserves order now limit (room - 1) _ _ a.valid))
]
