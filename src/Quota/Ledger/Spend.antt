-- ===== src/Quota/Ledger/Spend.antt =====
-- memory.go: a reservation and what ends it, when nothing comes between.
use breakwater.Base.{
  ℕ, ◌-◌, ◌^◌, ◌≤◌, ◌<◌, ◌≡◌, min, refl, ap, ◌∙◌, inl, inr, true, false, none, some, String, lookup,
  insert, lookup-insert_self, ok, err, ltb, arith, Bool-cases,
}
use breakwater.Base.Int.{pos, int64, ltb_ℤ, ◌+ℤ◌, ◌-ℤ◌}
use breakwater.Quota.Ledger.{
  is_reserved, floor_zero, MemLease, Memory, insufficient_balance, unknown_tenant, fresh_lease,
  debit, reserve_from, reserve, credit, retire, settle_refund, settle_lease, settle, cancel,
}

-- A reservation that the balance does not cover, and one without a balance, change nothing.
pub reserve-refused :
    (m : Memory) (tenant id : String) (a b now : ℕ)
    → (lookup tenant m.balances ≡ none → reserve m tenant (pos a) id now ≡ (m, err unknown_tenant))
      × (lookup tenant m.balances ≡ some (pos b)
          → b < a
          → reserve m tenant (pos a) id now ≡ (m, err insufficient_balance))
unfolding reserve reserve_from
reserve-refused m tenant id a b now =
    (λ e. rw (e, reserve) refl, λ e h. rw (e, reserve) (ground (arith, h)))

module _ (m : Memory) (tenant id : String) (a b now : ℕ)
    (funded : lookup tenant m.balances ≡ some (pos b)) (covered : a ≤ b) (small : b < 2 ^ 63) where
  -- The ledger while the request runs.
  abbrev pub holding : Memory
  holding = record m {
    balances = insert tenant (pos (b - a)) m.balances;
    leases =
        insert id (record { lease = fresh_lease tenant (pos a) id now; terminal_at = 0 }) m.leases;
  }

  pub reserve-granted :
      reserve m tenant (pos a) id now ≡ (holding, ok (fresh_lease tenant (pos a) id now))
  unfolding reserve reserve_from debit
  reserve-granted =
      let left : int64 (pos b -ℤ pos a) ≡ pos (b - a) = difference in
      rw (funded, reserve) (ground (arith, covered, left))
    where
      difference : int64 (pos b -ℤ pos a) ≡ pos (b - a)
      difference = unfold int64 ◌-ℤ◌ in ground (arith, covered, small)

  abbrev pub Ended : Memory → ℕ → Type 0
  Ended t left =
      (lookup tenant t.balances ≡ some (pos left))
      × ((l : MemLease) × (lookup id t.leases ≡ some l) × (is_reserved l.state ≡ false))

  -- The settlement gives back what was not used, and never more than was reserved.
  pub settle-Ended :
      (u later : ℕ) → u < 2 ^ 63 → Ended (settle holding id (pos u) later).0 (b - min u a)
  unfolding settle settle_lease settle_refund retire credit
  settle-Ended u later fits =
      let lease : MemLease = record {
        lease = fresh_lease tenant (pos a) id now;
        terminal_at = 0;
      } in
      let there : lookup id holding.leases ≡ some lease = lookup-insert_self id lease m.leases in
      let now_left : lookup tenant holding.balances ≡ some (pos (b - a)) =
        lookup-insert_self tenant (pos (b - a)) m.balances in
      let counted : int64 (pos a -ℤ floor_zero (pos u)) ≡ int64 (pos a -ℤ pos u) = ground arith in
      elim (Bool-cases (ltb u a)) [
        | inl e ↦
            let rest : int64 (pos a -ℤ pos u) ≡ pos (a - u) =
              unfold int64 ◌-ℤ◌ in ground (arith, covered, small, e) in
            let given : int64 (pos (b - a) +ℤ pos (a - u)) ≡ pos (b - min u a) =
              unfold int64 ◌+ℤ◌ in ground (arith, covered, small, e) in
            let positive : ltb_ℤ (pos 0) (pos (a - u)) ≡ true = ground (arith, e) in
            rw
              (there, settle, settle_lease, counted, rest, settle_refund, positive, now_left, given)
              (
                lookup-insert_self tenant (pos (b - min u a)) holding.balances,
                (_, lookup-insert_self id _ holding.leases, refl),
              )
        | inr e ↦
            let none_left : ltb_ℤ (pos 0) (int64 (pos a -ℤ pos u)) ≡ false =
              unfold int64 ◌-ℤ◌ in ground (arith, covered, small, e, fits) in
            let all : pos (b - a) ≡ pos (b - min u a) = ground (arith, covered, e) in
            rw (there, settle, settle_lease, counted, settle_refund, none_left)
              (now_left ∙ ap (λ x. some x) all, (_, lookup-insert_self id _ holding.leases, refl))
      ]

  pub cancel-Ended : (later : ℕ) → Ended (cancel holding id later).0 b
  unfolding cancel retire credit
  cancel-Ended later =
      let lease : MemLease = record {
        lease = fresh_lease tenant (pos a) id now;
        terminal_at = 0;
      } in
      let there : lookup id holding.leases ≡ some lease = lookup-insert_self id lease m.leases in
      let now_left : lookup tenant holding.balances ≡ some (pos (b - a)) =
        lookup-insert_self tenant (pos (b - a)) m.balances in
      let whole : int64 (pos (b - a) +ℤ pos a) ≡ pos b =
        unfold int64 ◌+ℤ◌ in ground (arith, covered, small) in
      rw (there, cancel, now_left, whole)
        (
          lookup-insert_self tenant (pos b) holding.balances,
          (_, lookup-insert_self id _ holding.leases, refl),
        )
