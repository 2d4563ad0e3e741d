-- ===== src/Quota/Ledger/Conservation.antt =====
-- No operation of the request path makes or loses tokens.
use breakwater.Base.{
  ℕ, ◌+◌, ◌-◌, ◌^◌, ◌≤◌, ◌<◌, ◌≡◌, refl, inl, inr, true, false, none, some, String, str_eq, lookup,
  arith, Bool-cases, Option-cases, str_eq_refl, if◌then◌else◌, min,
}
use breakwater.Base.Int.{ℤ, pos, pos_part, neg_part, ltb_ℤ, int64_sub}
use breakwater.Quota.Ledger.{
  LeaseState, settled, cancelled, is_reserved, MemLease, Memory, credit, retire, settle, cancel,
  floor_zero, settle_lease, settle_refund,
}
use breakwater.Quota.Ledger.Funds.{
  held, funds, IsValid, balance-credit, balance-le-funds, funds-retire, refund-IsValid,
  keep-IsValid,
}

-- An operation keeps the ledger valid, and takes what it consumes out of a tenant's funds.
pub record Conserves (m n : Memory) (consumed : String → ℕ) : Type 0 where
  pub valid : IsValid n
  pub conserved : (tenant : String) → funds n tenant + consumed tenant ≡ funds m tenant

abbrev pub nothing : String → ℕ
nothing tenant = 0

floor_zero_parts : (a : ℤ) → (pos_part (floor_zero a) ≡ pos_part a) × (neg_part (floor_zero a) ≡ 0)
floor_zero_parts a = ground arith

amount_fits :
    (m : Memory)
    → IsValid m
    → (id : String) (l : MemLease) → lookup id m.leases ≡ some l
    → is_reserved l.state ≡ true
    → pos_part l.amount < 2 ^ 63
unfolding held
amount_fits m v id l found live =
    ground (arith, balance-le-funds m v id l found live l.tenant_id, str_eq_refl l.tenant_id)

pub Conserves-trans :
    {m n o : Memory} → Conserves m n nothing → Conserves n o nothing → Conserves m o nothing
Conserves-trans a b = record {
  valid = b.valid;
  conserved = λ t. omega (arith, a.conserved t, b.conserved t);
}

pub unchanged : (m : Memory) → IsValid m → Conserves m m nothing
unchanged m v = record { valid = v; conserved = λ tenant. omega arith }

pub Conserves-congr :
    {m n : Memory} {c d : String → ℕ}
    → ((t : String) → c t ≡ d t)
    → Conserves m n c
    → Conserves m n d
Conserves-congr h k = record { valid = k.valid; conserved = λ t. omega (arith, h t, k.conserved t) }

module _ (m : Memory) (v : IsValid m) where
  module _ (id : String) (l : MemLease) (found : lookup id m.leases ≡ some l)
      (live : is_reserved l.state ≡ true) where
    pub refund-Conserves :
        (refund : ℤ) (state : LeaseState) (now : ℕ)
        → is_reserved state ≡ false
        → neg_part refund ≡ 0
        → pos_part refund ≤ pos_part l.amount
        → Conserves m
            (retire (credit m l.tenant_id refund) id l state now)
            (λ t. if str_eq l.tenant_id t then pos_part l.amount - pos_part refund else 0)
    unfolding credit held
    refund-Conserves refund state now dead r h = record {
      valid = refund-IsValid m v id l found live refund state now dead r h;
      conserved = λ t. ground (
        arith,
        h,
        funds-retire m v id l found live (credit m l.tenant_id refund) state now refl dead t _
            (balance-credit m v id l found live refund t r h).0,
      );
    }

    keep-Conserves :
        (state : LeaseState) (now : ℕ)
        → is_reserved state ≡ false
        → Conserves m (retire m id l state now) (λ t. held t l)
    keep-Conserves state now dead = record {
      valid = keep-IsValid m v id l found live state now dead;
      conserved = λ t.
          omega (arith, funds-retire m v id l found live m state now refl dead t 0 (omega arith));
    }

    settle_refund-Conserves :
        (refund : ℤ) (u now : ℕ)
        → pos_part refund ≡ pos_part l.amount - u
        → neg_part refund ≡ u - pos_part l.amount
        → Conserves m (settle_refund m id l refund now) (λ t. min u (held t l))
    unfolding settle_refund held
    settle_refund-Conserves refund u now p n = elim (Bool-cases (ltb_ℤ (pos 0) refund)) [
      | inl e ↦ rw e (
          Conserves-congr (λ t. ground arith)
            (refund-Conserves refund settled now refl (ground arith) (omega arith)))
      | inr e ↦ rw e (Conserves-congr (λ t. ground arith) (keep-Conserves settled now refl))
    ]

    -- What is used out of the amount is consumed, the rest goes back.
    settle_lease-Conserves :
        (used : ℤ) (now : ℕ)
        → pos_part used < 2 ^ 63
        → Conserves m (settle_lease m id l used now) (λ t. min (pos_part used) (held t l))
    unfolding settle_lease
    settle_lease-Conserves used now h =
        let f = floor_zero_parts used in
        let exact =
          int64_sub l.amount (floor_zero used) (v.amount_nonneg id l found) f.1
            (amount_fits m v id l found live) (omega (arith, f.0)) in
        settle_refund-Conserves _ (pos_part used) now (omega (arith, exact.0, f.0))
          (omega (arith, exact.1, f.0))

-- What a settlement takes out of a tenant's funds: no more than the lease holds, and nothing unless
-- the lease is live.
abbrev pub spent_by : Memory → String → ℤ → String → ℕ
spent_by m id used tenant = elim (lookup id m.leases) [
  | none ↦ 0
  | some l ↦ min (pos_part used) (held tenant l)
]

module _ (m : Memory) (v : IsValid m) where
  pub settle-Conserves :
      (id : String) (used : ℤ) (now : ℕ)
      → pos_part used < 2 ^ 63
      → Conserves m (settle m id used now).0 (spent_by m id used)
  unfolding settle
  settle-Conserves id used now h = elim (Option-cases (lookup id m.leases)) [
    | inl e ↦ rw (e, settle) (Conserves-congr (λ t. rw (e, spent_by)) (unchanged m v))
    | inr (l, e) ↦ elim (Bool-cases (is_reserved l.state)) [
      | inl live ↦
          rw (e, settle, live)
            (Conserves-congr (λ t. rw (e, spent_by))
              (settle_lease-Conserves m v id l e live used now h))
      | inr dead ↦
          rw (e, settle, dead)
            (Conserves-congr (λ t. rw (e, spent_by) (unfold held in rw dead (omega arith)))
              (unchanged m v))
    ]
  ]

  pub cancel-Conserves : (id : String) (now : ℕ) → Conserves m (cancel m id now).0 nothing
  unfolding cancel
  cancel-Conserves id now = elim (Option-cases (lookup id m.leases)) [
    | inl e ↦ rw (e, cancel) (unchanged m v)
    | inr (l, e) ↦ elim (Bool-cases (is_reserved l.state)) [
      | inl live ↦
          rw (e, cancel, live)
            (Conserves-congr (λ t. ground arith)
              (refund-Conserves m v id l e live l.amount cancelled now refl (v.amount_nonneg id l e)
                (omega arith)))
      | inr dead ↦ rw (e, cancel, dead) (unchanged m v)
    ]
  ]
