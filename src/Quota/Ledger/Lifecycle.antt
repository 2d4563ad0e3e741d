-- ===== src/Quota/Ledger/Lifecycle.antt =====
-- A lease ends once, and a sweep leaves young leases alone.
use breakwater.Base.{
  ℕ, ◌+◌, ◌-◌, ◌≤◌, ◌≡◌, refl, ◌⊎◌, inl, inr, true, false, List, [], ◌∷◌, Option, none, some,
  String, str_eq, lookup, lookup-insert, lookup-delete, lookup-insert_self, arith, Bool-cases,
  Option-cases, String-cases, leb,
}
use breakwater.Base.Int.{ℤ}
use breakwater.Quota.Ledger.{
  LeaseState, settled, expired, cancelled, is_reserved, MemLease, Memory, credit, retire, settle,
  cancel, sweep_found, sweep, sweep_once, sweep_lease, lease_audit_ttl,
}

-- The lease under an identifier is terminal.
abbrev IsTerminal : Memory → String → Type 0
IsTerminal m id = (l : MemLease) × (lookup id m.leases ≡ some l) × (is_reserved l.state ≡ false)

abbrev AllIgnored : Memory → String → ℤ → ℕ → Type 0
AllIgnored m id used now = (settle m id used now ≡ (m, none)) × (cancel m id now ≡ (m, none))

terminal_ignored :
    (m : Memory) (id : String) (used : ℤ) (now : ℕ) → IsTerminal m id → AllIgnored m id used now
unfolding settle cancel
terminal_ignored m id used now (l, e, dead) = ground (arith, e, dead)

retire-IsTerminal :
    (m : Memory) (id : String) (l : MemLease) (state : LeaseState) (now : ℕ)
    → is_reserved state ≡ false
    → IsTerminal (retire m id l state now) id
unfolding retire
retire-IsTerminal m id l state now dead = (_, lookup-insert_self id _ m.leases, dead)

settle-IsTerminal :
    (m : Memory) (id : String) (l : MemLease) (used : ℤ) (now : ℕ)
    → lookup id m.leases ≡ some l
    → IsTerminal (settle m id used now).0 id
unfolding settle
settle-IsTerminal m id l used now e = elim (Bool-cases (is_reserved l.state)) [
  | inl live ↦ rw (e, settle, live) (retire-IsTerminal _ id l settled now refl)
  | inr dead ↦ rw (e, settle, dead) (l, e, dead)
]

cancel-IsTerminal :
    (m : Memory) (id : String) (l : MemLease) (now : ℕ)
    → lookup id m.leases ≡ some l
    → IsTerminal (cancel m id now).0 id
unfolding cancel
cancel-IsTerminal m id l now e = elim (Bool-cases (is_reserved l.state)) [
  | inl live ↦ rw (e, cancel, live) (retire-IsTerminal _ id l cancelled now refl)
  | inr dead ↦ rw (e, cancel, dead) (l, e, dead)
]

-- Once a recorded lease has been settled or cancelled, every later settlement or cancellation of it
-- changes nothing at all and reports no error.
pub ends_once :
    (m : Memory) (id : String) (l : MemLease) (used used' : ℤ) (now later : ℕ)
    → lookup id m.leases ≡ some l
    → let s = (settle m id used now).0 in
      let c = (cancel m id now).0 in
      (settle s id used' later ≡ (s, none))
      × (cancel s id later ≡ (s, none))
      × (settle c id used' later ≡ (c, none))
      × (cancel c id later ≡ (c, none))
ends_once m id l used used' now later e =
    let a = terminal_ignored _ id used' later (settle-IsTerminal m id l used now e) in
    let b = terminal_ignored _ id used' later (cancel-IsTerminal m id l now e) in
    (a.0, a.1, b.0, b.1)

-- A lease that a sweep must keep: live and not past the reclaim horizon, or terminal and inside the
-- audit window.
abbrev pub IsKept : Memory → ℕ → MemLease → Type 0
IsKept m now l =
    ((is_reserved l.state ≡ true) × (now ≤ l.created_at + m.lease_ttl))
    ⊎ ((is_reserved l.state ≡ false) × (now ≤ l.terminal_at + lease_audit_ttl))

module _ (id : String) (l : MemLease) (now limit : ℕ) where
  sweep_lease_kept :
      (m : Memory) (count : ℕ) (j : String)
      → IsKept m now l
      → sweep_lease m now limit count j l ≡ (m, count)
  unfolding sweep_lease
  sweep_lease_kept m count j k = ground arith

  sweep_lease_other :
      (m : Memory) (count : ℕ) (j : String) (x : MemLease)
      → str_eq j id ≡ false
      → lookup id m.leases ≡ some l
      → (lookup id (sweep_lease m now limit count j x).0.leases ≡ some l)
        × ((sweep_lease m now limit count j x).0.lease_ttl ≡ m.lease_ttl)
  unfolding sweep_lease retire credit
  sweep_lease_other m count j x ne e = ground (
    arith,
    ne,
    e,
    lookup-delete id j m.leases,
    lookup-insert id j (record { lease = record (x.lease) { state = expired }; terminal_at = now })
        m.leases,
  )

  -- One turn of the sweep keeps the lease, whichever identifier it examines.
  sweep_found_keeps :
      (m : Memory) (count : ℕ) (j : String)
      → IsKept m now l
      → lookup id m.leases ≡ some l
      → (lookup id (sweep_found m now limit count j (lookup j m.leases)).0.leases ≡ some l)
        × ((sweep_found m now limit count j (lookup j m.leases)).0.lease_ttl ≡ m.lease_ttl)
  unfolding sweep_found
  sweep_found_keeps m count j k e = elim (String-cases j id) [
    | inl same ↦
        let found : lookup j m.leases ≡ some l = rw same e in
        let a = sweep_lease_kept m count j k in rw (found, sweep_found) (ground (arith, a, e))
    | inr other ↦ elim (Option-cases (lookup j m.leases)) [
      | inl miss ↦ rw (miss, sweep_found) (e, refl)
      | inr (x, hit) ↦ rw (hit, sweep_found) (sweep_lease_other m count j x other e)
    ]
  ]

  sweep_keeps :
      (order : List String) (room : ℕ) (m : Memory) (count : ℕ)
      → IsKept m now l
      → lookup id m.leases ≡ some l
      → lookup id (sweep order now limit room m count).0.leases ≡ some l
  unfolding sweep
  sweep_keeps [] room m count k e = e
  sweep_keeps (j ∷ order) room m count k e = elim (Bool-cases (leb room 0)) [
    | inl full ↦ rw full e
    | inr more ↦
        rw more (
          let a = sweep_found_keeps m count j k e in
          sweep_keeps order (room - 1) _ _ (rw a.1 k) a.0)
  ]

-- A sweep never touches a live lease inside the reclaim horizon, nor drops a terminal record inside
-- the audit window, whatever order it ranges in.
sweep_once_keeps :
    (m : Memory) (now limit : ℕ) (order : List String) (id : String) (l : MemLease)
    → lookup id m.leases ≡ some l
    → IsKept m now l
    → lookup id (sweep_once m now limit order).0.leases ≡ some l
unfolding sweep_once
sweep_once_keeps m now limit order id l e k = sweep_keeps id l now limit order _ m 0 k e

sweep_found_count :
    (m : Memory) (now limit count : ℕ) (id : String) (l : Option MemLease)
    → count ≤ limit
    → (sweep_found m now limit count id l).1 ≤ limit
unfolding sweep_found sweep_lease
sweep_found_count m now limit count id l h = ground arith

sweep_count :
    (order : List String) (now limit room : ℕ) (m : Memory) (count : ℕ)
    → count ≤ limit
    → (sweep order now limit room m count).1 ≤ limit
unfolding sweep
sweep_count [] now limit room m count h = h
sweep_count (id ∷ order) now limit room m count h = ground (
  arith,
  sweep_found_count m now limit count id (lookup id m.leases),
  sweep_count order now limit (room - 1) (sweep_found m now limit count id (lookup id m.leases)).0
      (sweep_found m now limit count id (lookup id m.leases)).1,
)

-- A pass reclaims no more leases than its limit.
sweep_once_count :
    (m : Memory) (now limit : ℕ) (order : List String) → (sweep_once m now limit order).1 ≤ limit
unfolding sweep_once
sweep_once_count m now limit order = sweep_count order now limit _ m 0 (omega arith)
