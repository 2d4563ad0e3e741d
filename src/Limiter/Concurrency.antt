-- ===== src/Limiter/Concurrency.antt =====
-- internal/limiter/concurrency.go: the in-flight gate. A limit at or below zero is 0 here. The mutex
-- makes each call one step; the release function is a value with its own flag.
pub mod Unreleased
use breakwater.Base.{
  zero, suc, ℕ, ◌+◌, ◌-◌, ◌≤◌, ◌<◌, ◌≡◌, Bool, true, false, List, [], ◌∷◌, Option, none, some,
  String, Assoc, lookup, insert, delete, lookup-insert, lookup-delete, str_eq, eq_iff, leb, ltb,
  if◌then◌else◌, arith, str_eq_refl, ap, ◌∙◌,
}

abbrev pub Gate : Type 0
Gate = Assoc ℕ

-- `released` is nil-safe: a handle of a disabled ceiling is released from the start.
pub record Handle : Type 0 where
  pub tenant_id : String
  pub released : Bool

abbrev or_none : Option ℕ → ℕ
or_none none = 0
or_none (some n) = n

unfoldable pub in_flight : Gate → String → ℕ
in_flight g tenant = or_none (lookup tenant g)

-- `none` is a refusal.
unfoldable pub acquire : Gate → String → ℕ → Gate × Option Handle
acquire g tenant limit =
    if leb limit 0
    then (g, some (record { tenant_id = tenant; released = true }))
    else (if leb limit (in_flight g tenant) then (g, none) else (
      insert tenant (in_flight g tenant + 1) g,
      some (record { tenant_id = tenant; released = false }),
    ))

unfoldable pub release : Gate → Handle → Gate × Handle
release g h =
    if h.released
    then (g, h)
    else (let v = in_flight g h.tenant_id - 1 in
        (
          if ltb 0 v then insert h.tenant_id v g else delete h.tenant_id g,
          record h { released = true },
        ))

in_flight-insert :
    (g : Gate) (t u : String) (n : ℕ)
    → in_flight (insert t n g) u ≡ (if str_eq t u then n else in_flight g u)
unfolding in_flight
in_flight-insert g t u n = ground (arith, lookup-insert u t n g)

in_flight-delete :
    (g : Gate) (t u : String) → in_flight (delete t g) u ≡ (if str_eq t u then 0 else in_flight g u)
unfolding in_flight
in_flight-delete g t u = ground (arith, lookup-delete u t g)

pub in_flight-acquire :
    (g : Gate) (t u : String) (limit : ℕ)
    → in_flight (acquire g t limit).0 u ≡ (
        if ltb (in_flight g t) limit
        then (if str_eq t u then in_flight g t + 1 else in_flight g u)
        else in_flight g u)
unfolding acquire
in_flight-acquire g t u limit = ground (arith, in_flight-insert g t u (in_flight g t + 1))

pub in_flight-release :
    (g : Gate) (h : Handle) (u : String)
    → in_flight (release g h).0 u ≡ (
        if h.released
        then in_flight g u
        else (if str_eq h.tenant_id u then in_flight g h.tenant_id - 1 else in_flight g u))
unfolding release
in_flight-release g h u = ground (
  arith,
  in_flight-insert g h.tenant_id u (in_flight g h.tenant_id - 1),
  in_flight-delete g h.tenant_id u,
)

pub acquire-handle :
    (g : Gate) (tenant : String) (limit : ℕ) (h : Handle)
    → 0 < limit
    → (acquire g tenant limit).1 ≡ some h
    → (h.tenant_id ≡ tenant) × (h.released ≡ false) × (in_flight g tenant < limit)
unfolding acquire
acquire-handle g tenant limit h pos granted = (ground arith, ground arith, ground arith)

pub release-handle :
    (g : Gate) (h : Handle)
    → ((release g h).1.tenant_id ≡ h.tenant_id) × ((release g h).1.released ≡ true)
unfolding release
release-handle g h = (ground arith, ground arith)

release-twice : (g : Gate) (h : Handle) → release (release g h).0 (release g h).1 ≡ release g h
unfolding release
release-twice g h = ground arith

-- A slot that was granted and goes back, by its release function called twice, leaves every count
-- as it was; and the count of the tenant in between is one more and within the limit.
release-acquire :
    (g : Gate) (tenant other : String) (limit : ℕ) (h : Handle)
    → 0 < limit
    → (acquire g tenant limit).1 ≡ some h
    → let held = (acquire g tenant limit).0 in
      let once = release held h in
      let twice = release once.0 once.1 in
      (in_flight held tenant ≡ in_flight g tenant + 1)
      × (in_flight held tenant ≤ limit)
      × (in_flight once.0 other ≡ in_flight g other)
      × (in_flight twice.0 other ≡ in_flight g other)
release-acquire g tenant other limit h pos granted =
    let held = (acquire g tenant limit).0 in
    let (named, held_back, below) = acquire-handle g tenant limit h pos granted in
    let restored : in_flight (release held h).0 other ≡ in_flight g other = ground (
      arith,
      in_flight-acquire g tenant other limit,
      in_flight-acquire g tenant tenant limit,
      in_flight-release held h other,
      str_eq_refl tenant,
      eq_iff tenant other,
    ) in
    (
      ground (arith, in_flight-acquire g tenant tenant limit, str_eq_refl tenant),
      ground (arith, in_flight-acquire g tenant tenant limit, str_eq_refl tenant),
      restored,
      ap (λ r. in_flight r.0 other) (release-twice held h) ∙ restored,
    )

-- The calls on the gate: an acquisition under a limit of the tenant, and a call of one of the release
-- functions handed out so far, the latest first.
pub data Call : Type 0 where
  acquires : String → ℕ → Call
  releases : ℕ → Call

-- The gate with every release function that it handed out.
pub record Requests : Type 0 where
  pub gate : Gate
  pub handles : List Handle

abbrev pub no_requests : Requests
no_requests = record { gate = []; handles = [] }

unfoldable pub granted : Gate × Option Handle → Requests → Requests
granted (g, none) s = record s { gate = g }
granted (g, some h) s = record { gate = g; handles = h ∷ s.handles }

-- The release function keeps the flag that its call has set.
unfoldable pub release_at : ℕ → Gate → List Handle → Requests
release_at n g [] = record { gate = g; handles = [] }
release_at zero g (h ∷ handles) =
    let (freed, done) = release g h in record { gate = freed; handles = done ∷ handles }
release_at (suc n) g (h ∷ handles) =
    let rest = release_at n g handles in record rest { handles = h ∷ rest.handles }

unfoldable pub step : Requests → Call → Requests
unfolding granted release_at
step s (acquires t limit) = granted (acquire s.gate t limit) s
step s (releases n) = release_at n s.gate s.handles

unfoldable pub run : Requests → List Call → Requests
unfolding step
run s [] = s
run s (c ∷ calls) = run (step s c) calls
