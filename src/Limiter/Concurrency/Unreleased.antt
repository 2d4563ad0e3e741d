-- ===== src/Limiter/Concurrency/Unreleased.antt =====
-- concurrency.go: the count of a tenant is the number of its slots that are out.
use breakwater.Base.{
  ℕ, zero, suc, ◌+◌, ◌≤◌, ◌≡◌, refl, true, not, ◌&&◌, List, [], ◌∷◌, String, str_eq, eq_iff,
  str_eq_refl, if◌then◌else◌, arith, lookup,
}
use breakwater.Limiter.Concurrency.{
  Gate, Handle, in_flight, acquire, Call, acquires, releases, Requests, no_requests, granted,
  release_at, step, run, in_flight-acquire, in_flight-release, release-handle,
}

-- The requests of a tenant that were admitted under a positive limit and have not been released.
pub unreleased : String → List Handle → ℕ
unreleased tenant [] = 0
unreleased tenant (h ∷ handles) =
    let rest = unreleased tenant handles in
    if str_eq h.tenant_id tenant && not h.released then suc rest else rest

-- The limit of a tenant is never above a level during the calls.
abbrev pub Under : String → ℕ → List Call → Type 0
Under tenant level [] = Unit {0}
Under tenant level (acquires t limit ∷ calls) =
    (str_eq t tenant ≡ true → limit ≤ level) × Under tenant level calls
Under tenant level (releases n ∷ calls) = Under tenant level calls

abbrev IsCounted : Requests → Type 0
IsCounted s = (u : String) → in_flight s.gate u ≡ unreleased u s.handles

unreleased_tail :
    (h : Handle) (handles : List Handle) (u : String) (n : ℕ)
    → unreleased u (h ∷ handles) ≤ n
    → unreleased u handles ≤ n
unfolding unreleased
unreleased_tail h handles u n enough = ground (arith, enough)

-- A release takes as much from the count of a tenant as from its slots.
unreleased-release_at :
    (n : ℕ) (g : Gate) (handles : List Handle)
    → ((u : String) → unreleased u handles ≤ in_flight g u)
    → (u : String)
    → let s = release_at n g handles in
      (in_flight s.gate u + unreleased u handles ≡ in_flight g u + unreleased u s.handles)
      × (unreleased u s.handles ≤ unreleased u handles)
unfolding release_at unreleased
unreleased-release_at n g [] enough u = (refl, omega arith)
unreleased-release_at zero g (h ∷ handles) enough u =
    let (named, done) = release-handle g h in
    rw (named, done)
      (ground (
        arith,
        in_flight-release g h u,
        enough u,
        enough h.tenant_id,
        str_eq_refl h.tenant_id,
        eq_iff h.tenant_id u,
      ))
unreleased-release_at (suc n) g (h ∷ handles) enough u =
    let (same, less) =
      unreleased-release_at n g handles
        (λ v. unreleased_tail h handles v (in_flight g v) (enough v)) u in
    ground (arith, same, less)

IsCounted-acquire :
    (s : Requests) (t : String) (limit : ℕ) → IsCounted s → IsCounted (step s (acquires t limit))
unfolding step granted acquire unreleased
IsCounted-acquire s t limit counted u =
    ground
      (arith, counted u, counted t, in_flight-acquire s.gate t u limit, eq_iff t u, str_eq_refl t)

unreleased-release :
    (s : Requests) (n : ℕ) (u : String)
    → IsCounted s
    → (in_flight (step s (releases n)).gate u ≡ unreleased u (step s (releases n)).handles)
      × (unreleased u (step s (releases n)).handles ≤ unreleased u s.handles)
unfolding step
unreleased-release s n u counted =
    let (same, less) = unreleased-release_at n s.gate s.handles (λ v. omega (arith, counted v)) u in
    (omega (arith, same, counted u), less)

unreleased-acquire :
    (s : Requests) (t u : String) (limit level : ℕ)
    → IsCounted s
    → (str_eq t u ≡ true → limit ≤ level)
    → unreleased u s.handles ≤ level
    → unreleased u (step s (acquires t limit)).handles ≤ level
unfolding step granted acquire unreleased
unreleased-acquire s t u limit level counted under below =
    ground (arith, counted t, counted u, under, below, eq_iff t u)

run_counts :
    (s : Requests) (calls : List Call) (tenant : String) (level : ℕ)
    → Under tenant level calls
    → IsCounted s
    → unreleased tenant s.handles ≤ level
    → (in_flight (run s calls).gate tenant ≡ unreleased tenant (run s calls).handles)
      × (unreleased tenant (run s calls).handles ≤ level)
unfolding run
run_counts s [] tenant level under counted below = (counted tenant, below)
run_counts s (acquires t limit ∷ calls) tenant level under counted below =
    run_counts (step s (acquires t limit)) calls tenant level under.1
      (IsCounted-acquire s t limit counted)
      (unreleased-acquire s t tenant limit level counted under.0 below)
run_counts s (releases n ∷ calls) tenant level under counted below =
    run_counts (step s (releases n)) calls tenant level under
      (λ u. (unreleased-release s n u counted).0)
      (omega (arith, (unreleased-release s n tenant counted).1, below))

-- However acquisitions and calls of release functions interleave, and however often one is called, the
-- count of a tenant is the number of its requests that were admitted under a positive limit and have
-- not been released, and it is never above the highest limit that it acquired under.
pub run-unreleased :
    (calls : List Call) (tenant : String) (level : ℕ)
    → Under tenant level calls
    → let s = run no_requests calls in
      (in_flight s.gate tenant ≡ unreleased tenant s.handles)
      × (unreleased tenant s.handles ≤ level)
run-unreleased calls tenant level under =
    run_counts no_requests calls tenant level under
      (λ u. unfold in_flight unreleased lookup in refl) (unfold unreleased in omega arith)
