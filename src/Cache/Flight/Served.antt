-- ===== src/Cache/Flight/Served.antt =====
-- singleflight.go: one fetch for each key, one outcome for all its callers, and no caller stranded.
use breakwater.Base.{
  ℕ, ◌≤◌, ◌<◌, ◌≡◌, refl, sym, ap, subst, ◌∙◌, true, List, [], ◌∷◌, Option, none, some, lookup,
  ◌==◌, ltb, lt→ltb, arith,
}
use mathlib.Core.Option.{some-injective}
use mathlib.Core.List.{Memᴰ}
use breakwater.Cache.Flight.{
  Stage, running, fetched, removed, closed, waiting, got, Flight, new_flight, set_stage, set_waiter,
  fetch, remove, close, wake, receive, Action, fetches, removes, closes, receives, step, run,
}
use breakwater.Cache.Flight.Invariant.{is_active, Knows, IsConsistent}
use breakwater.Cache.Flight.Published.{new_flight-Writes}
use breakwater.Cache.Flight.Steps.{run-IsConsistent, new_flight-IsConsistent}

module _ {R : Type 0} where
  outcome : Stage R → Option R
  outcome (closed r) = some r
  outcome _ = none

  -- At any moment of any interleaving, two flights of one key whose fetch runs, or has just come back,
  -- are the same flight; two callers that were served by one flight got the same outcome; and an outcome
  -- that a caller got is one that the fetch of its flight's holder gave in the run.
  pub run-single :
      (actions : List (Action R))
      → let s = run new_flight actions in
        ((i j : ℕ)
          → i < s.next
          → j < s.next
          → (s.flights i).key ≡ (s.flights j).key
          → is_active (s.flights i).stage ≡ true
          → is_active (s.flights j).stage ≡ true
          → i ≡ j)
        × ((c d i : ℕ) (r q : R) → s.waiters c ≡ got i r → s.waiters d ≡ got i q → r ≡ q)
        × ((c i : ℕ) (r : R) → s.waiters c ≡ got i r → Memᴰ (fetches i r) actions)
  unfolding outcome
  run-single actions =
      let s = run new_flight actions in
      let h = run-IsConsistent new_flight actions new_flight-IsConsistent in
      (
        λ i j low below same act act'.
            some-injective i j
              (sym (h.active i low act) ∙ ap (λ k. lookup k s.calls) same ∙ h.active j below act'),
        λ c d i r q at at'.
            some-injective r q (ap outcome (sym (told s h c i r at) ∙ told s h d i q at')),
        λ c i r at. new_flight-Writes actions i r (told s h c i r at),
      )
    where
      told :
          (s : Flight R)
          → IsConsistent s
          → (c i : ℕ) (r : R) → s.waiters c ≡ got i r
          → (s.flights i).stage ≡ closed r
      told s h c i r at = (subst (Knows s) at (h.known c)).1

  -- The steps that a flight's holder still has to take.
  rank : Stage R → ℕ
  rank running = 3
  rank (fetched r) = 2
  rank (removed r) = 1
  rank (closed r) = 0

  -- One step of the holder.
  abbrev Moves : ℕ → ℕ → Flight R → Flight R → Type 0
  Moves id n s t = (rank (t.flights id).stage ≤ n) × (t.next ≡ s.next) × (t.waiters ≡ s.waiters)

  rank-set_stage :
      (id : ℕ) (x : Stage R) (s : Flight R) → rank ((set_stage id x s).flights id).stage ≡ rank x
  unfolding set_stage
  rank-set_stage id x s = let test : (id == id) ≡ true = ground arith in simp test refl

  fetch-Moves :
      (id : ℕ) (r : R) (x : Stage R) (s : Flight R)
      → (s.flights id).stage ≡ x
      → Moves id 2 s (fetch id r x s)
  unfolding fetch rank
  fetch-Moves id r running s at = (
    omega (arith, rank-set_stage id (fetched r) s),
    unfold set_stage in refl,
    unfold set_stage in refl,
  )
  fetch-Moves id r (fetched q) s at = (omega (arith, ap rank at), refl, refl)
  fetch-Moves id r (removed q) s at = (omega (arith, ap rank at), refl, refl)
  fetch-Moves id r (closed q) s at = (omega (arith, ap rank at), refl, refl)

  remove-Moves :
      (id : ℕ) (x : Stage R) (s : Flight R)
      → (s.flights id).stage ≡ x
      → rank (s.flights id).stage ≤ 2
      → Moves id 1 s (remove id x s)
  unfolding remove rank
  remove-Moves id running s at low = absurd (omega (arith, ap rank at, low))
  remove-Moves id (fetched q) s at low = (
    omega (arith, rank-set_stage id (removed q) s),
    unfold set_stage in refl,
    unfold set_stage in refl,
  )
  remove-Moves id (removed q) s at low = (omega (arith, ap rank at), refl, refl)
  remove-Moves id (closed q) s at low = (omega (arith, ap rank at), refl, refl)

  close-Moves :
      (id : ℕ) (x : Stage R) (s : Flight R)
      → (s.flights id).stage ≡ x
      → rank (s.flights id).stage ≤ 1
      → Moves id 0 s (close id x s)
  unfolding close rank
  close-Moves id running s at low = absurd (omega (arith, ap rank at, low))
  close-Moves id (fetched q) s at low = absurd (omega (arith, ap rank at, low))
  close-Moves id (removed q) s at low = (
    omega (arith, rank-set_stage id (closed q) s),
    unfold set_stage in refl,
    unfold set_stage in refl,
  )
  close-Moves id (closed q) s at low = (omega (arith, ap rank at), refl, refl)

  Stage-closed : (x : Stage R) → rank x ≤ 0 → (q : R) × (x ≡ closed q)
  unfolding rank
  Stage-closed running low = absurd (omega (arith, low))
  Stage-closed (fetched q) low = absurd (omega (arith, low))
  Stage-closed (removed q) low = absurd (omega (arith, low))
  Stage-closed (closed q) low = (q, refl)

  -- The holder's three steps, then the waiter's.
  abbrev pub remaining : ℕ → R → ℕ → List (Action R)
  remaining id r c = fetches id r ∷ removes id ∷ closes id ∷ receives c ∷ []

  holder-Moves :
      (id : ℕ) (r : R) (s : Flight R)
      → id < s.next
      → Moves id 0 s (step (closes id) (step (removes id) (step (fetches id r) s)))
  unfolding step
  holder-Moves id r s low =
      let s1 = step (fetches id r) s in
      let s2 = step (removes id) s1 in
      let m1 : Moves id 2 s s1 =
        simp (lt→ltb id s.next low) (fetch-Moves id r (s.flights id).stage s refl) in
      let low1 : ltb id s1.next ≡ true = lt→ltb id s1.next (omega (arith, m1.1, low)) in
      let m2 : Moves id 1 s1 s2 = simp low1 (remove-Moves id (s1.flights id).stage s1 refl m1.0) in
      let low2 : ltb id s2.next ≡ true = lt→ltb id s2.next (omega (arith, m1.1, m2.1, low)) in
      let m3 : Moves id 0 s2 (step (closes id) s2) =
        simp low2 (close-Moves id (s2.flights id).stage s2 refl m2.0) in
      (m3.0, m3.1 ∙ m2.1 ∙ m1.1, m3.2 ∙ m2.2 ∙ m1.2)

  served :
      (c id : ℕ) (q : R) (s : Flight R)
      → s.waiters c ≡ waiting id
      → (s.flights id).stage ≡ closed q
      → (step (receives c) s).waiters c ≡ got id q
  unfolding step receive wake set_waiter
  served c id q s at done =
      let test : (c == c) ≡ true = ground arith in rw (at, receive, done, wake) (simp test refl)

  -- No interleaving strands a waiter: from any moment at which a caller waits on a flight, the steps
  -- that the flight's holder still has to take, whatever its fetch gives, then the waiter's own, end
  -- with the waiter served by that flight.
  pub run-served :
      (actions : List (Action R)) (c id : ℕ) (r : R)
      → (run new_flight actions).waiters c ≡ waiting id
      → (q : R) × ((run (run new_flight actions) (remaining id r c)).waiters c ≡ got id q)
  unfolding run
  run-served actions c id r at =
      let s = run new_flight actions in
      let h = run-IsConsistent new_flight actions new_flight-IsConsistent in
      let low : id < s.next = subst (Knows s) at (h.known c) in
      let moved = holder-Moves id r s low in
      let t = step (closes id) (step (removes id) (step (fetches id r) s)) in
      let (q, done) = Stage-closed (t.flights id).stage moved.0 in
      (q, served c id q t ((λ i. moved.2 i c) ∙ at) done)
