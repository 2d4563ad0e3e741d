-- ===== src/Cache/Flight/Tests.antt =====
-- Two callers of one key: the first holds the flight, the second waits.
use breakwater.Base.{ℕ, ◌<◌, ◌≡◌, refl, true, List, [], ◌∷◌, lookup, insert, delete}
use mathlib.Core.List.{Memᴰ}
use breakwater.Cache.Flight.{
  Action, enters, fetches, removes, closes, receives, waiting, got, new_flight, run, step, enter,
  join, fetch, remove, close, receive, wake, set_stage, set_waiter,
}
use breakwater.Cache.Flight.Invariant.{is_active}
use breakwater.Cache.Flight.Served.{remaining, run-single, run-served}

abbrev joined : List (Action ℕ)
joined = enters "k" 0 ∷ enters "k" 1 ∷ []

second_waits : (run (new_flight {R = ℕ}) joined).waiters 1 ≡ waiting 0
unfolding run step enter join set_waiter new_flight lookup insert
second_waits = refl

abbrev both_served : List (Action ℕ)
both_served =
    enters "k" 0
    ∷ enters "k" 1
    ∷ enters "k" 2
    ∷ fetches 0 7
    ∷ removes 0
    ∷ closes 0
    ∷ receives 2
    ∷ receives 1
    ∷ []

first_outcome : (run (new_flight {R = ℕ}) both_served).waiters 1 ≡ got 0 7
unfolding run step enter join fetch remove close receive wake set_stage set_waiter new_flight lookup
    insert delete
first_outcome = refl

second_outcome : (run (new_flight {R = ℕ}) both_served).waiters 2 ≡ got 0 7
unfolding run step enter join fetch remove close receive wake set_stage set_waiter new_flight lookup
    insert delete
second_outcome = refl

run-single_example :
    let s = run (new_flight {R = ℕ}) both_served in
    ((i j : ℕ)
      → i < s.next
      → j < s.next
      → (s.flights i).key ≡ (s.flights j).key
      → is_active (s.flights i).stage ≡ true
      → is_active (s.flights j).stage ≡ true
      → i ≡ j)
    × ((c d i : ℕ) (r q : ℕ) → s.waiters c ≡ got i r → s.waiters d ≡ got i q → r ≡ q)
    × ((c i r : ℕ) → s.waiters c ≡ got i r → Memᴰ (fetches i r) both_served)
run-single_example = run-single both_served

run-served_example :
    (q : ℕ) × ((run (run (new_flight {R = ℕ}) joined) (remaining 0 7 1)).waiters 1 ≡ got 0 q)
run-served_example = run-served joined 1 0 7 second_waits
