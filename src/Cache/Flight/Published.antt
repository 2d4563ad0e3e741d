-- ===== src/Cache/Flight/Published.antt =====
-- singleflight.go: every outcome in the machine was written by the fetch of its flight's holder.
use breakwater.Base.{
  ℕ, ◌≡◌, refl, sym, ap, ◌∙◌, inl, inr, ◌⊎◌, List, [], ◌∷◌, Option, none, some, String, lookup,
  ◌==◌, ltb, if◌then◌else◌, Bool-cases,
}
use mathlib.Core.Option.{none-ne-some, some-injective}
use mathlib.Core.List.{Memᴰ}
use breakwater.Cache.Flight.{
  Stage, running, fetched, removed, closed, Waiter, idle, waiting, got, left, Flight, new_flight,
  set_stage, set_waiter, join, enter, fetch, remove, close, wake, receive, leave, Action, enters,
  fetches, removes, closes, receives, leaves, step, run,
}
use breakwater.Cache.Flight.Invariant.{eq_of_test}

module _ {R : Type 0} where
  -- The outcome that the holder has written.
  pub written : Stage R → Option R
  written running = none
  written (fetched r) = some r
  written (removed r) = some r
  written (closed r) = some r

  -- A step leaves each outcome as it was, or is the fetch that writes it.
  abbrev Writes : Action R → ℕ → Flight R → Flight R → Type 0
  Writes a i s t =
      (r : R)
      → written (t.flights i).stage ≡ some r
      → (written (s.flights i).stage ≡ some r) ⊎ (fetches i r ≡ a)

  same_stage :
      (a : Action R) (i id : ℕ) (x : Stage R) (s : Flight R)
      → written x ≡ written (s.flights id).stage
      → Writes a i s (set_stage id x s)
  unfolding set_stage
  same_stage a i id x s same r w = elim (Bool-cases (i == id)) [
    | inl e ↦
        inl (ap (λ j. written (s.flights j).stage) (eq_of_test i id e) ∙ sym same ∙ simp e at w)
    | inr e ↦ inl (simp e at w)
  ]

  kept : (a : Action R) (i : ℕ) (s t : Flight R) → t.flights ≡ s.flights → Writes a i s t
  kept a i s t same r w = inl (ap (λ f. written (f i).stage) (sym same) ∙ w)

  enter-Writes :
      (a : Action R) (i c : ℕ) (key : String) (x : Waiter R) (s : Flight R)
      → Writes a i s (enter key c x s)
  unfolding enter join set_waiter written
  enter-Writes a i c key idle s = of (lookup key s.calls)
    where
      of : (o : Option ℕ) → Writes a i s (join key c o s)
      of (some id) r w = inl w
      of none r w = elim (Bool-cases (i == s.next)) [
        | inl e ↦ absurd (none-ne-some r (simp e at w))
        | inr e ↦ inl (simp e at w)
      ]
  enter-Writes a i c key (waiting id) s = λ r w. inl w
  enter-Writes a i c key (got id q) s = λ r w. inl w
  enter-Writes a i c key (left id) s = λ r w. inl w

  fetch-Writes :
      (i id : ℕ) (q : R) (x : Stage R) (s : Flight R) → Writes (fetches id q) i s (fetch id q x s)
  unfolding fetch
  fetch-Writes i id q running s r w =
      unfold set_stage written in
      (elim (Bool-cases (i == id)) [
        | inl e ↦
            let same = some-injective q r (simp e at w) in
            inr (λ t. fetches (eq_of_test i id e t) (sym same t))
        | inr e ↦ inl (simp e at w)
      ])
  fetch-Writes i id q (fetched p) s r w = inl w
  fetch-Writes i id q (removed p) s r w = inl w
  fetch-Writes i id q (closed p) s r w = inl w

  remove-Writes :
      (a : Action R) (i id : ℕ) (x : Stage R) (s : Flight R)
      → (s.flights id).stage ≡ x
      → Writes a i s (remove id x s)
  unfolding remove written
  remove-Writes a i id (fetched q) s at r w =
      same_stage a i id (removed q) s (sym (ap written at)) r w
  remove-Writes a i id running s at r w = inl w
  remove-Writes a i id (removed p) s at r w = inl w
  remove-Writes a i id (closed p) s at r w = inl w

  close-Writes :
      (a : Action R) (i id : ℕ) (x : Stage R) (s : Flight R)
      → (s.flights id).stage ≡ x
      → Writes a i s (close id x s)
  unfolding close written
  close-Writes a i id (removed q) s at r w =
      same_stage a i id (closed q) s (sym (ap written at)) r w
  close-Writes a i id running s at r w = inl w
  close-Writes a i id (fetched p) s at r w = inl w
  close-Writes a i id (closed p) s at r w = inl w

  receive-flights : (c : ℕ) (x : Waiter R) (s : Flight R) → (receive c x s).flights ≡ s.flights
  unfolding receive wake set_waiter
  receive-flights c (waiting id) s = go (s.flights id).stage
    where
      go : (x : Stage R) → (wake c id x s).flights ≡ s.flights
      go (closed r) = refl
      go running = refl
      go (fetched r) = refl
      go (removed r) = refl
  receive-flights c idle s = refl
  receive-flights c (got id r) s = refl
  receive-flights c (left id) s = refl

  leave-flights : (c : ℕ) (x : Waiter R) (s : Flight R) → (leave c x s).flights ≡ s.flights
  unfolding leave set_waiter
  leave-flights c (waiting id) s = refl
  leave-flights c idle s = refl
  leave-flights c (got id r) s = refl
  leave-flights c (left id) s = refl

  made-Writes :
      (a : Action R) (i id : ℕ) (s t : Flight R)
      → Writes a i s t
      → Writes a i s (if ltb id s.next then t else s)
  made-Writes a i id s t writes r w = elim (Bool-cases (ltb id s.next)) [
    | inl e ↦ writes r (simp e at w)
    | inr e ↦ inl (simp e at w)
  ]

  step-Writes : (a : Action R) (i : ℕ) (s : Flight R) → Writes a i s (step a s)
  unfolding step
  step-Writes (enters key c) i s = enter-Writes (enters key c) i c key (s.waiters c) s
  step-Writes (fetches id q) i s =
      made-Writes (fetches id q) i id s (fetch id q (s.flights id).stage s)
        (fetch-Writes i id q (s.flights id).stage s)
  step-Writes (removes id) i s =
      made-Writes (removes id) i id s (remove id (s.flights id).stage s)
        (remove-Writes (removes id) i id (s.flights id).stage s refl)
  step-Writes (closes id) i s =
      made-Writes (closes id) i id s (close id (s.flights id).stage s)
        (close-Writes (closes id) i id (s.flights id).stage s refl)
  step-Writes (receives c) i s =
      kept (receives c) i s (receive c (s.waiters c) s) (receive-flights c (s.waiters c) s)
  step-Writes (leaves c) i s =
      kept (leaves c) i s (leave c (s.waiters c) s) (leave-flights c (s.waiters c) s)

  -- The outcome of a flight was its own before the run, or a fetch of its holder in the run gave it.
  run-Writes :
      (s : Flight R) (actions : List (Action R)) (i : ℕ) (r : R)
      → written ((run s actions).flights i).stage ≡ some r
      → (written (s.flights i).stage ≡ some r) ⊎ Memᴰ (fetches i r) actions
  unfolding run
  run-Writes s [] i r w = inl w
  run-Writes s (a ∷ actions) i r w = elim (run-Writes (step a s) actions i r w) [
    | inr later ↦ inr (Memᴰ.tail later)
    | inl now ↦ elim (step-Writes a i s r now) [
      | inl before ↦ inl before
      | inr here ↦ inr (Memᴰ.head here)
    ]
  ]

  pub new_flight-Writes :
      (actions : List (Action R)) (i : ℕ) (r : R)
      → ((run new_flight actions).flights i).stage ≡ closed r
      → Memᴰ (fetches i r) actions
  unfolding new_flight written
  new_flight-Writes actions i r done = elim (run-Writes new_flight actions i r (ap written done)) [
    | inr there ↦ there
    | inl never ↦ absurd (none-ne-some r never)
  ]
