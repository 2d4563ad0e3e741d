-- ===== src/Cache/Flight/Steps.antt =====
-- singleflight.go: every step keeps the registry consistent.
use breakwater.Base.{
  ℕ, ◌<◌, ◌≡◌, refl, sym, ap, ◌∙◌, inl, inr, Bool, true, false, List, [], ◌∷◌, Option, none, some,
  String, lookup, ltb, ltb→lt, if◌then◌else◌, arith, Bool-cases,
}
use mathlib.Core.Option.{none-ne-some}
use breakwater.Cache.Flight.{
  Stage, running, fetched, removed, closed, Waiter, idle, waiting, got, left, Flight, new_flight,
  join, enter, fetch, remove, close, wake, receive, leave, Action, enters, fetches, removes, closes,
  receives, leaves, step, run,
}
use breakwater.Cache.Flight.Invariant.{
  is_active, Knows, IsConsistent, set_waiter-IsConsistent, set_stage-IsConsistent,
  remove-IsConsistent, join-IsConsistent, false-true,
}

module _ {R : Type 0} where
  enter-IsConsistent :
      (key : String) (c : ℕ) (x : Waiter R) (s : Flight R)
      → IsConsistent s
      → IsConsistent (enter key c x s)
  unfolding enter
  enter-IsConsistent key c idle s h = of (lookup key s.calls) refl
    where
      of : (o : Option ℕ) → lookup key s.calls ≡ o → IsConsistent (join key c o s)
      of none at = join-IsConsistent key c s at h
      of (some id) at =
          unfold join in set_waiter-IsConsistent c (waiting id) s (h.registered key id at).0 h
  enter-IsConsistent key c (waiting id) s h = h
  enter-IsConsistent key c (got id r) s h = h
  enter-IsConsistent key c (left id) s h = h

  fetch-IsConsistent :
      (id : ℕ) (r : R) (x : Stage R) (s : Flight R)
      → (s.flights id).stage ≡ x
      → IsConsistent s
      → IsConsistent (fetch id r x s)
  unfolding fetch
  fetch-IsConsistent id r running s at h =
      set_stage-IsConsistent id (fetched r) s (sym (ap is_active at))
        (λ q k. false-true (ap is_active (sym k ∙ at))) h
  fetch-IsConsistent id r (fetched q) s at h = h
  fetch-IsConsistent id r (removed q) s at h = h
  fetch-IsConsistent id r (closed q) s at h = h

  removal-IsConsistent :
      (id : ℕ) (x : Stage R) (s : Flight R)
      → id < s.next
      → (s.flights id).stage ≡ x
      → IsConsistent s
      → IsConsistent (remove id x s)
  removal-IsConsistent id running s low at h = unfold remove in h
  removal-IsConsistent id (fetched q) s low at h = remove-IsConsistent id q s low at h
  removal-IsConsistent id (removed q) s low at h = unfold remove in h
  removal-IsConsistent id (closed q) s low at h = unfold remove in h

  is_closed : Stage R → Bool
  is_closed (closed r) = true
  is_closed _ = false

  close-IsConsistent :
      (id : ℕ) (x : Stage R) (s : Flight R)
      → (s.flights id).stage ≡ x
      → IsConsistent s
      → IsConsistent (close id x s)
  unfolding close is_closed
  close-IsConsistent id running s at h = h
  close-IsConsistent id (fetched q) s at h = h
  close-IsConsistent id (removed q) s at h =
      set_stage-IsConsistent id (closed q) s (sym (ap is_active at))
        (λ r k. false-true (ap is_closed (sym at ∙ k))) h
  close-IsConsistent id (closed q) s at h = h

  wake-IsConsistent :
      (c id : ℕ) (x : Stage R) (s : Flight R)
      → id < s.next
      → (s.flights id).stage ≡ x
      → IsConsistent s
      → IsConsistent (wake c id x s)
  unfolding wake
  wake-IsConsistent c id running s low at h = h
  wake-IsConsistent c id (fetched q) s low at h = h
  wake-IsConsistent c id (removed q) s low at h = h
  wake-IsConsistent c id (closed q) s low at h = set_waiter-IsConsistent c (got id q) s (low, at) h

  receive-IsConsistent :
      (c : ℕ) (x : Waiter R) (s : Flight R)
      → Knows s x
      → IsConsistent s
      → IsConsistent (receive c x s)
  unfolding receive
  receive-IsConsistent c (waiting id) s k h = wake-IsConsistent c id (s.flights id).stage s k refl h
  receive-IsConsistent c idle s k h = h
  receive-IsConsistent c (got id r) s k h = h
  receive-IsConsistent c (left id) s k h = h

  leave-IsConsistent :
      (c : ℕ) (x : Waiter R) (s : Flight R) → IsConsistent s → IsConsistent (leave c x s)
  unfolding leave
  leave-IsConsistent c (waiting id) s h = set_waiter-IsConsistent c (left id) s tt h
  leave-IsConsistent c idle s h = h
  leave-IsConsistent c (got id r) s h = h
  leave-IsConsistent c (left id) s h = h

  guarded-IsConsistent :
      (id : ℕ) (s t : Flight R)
      → IsConsistent s
      → (id < s.next → IsConsistent t)
      → IsConsistent (if ltb id s.next then t else s)
  guarded-IsConsistent id s t h k = elim (Bool-cases (ltb id s.next)) [
    | inl e ↦ simp e (k (ltb→lt id s.next e))
    | inr e ↦ simp e h
  ]

  step-IsConsistent : (a : Action R) (s : Flight R) → IsConsistent s → IsConsistent (step a s)
  unfolding step
  step-IsConsistent (enters key c) s h = enter-IsConsistent key c (s.waiters c) s h
  step-IsConsistent (fetches id r) s h =
      guarded-IsConsistent id s _ h λ low. fetch-IsConsistent id r (s.flights id).stage s refl h
  step-IsConsistent (removes id) s h =
      guarded-IsConsistent id s _ h λ low. removal-IsConsistent id (s.flights id).stage s low refl h
  step-IsConsistent (closes id) s h =
      guarded-IsConsistent id s _ h λ low. close-IsConsistent id (s.flights id).stage s refl h
  step-IsConsistent (receives c) s h = receive-IsConsistent c (s.waiters c) s (h.known c) h
  step-IsConsistent (leaves c) s h = leave-IsConsistent c (s.waiters c) s h

  pub run-IsConsistent :
      (s : Flight R) (actions : List (Action R)) → IsConsistent s → IsConsistent (run s actions)
  unfolding run
  run-IsConsistent s [] h = h
  run-IsConsistent s (a ∷ actions) h = run-IsConsistent (step a s) actions (step-IsConsistent a s h)

  pub new_flight-IsConsistent : IsConsistent (new_flight {R = R})
  unfolding new_flight lookup
  new_flight-IsConsistent = record {
    registered = λ k id at. absurd (none-ne-some id at);
    active = λ id low act. absurd (omega (arith, low));
    known = λ c. tt;
  }
