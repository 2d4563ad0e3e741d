-- ===== src/Retry/Loop/Bounds.antt =====
-- How far the loop goes, and what it does between two attempts.
use breakwater.Base.{
  ℕ, zero, suc, ◌+◌, ◌-◌, ◌/◌, ◌≤◌, ◌<◌, ◌≡◌, refl, subst, ◌⊎◌, inl, inr, true, false, List, [],
  ◌∷◌, Option, none, some, ltb, if◌then◌else◌, All, arith, Bool-cases, Option-cases,
}
use breakwater.Retry.Policy.{Policy, max_attempts_of, backoff_ceiling, backoff_delay, jittered_hint}
use breakwater.Retry.Classifier.{Failure}
use breakwater.Retry.Loop.{
  LoopError, ended, RetryRules, Shared, Env, Event, attempted, retried, Finish, Next, stop, again,
  enter_attempt, run_attempt, sleep, delay_after, judge, finish, loop, execute,
}

abbrev pub attempts : List Event → ℕ
attempts [] = 0
attempts (attempted n ∷ log) = suc (attempts log)
attempts (retried n f d ∷ log) = attempts log

module _ (rules : RetryRules) (policy : Policy) where
  -- A wait: the upstream's hint up to half as long again, or a draw under the backoff ceiling.
  abbrev pub IsWait : ℕ → Failure → ℕ → Type 0
  IsWait n f d =
      if ltb 0 (rules.delay_hint f)
      then (rules.delay_hint f ≤ d) × (d ≤ rules.delay_hint f + rules.delay_hint f / 2)
      else d ≤ backoff_ceiling policy n

  -- An attempt within the cap; a retry that the rules allow, of a failure that reached no client.
  abbrev pub IsLegal : Event → Type 0
  IsLegal (attempted n) = (1 ≤ n) × (n ≤ max_attempts_of policy)
  IsLegal (retried n f d) =
      (n < max_attempts_of policy)
      × (rules.retryable f ≡ true)
      × (f.committed ≡ false)
      × IsWait n f d

pub Next-cases : (x : Next) → ((e : LoopError) × (x ≡ stop e)) ⊎ ((d : ℕ) × (x ≡ again d))
Next-cases (stop e) = inl (e, refl)
Next-cases (again d) = inr (d, refl)

pub max_attempts-pos : (p : Policy) → 1 ≤ max_attempts_of p
unfolding max_attempts_of
max_attempts-pos p = ground arith

module _ {W : Type 0} (env : Env W) (rules : RetryRules) (policy : Policy)
    (drawn : (s : Shared W) (k : ℕ) → 0 < k → env.draw s k < k) where
  wait_lem :
      (s : Shared W) (n : ℕ) (f : Failure)
      → IsWait rules policy n f (delay_after env rules policy s n f)
  unfolding delay_after backoff_delay jittered_hint
  wait_lem s n f = elim (Bool-cases (ltb 0 (rules.delay_hint f))) [
    | inl h ↦ rw h (ground (arith, drawn s (rules.delay_hint f / 2)))
    | inr h ↦ rw h (ground (arith, drawn s (backoff_ceiling policy n)))
  ]

  judged :
      (s : Shared W) (n : ℕ) (f : Failure) (d : ℕ)
      → judge env rules policy s n f ≡ again d
      → (n < max_attempts_of policy)
        × (rules.retryable f ≡ true)
        × (f.committed ≡ false)
        × (delay_after env rules policy s n f ≡ d)
  unfolding judge
  judged s n f d h = ground arith

  judge_again :
      (s : Shared W) (n : ℕ) (f : Failure) (d : ℕ)
      → judge env rules policy s n f ≡ again d
      → IsLegal rules policy (retried n f d)
  judge_again s n f d h =
      let j = judged s n f d h in
      (j.0, j.1, j.2, subst (IsWait rules policy n f) j.3 (wait_lem s n f))

  abbrev Ends : Option (Finish W) → Type 0
  Ends r =
      (x : Finish W) × (r ≡ some x)
      × All (IsLegal rules policy) x.log
      × (attempts x.log ≤ max_attempts_of policy)

  finish-Ends :
      (e : Option LoopError) (s : Shared W) (log : List Event)
      → All (IsLegal rules policy) log
      → attempts log ≤ max_attempts_of policy
      → Ends (finish env rules policy e s log)
  unfolding finish
  finish-Ends e s log legal count = (_, refl, legal, count)

  -- One round, given what the rounds after it do.
  round-Ends :
      (fuel n : ℕ) (last : Option Failure) (s : Shared W) (log : List Event)
      → n + 1 ≤ max_attempts_of policy
      → All (IsLegal rules policy) log
      → attempts log ≡ n
      → ((f : Failure) (d : ℕ) (t : Shared W)
          → IsLegal rules policy (retried (n + 1) f d)
          → Ends (
              loop env rules policy fuel
                (n + 1 + 1)
                (some f)
                t
                (retried (n + 1) f d ∷ attempted (n + 1) ∷ log)))
      → Ends (loop env rules policy (suc fuel) (n + 1) last s log)
  unfolding loop
  round-Ends fuel n last s log room legal count next =
      let (s1, admitted) = enter_attempt env rules policy (n + 1) s in
      let (s2, failed) = run_attempt env rules policy (n + 1) s1 in
      elim (Bool-cases admitted) [
        | inr e ↦ rw (e, loop) (finish-Ends _ s1 log legal (omega arith))
        | inl e ↦
            rw (e, loop)
              (elim (Option-cases failed) [
                | inl g ↦
                    rw (g, loop)
                      (finish-Ends none s2 _ ((omega arith, omega arith), legal) (omega arith))
                | inr (f, g) ↦
                    rw (g, loop)
                      (elim (Next-cases (judge env rules policy s2 (n + 1) f)) [
                        | inl (x, j) ↦
                            rw (j, loop)
                              (finish-Ends (some x) s2 _ ((omega arith, omega arith), legal)
                                (omega arith))
                        | inr (d, j) ↦
                            let lawful = judge_again s2 (n + 1) f d j in
                            rw (j, loop)
                              (elim (Option-cases (sleep env rules policy d s2).1) [
                                | inl w ↦ rw (w, loop) (next f d _ lawful)
                                | inr (c, w) ↦
                                    rw (w, loop)
                                      (finish-Ends (some (ended c f)) _ _
                                        (lawful, ((omega arith, omega arith), legal)) (omega arith))
                              ])
                      ])
              ])
      ]

  loop-Ends :
      (fuel n : ℕ) (last : Option Failure) (s : Shared W) (log : List Event)
      → n + 1 + fuel ≡ max_attempts_of policy
      → All (IsLegal rules policy) log
      → attempts log ≡ n
      → Ends (loop env rules policy (suc fuel) (n + 1) last s log)
  loop-Ends zero n last s log room legal count =
      round-Ends zero n last s log (omega arith) legal count
        λ f d t lawful. absurd (omega (arith, lawful.0))
  loop-Ends (suc fuel) n last s log room legal count =
      round-Ends (suc fuel) n last s log (omega arith) legal count λ f d t lawful.
        loop-Ends fuel (n + 1) (some f) t _ (omega arith)
          (lawful, ((omega arith, omega arith), legal)) (omega arith)

  -- With draws below their bounds, the loop always returns: never out of fuel, after at most as many
  -- attempts as the policy allows. Each retry in its log follows an attempt below that cap, whose
  -- failure the rules call retryable and had sent no byte to the client, and waits for the upstream's
  -- hint up to half as long again or, with no hint, at most the backoff ceiling of that attempt.
  pub execute_bounded :
      (s : Shared W)
      → (x : Finish W) × (execute env rules policy s ≡ some x)
        × All (IsLegal rules policy) x.log
        × (attempts x.log ≤ max_attempts_of policy)
  unfolding execute
  execute_bounded s =
      let e : suc (max_attempts_of policy - 1) ≡ max_attempts_of policy =
        omega (arith, max_attempts-pos policy) in
      subst (λ k. Ends (loop env rules policy k 1 none s [])) e
        (loop-Ends (max_attempts_of policy - 1) 0 none s [] (omega (arith, max_attempts-pos policy))
          tt refl)
