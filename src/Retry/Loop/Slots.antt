-- ===== src/Retry/Loop/Slots.antt =====
-- A request returns every slot of the retry budget that it takes.
use breakwater.Base.{
  ℕ, zero, suc, ◌+◌, ◌<◌, ◌≡◌, refl, subst, ◌∙◌, inl, inr, true, false, List, [], Option, none,
  some, arith, Bool-cases, Option-cases,
}
use breakwater.Retry.Budget.{Budget, acquire, release}
use breakwater.Retry.Policy.{Policy, max_attempts_of}
use breakwater.Retry.Classifier.{Failure}
use breakwater.Retry.Loop.{
  RetryRules, Shared, Env, Event, Finish, enter_attempt, run_attempt, sleep, judge, finish, loop,
  execute,
}
use breakwater.Retry.Loop.Bounds.{Next-cases, execute_bounded}

-- The slots in use; none without a budget.
abbrev pub slots : Option Budget → ℕ
slots none = 0
slots (some b) = b.in_flight

module _ {W : Type 0} (env : Env W) (rules : RetryRules) (policy : Policy)
    (attempt_keeps : (n : ℕ) (s : Shared W) → (env.attempt n s).0.budget ≡ s.budget)
    (timer_keeps : (d : ℕ) (s : Shared W) → (env.timer d s).0.budget ≡ s.budget) where
  -- An admitted attempt holds one slot from its second on, and gives it back.
  round_slots :
      (n : ℕ) (s : Shared W)
      → (enter_attempt env rules policy n s).1 ≡ true
      → slots (run_attempt env rules policy n (enter_attempt env rules policy n s).0).0.budget
        ≡ slots s.budget
  unfolding enter_attempt run_attempt acquire release
  round_slots n s h = ground (arith, h, attempt_keeps n (enter_attempt env rules policy n s).0)

  denied_slots :
      (n : ℕ) (s : Shared W)
      → (enter_attempt env rules policy n s).1 ≡ false
      → slots (enter_attempt env rules policy n s).0.budget ≡ slots s.budget
  unfolding enter_attempt acquire
  denied_slots n s h = ground (arith, h)

  slots-sleep :
      (d : ℕ) (s : Shared W) → slots (sleep env rules policy d s).0.budget ≡ slots s.budget
  unfolding sleep
  slots-sleep d s = ground (arith, timer_keeps d s)

  abbrev Returns : ℕ → Option (Finish W) → Type 0
  Returns k none = Unit {0}
  Returns k (some x) = slots x.shared.budget ≡ k

  loop-Returns :
      (fuel n : ℕ) (last : Option Failure) (s : Shared W) (log : List Event) (k : ℕ)
      → slots s.budget ≡ k
      → Returns k (loop env rules policy fuel n last s log)
  unfolding loop finish
  loop-Returns zero n last s log k h = tt
  loop-Returns (suc fuel) n last s log k h =
      let (s1, admitted) = enter_attempt env rules policy n s in
      let (s2, failed) = run_attempt env rules policy n s1 in
      elim (Bool-cases admitted) [
        | inr e ↦ rw (e, loop) (denied_slots n s e ∙ h)
        | inl e ↦
            let held : slots s2.budget ≡ k = round_slots n s e ∙ h in
            rw (e, loop)
              (elim (Option-cases failed) [
                | inl g ↦ rw (g, loop) held
                | inr (f, g) ↦
                    rw (g, loop)
                      (elim (Next-cases (judge env rules policy s2 n f)) [
                        | inl (x, j) ↦ rw (j, loop) held
                        | inr (d, j) ↦
                            let slept : slots (sleep env rules policy d s2).0.budget ≡ k =
                              slots-sleep d s2 ∙ held in
                            rw (j, loop)
                              (elim (Option-cases (sleep env rules policy d s2).1) [
                                | inl w ↦
                                    rw (w, loop) (loop-Returns fuel (n + 1) (some f) _ _ k slept)
                                | inr (c, w) ↦ rw (w, loop) slept
                              ])
                      ])
              ])
      ]

  -- When nobody else takes or returns a slot meanwhile and draws lie below their bounds, a request
  -- ends, with the policy's number of attempts as fuel, and leaves the budget with exactly the slots
  -- in use that it found, on every way out: success, a denied retry, a committed or terminal failure,
  -- the end of the overall context, a spent attempt cap.
  pub execute-slots :
      ((s : Shared W) (k : ℕ) → 0 < k → env.draw s k < k)
      → (s : Shared W)
      → (x : Finish W) × (execute env rules policy s ≡ some x)
        × (slots x.shared.budget ≡ slots s.budget)
  execute-slots drawn s =
      let (x, ran, legal, count) = execute_bounded env rules policy drawn s in
      (
        x,
        ran,
        subst (Returns (slots s.budget)) ran (
            unfold execute in
            loop-Returns (max_attempts_of policy) 1 none s [] (slots s.budget) refl),
      )
