-- ===== src/Retry/Loop.antt =====
-- internal/retry/loop.go: the attempt loop of one client request.
pub mod Bounds
pub mod Slots
pub mod Invariant
mod Tests
use breakwater.Base.{
  ℕ, zero, suc, ◌+◌, ◌-◌, Bool, true, false, not, ◌&&◌, ◌||◌, List, [], ◌∷◌, Option, none, some,
  ltb, leb, ◌==◌, if◌then◌else◌,
}
use breakwater.Retry.Budget.{Budget, acquire, release}
use breakwater.Retry.Policy.{Policy, max_attempts_of, backoff_delay, jittered_hint}
use breakwater.Retry.Classifier.{Failure}
use breakwater.Retry.Classifier

-- `context.Canceled` or `context.DeadlineExceeded`.
pub data ContextError : Type 0 where
  canceled deadline_exceeded : ContextError

-- The final error: the attempt's own, or the attempt's wrapped by what ended the request.
pub data LoopError : Type 0 where
  plain : Failure → LoopError
  budget_exhausted : Failure → LoopError
  ended : ContextError → Failure → LoopError

pub record RetryRules : Type 0 where
  pub retryable : Failure → Bool
  pub delay_hint : Failure → ℕ

abbrev pub default_rules : RetryRules
default_rules = record { retryable = Classifier.retryable; delay_hint = Classifier.delay_hint }

-- What the loop shares with the rest of the process: the budget, when there is one, and the rest.
pub record Shared (W : Type 0) : Type 0 where
  pub budget : Option Budget
  pub world : W

-- The attempt function, the overall context, the clock, the random source and the traffic. Any of
-- them may change what is shared, since other requests run meanwhile.
pub record Env (W : Type 0) : Type 0 where
  pub attempt : ℕ → Shared W → Shared W × Option Failure
  pub overall_err : Shared W → Option ContextError
  pub timer : ℕ → Shared W → Shared W × Option ContextError
  pub draw : Shared W → ℕ → ℕ
  pub total_in_flight : W → ℕ

-- What a run does: an attempt, or the `onRetry` hook with the delay before the next one.
pub data Event : Type 0 where
  attempted : ℕ → Event
  retried : ℕ → Failure → ℕ → Event

pub record Finish (W : Type 0) : Type 0 where
  pub error : Option LoopError
  pub shared : Shared W
  pub log : List Event

-- What becomes of a failed attempt: the final error, or another attempt after the given delay.
pub data Next : Type 0 where
  stop : LoopError → Next
  again : ℕ → Next

module _ {W : Type 0} (env : Env W) (rules : RetryRules) (policy : Policy) where
  take_slot : Option Budget → Shared W → Shared W × Bool
  take_slot none s = (s, true)
  take_slot (some b) s =
      let (taken, fits) = acquire b (env.total_in_flight s.world) in
      (record s { budget = some taken }, fits)

  give_back : Option Budget → Shared W → Shared W
  give_back none s = s
  give_back (some b) s = record s { budget = some (release b) }

  -- The first attempt needs no slot.
  enter_attempt : ℕ → Shared W → Shared W × Bool
  unfolding take_slot
  enter_attempt attempt s = if ltb 1 attempt then take_slot s.budget s else (s, true)

  -- One attempt, and the release that is deferred past it.
  run_attempt : ℕ → Shared W → Shared W × Option Failure
  unfolding give_back
  run_attempt attempt s =
      let (t, failed) = env.attempt attempt s in
      (if ltb 1 attempt then give_back t.budget t else t, failed)

  sleep : ℕ → Shared W → Shared W × Option ContextError
  sleep d s = if leb d 0 then (s, env.overall_err s) else env.timer d s

  delay_after : Shared W → ℕ → Failure → ℕ
  delay_after s attempt f =
      if ltb 0 (rules.delay_hint f)
      then jittered_hint (env.draw s) (rules.delay_hint f)
      else backoff_delay (env.draw s) policy attempt

  judge_open : Shared W → ℕ → Failure → Option ContextError → Next
  judge_open s attempt f (some c) = stop (ended c f)
  judge_open s attempt f none =
      if leb (max_attempts_of policy) attempt || not (rules.retryable f)
      then stop (plain f)
      else again (delay_after s attempt f)

  judge : Shared W → ℕ → Failure → Next
  unfolding judge_open
  judge s attempt f =
      if f.committed then stop (plain f) else judge_open s attempt f (env.overall_err s)

  exhausted : Option Failure → Option LoopError
  exhausted none = none
  exhausted (some f) = some (budget_exhausted f)

  finish : Option LoopError → Shared W → List Event → Option (Finish W)
  finish e s log = some (record { error = e; shared = s; log = log })

  -- `last` is `lastErr`; `none` means that the fuel ran out.
  pub loop : ℕ → ℕ → Option Failure → Shared W → List Event → Option (Finish W)
  unfolding finish
  loop zero attempt last s log = none
  loop (suc fuel) attempt last s log =
      let (s1, admitted) = enter_attempt attempt s in
      let (s2, failed) = run_attempt attempt s1 in
      let log2 = attempted attempt ∷ log in
      elim admitted [
        | false ↦ finish (exhausted last) s1 log
        | true ↦ elim failed [
          | none ↦ finish none s2 log2
          | some f ↦ elim (judge s2 attempt f) [
            | stop e ↦ finish (some e) s2 log2
            | again delay ↦
                let (s3, slept) = sleep delay s2 in
                let log3 = retried attempt f delay ∷ log2 in
                elim slept [
                  | some c ↦ finish (some (ended c f)) s3 log3
                  | none ↦ loop fuel (attempt + 1) (some f) s3 log3
                ]
          ]
        ]
      ]

  -- `Execute`.
  pub execute : Shared W → Option (Finish W)
  unfolding loop
  execute s = loop (max_attempts_of policy) 1 none s []
