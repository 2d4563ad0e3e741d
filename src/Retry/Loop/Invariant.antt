-- ===== src/Retry/Loop/Invariant.antt =====
-- What holds of the world before each attempt, and what an attempt leaves, carried through the loop.
use breakwater.Base.{
  ℕ, zero, suc, ◌+◌, ◌≤◌, ◌<◌, ◌≡◌, refl, sym, subst, not, ◌||◌, leb, inl, inr, false, List, [],
  Option, none, some, arith, Bool-cases, Option-cases,
}
use breakwater.Retry.Policy.{Policy, max_attempts_of}
use breakwater.Retry.Classifier.{Failure}
use breakwater.Retry.Loop.{
  ContextError, LoopError, plain, budget_exhausted, ended, RetryRules, Shared, Env, Event, Finish,
  Next, stop, again, enter_attempt, take_slot, give_back, run_attempt, sleep, judge, judge_open,
  exhausted, finish, loop, execute,
}
use breakwater.Retry.Loop.Bounds.{Next-cases, max_attempts-pos}

module _ {W : Type 0} (env : Env W) (rules : RetryRules) (policy : Policy) (Before : ℕ → W → Type 0)
    (After : ℕ → Option Failure → W → Type 0)
    (attempt_lem : (n : ℕ) (s : Shared W)
      → Before n s.world
      → After (n + 1) (env.attempt (n + 1) s).1 (env.attempt (n + 1) s).0.world)
    (again_lem : (n : ℕ) (f : Failure) (w : W)
      → f.committed ≡ false
      → After n (some f) w
      → Before n w)
    (timer_lem : (n d : ℕ) (s : Shared W)
      → Before n s.world
      → Before n (env.timer d s).0.world) where
  -- What a run of some attempts ends with: as the last one left it, or as another one would have
  -- found it.
  abbrev pub Ended : ℕ → Option LoopError → W → Type 0
  Ended n none w = After n none w
  Ended n (some (plain f)) w = After n (some f) w
  Ended n (some (budget_exhausted f)) w = Before n w × (f.committed ≡ false)
  Ended n (some (ended c f)) w = Before n w × (f.committed ≡ false)

  abbrev Holds : Option (Finish W) → Type 0
  Holds none = Unit {0}
  Holds (some x) = (n : ℕ) × (n ≤ max_attempts_of policy) × Ended n x.error x.shared.world

  -- Only the first attempt follows none.
  abbrev Follows : ℕ → Option Failure → Type 0
  Follows n none = n ≡ 0
  Follows n (some f) = f.committed ≡ false

  world-enter : (n : ℕ) (s : Shared W) → (enter_attempt env rules policy n s).0.world ≡ s.world
  unfolding enter_attempt take_slot
  world-enter n s = ground arith

  world-run :
      (n : ℕ) (s : Shared W)
      → (run_attempt env rules policy n s).0.world ≡ (env.attempt n s).0.world
  unfolding run_attempt give_back
  world-run n s = ground arith

  denied-Ended :
      (n : ℕ) (last : Option Failure) (s : Shared W) (w : W)
      → Follows n last
      → (enter_attempt env rules policy (n + 1) s).1 ≡ false
      → Before n w
      → Ended n (exhausted env rules policy last) w
  unfolding exhausted enter_attempt
  denied-Ended n none s w h e b = absurd (ground (arith, h, e))
  denied-Ended n (some f) s w h e b = (b, h)

  run-After :
      (n : ℕ) (s : Shared W)
      → Before n s.world
      → After (n + 1) (run_attempt env rules policy (n + 1) s).1 (env.attempt (n + 1) s).0.world
  unfolding run_attempt
  run-After n s b = attempt_lem n s b

  again-open :
      (n : ℕ) (s : Shared W) (f : Failure) (d : ℕ)
      → judge env rules policy s n f ≡ again d
      → (n < max_attempts_of policy) × (f.committed ≡ false)
  unfolding judge judge_open
  again-open n s f d j = (ground arith, ground arith)

  Stopped : ℕ → Next → Shared W → Type 0
  Stopped n (stop e) s = Ended n (some e) s.world
  Stopped n (again d) s = Unit {0}

  judge_open-Stopped :
      (n : ℕ) (s : Shared W) (f : Failure) (c : Option ContextError)
      → f.committed ≡ false
      → After n (some f) s.world
      → Stopped n (judge_open env rules policy s n f c) s
  unfolding judge_open Stopped
  judge_open-Stopped n s f (some c) uncommitted a =
      (again_lem n f s.world uncommitted a, uncommitted)
  judge_open-Stopped n s f none uncommitted a =
      elim (Bool-cases (leb (max_attempts_of policy) n || not (rules.retryable f))) [
        | inl e ↦ rw e a
        | inr e ↦ rw e tt
      ]

  judge-Stopped :
      (n : ℕ) (s : Shared W) (f : Failure)
      → After n (some f) s.world
      → Stopped n (judge env rules policy s n f) s
  unfolding judge
  judge-Stopped n s f a = elim (Bool-cases f.committed) [
    | inl e ↦ simp e (unfold Stopped in a)
    | inr e ↦ simp e (judge_open-Stopped n s f (env.overall_err s) e a)
  ]

  sleep-Before :
      (n d : ℕ) (s : Shared W) → Before n s.world → Before n (sleep env rules policy d s).0.world
  unfolding sleep
  sleep-Before n d s b = elim (Bool-cases (leb d 0)) [
    | inl e ↦ rw e b
    | inr e ↦ rw e (timer_lem n d s b)
  ]

  loop-Holds :
      (fuel n : ℕ) (last : Option Failure) (s : Shared W) (log : List Event)
      → n < max_attempts_of policy
      → Follows n last
      → Before n s.world
      → Holds (loop env rules policy fuel (n + 1) last s log)
  unfolding loop finish
  loop-Holds zero n last s log room h b = tt
  loop-Holds (suc fuel) n last s log room h b =
      let (s1, admitted) = enter_attempt env rules policy (n + 1) s in
      let (s2, failed) = run_attempt env rules policy (n + 1) s1 in
      let b1 : Before n s1.world = subst (Before n) (sym (world-enter (n + 1) s)) b in
      let a2 : After (n + 1) failed s2.world =
        subst (After (n + 1) failed) (sym (world-run (n + 1) s1)) (run-After n s1 b1) in
      let made : n + 1 ≤ max_attempts_of policy = omega (arith, room) in
      elim (Bool-cases admitted) [
        | inr e ↦ rw (e, loop) (n, omega (arith, room), denied-Ended n last s s1.world h e b1)
        | inl e ↦
            rw (e, loop)
              (elim (Option-cases failed) [
                | inl g ↦ rw (g, loop) (n + 1, made, subst (λ x. After (n + 1) x s2.world) g a2)
                | inr (f, g) ↦
                    let a : After (n + 1) (some f) s2.world =
                      subst (λ x. After (n + 1) x s2.world) g a2 in
                    let judged = judge-Stopped (n + 1) s2 f a in
                    rw (g, loop)
                      (elim (Next-cases (judge env rules policy s2 (n + 1) f)) [
                        | inl (x, j) ↦
                            rw (j, loop)
                              (
                                n + 1,
                                made,
                                unfold Stopped in subst (λ v. Stopped (n + 1) v s2) j judged,
                              )
                        | inr (d, j) ↦
                            let (next, uncommitted) = again-open (n + 1) s2 f d j in
                            let slept =
                              sleep-Before (n + 1) d s2
                                (again_lem (n + 1) f s2.world uncommitted a) in
                            rw (j, loop)
                              (elim (Option-cases (sleep env rules policy d s2).1) [
                                | inl w ↦
                                    rw (w, loop)
                                      (loop-Holds fuel (n + 1) (some f) _ _ next uncommitted slept)
                                | inr (c, w) ↦ rw (w, loop) (n + 1, made, (slept, uncommitted))
                              ])
                      ])
              ])
      ]

  pub execute-Ended :
      (s : Shared W) (x : Finish W)
      → Before 0 s.world
      → execute env rules policy s ≡ some x
      → (n : ℕ) × (n ≤ max_attempts_of policy) × Ended n x.error x.shared.world
  unfolding execute
  execute-Ended s x b h = subst Holds h (
      loop-Holds (max_attempts_of policy) 0 none s [] (omega (arith, max_attempts-pos policy)) refl
        b)
