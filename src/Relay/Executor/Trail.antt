-- ===== src/Relay/Executor/Trail.antt =====
-- internal/relay/executor.go: the attempts that a result reports and its access trail.
use breakwater.Base.{
  ℕ, ◌+◌, ◌≤◌, ◌<◌, ◌≡◌, refl, ap, subst, inl, inr, false, List, [], ◌∷◌, Option, none, some,
  String, length, arith, Bool-cases, Option-cases,
}
use breakwater.Retry.Policy.{max_attempts_of}
use breakwater.Retry.Classifier.{Failure}
use breakwater.Retry.Loop.{LoopError, plain, budget_exhausted, ended, Shared, Finish}
use breakwater.Retry.Loop
use breakwater.Retry.Loop.Invariant.{Ended, execute-Ended}
use breakwater.Relay.Request.{Snapshot, Outside, Executor, Job, RequestRun, new_run}
use breakwater.Relay.Attempt.Trail.{run_attempt-Traced}
use breakwater.Relay.Executor.{
  Report, failure_in, is_exhausted, render_gateway_error, render_passthrough, passthrough,
  report_of, rendered, finish_failed, finish_delivered, finish_error, finish, run_classifier,
  loop_env, finish_run, execute_on, execute,
}
use breakwater.Relay.Executor.Once.{execute_once}

-- A result's attempts and trail are the run's.
abbrev Tells : RequestRun → Report → Type 0
Tells r rep = (rep.attempts ≡ r.attempts) × (rep.trail ≡ r.trail)

failed-Tells : (r : RequestRun) (le : LoopError) → Tells r (finish_failed r le)
unfolding finish_failed render_gateway_error render_passthrough report_of rendered
failed-Tells r le =
    let f = failure_in le in
    elim (Bool-cases f.circuit_open) [
      | inl a ↦ simp a (refl, refl)
      | inr a ↦ elim (Bool-cases f.saturated) [
        | inl b ↦ simp (a, b) (refl, refl)
        | inr b ↦ elim (Bool-cases (is_exhausted le)) [
          | inl c ↦ simp (a, b, c) (refl, refl)
          | inr c ↦ elim (Option-cases (passthrough r f)) [
            | inl d ↦ rw (d, finish_failed) (simp (a, b, c) (refl, refl))
            | inr (s, d) ↦ rw (d, finish_failed) (simp (a, b, c) (refl, refl))
          ]
        ]
      ]
    ]

module _ {W P : Type 0} (e : Executor W P) (o : Outside W) (job : Job W) where
  error-Tells : (w : W) (r : RequestRun) (le : LoopError) → Tells r (finish_error e o job w r le)
  unfolding finish_error report_of render_passthrough rendered
  error-Tells w r le = elim (Bool-cases (failure_in le).committed) [
    | inl a ↦ simp a (refl, refl)
    | inr a ↦ elim (Bool-cases (o.client_gone w)) [
      | inl b ↦ simp (a, b) (refl, refl)
      | inr b ↦ elim (Option-cases r.terminal) [
        | inl t ↦ rw (t, finish_error) (simp (a, b) (failed-Tells r le))
        | inr (s, t) ↦ rw (t, finish_error) (simp (a, b) (refl, refl))
      ]
    ]
  ]

  abbrev IfTells : RequestRun → Option Report → Type 0
  IfTells r none = Unit {0}
  IfTells r (some rep) = Tells r rep

  delivered-Tells :
      (r : RequestRun) (s : Option Snapshot) → IfTells r (finish_delivered e o job r s)
  unfolding finish_delivered report_of rendered
  delivered-Tells r none = tt
  delivered-Tells r (some s) = (refl, refl)

  finish-Tells : (w : W) (r : RequestRun) (x : Option LoopError) → IfTells r (finish e o job w r x)
  unfolding finish report_of
  finish-Tells w r (some le) = error-Tells w r le
  finish-Tells w r none = elim (Bool-cases job.stream) [
    | inl a ↦ simp a (refl, refl)
    | inr a ↦ simp a (delivered-Tells r r.delivered)
  ]

  -- After some attempts: as many are counted, and as many traced; of a stream as many at most.
  abbrev Counted : ℕ → RequestRun → Type 0
  Counted n r = (r.attempts ≡ n) × (length r.trail ≤ n) × (job.stream ≡ false → length r.trail ≡ n)

  abbrev Before : ℕ → W × RequestRun → Type 0
  Before n x = Counted n x.1

  abbrev After : ℕ → Option Failure → W × RequestRun → Type 0
  After n f x = Counted n x.1

  attempt-After :
      (n : ℕ) (s : Shared (W × RequestRun))
      → Before n s.world
      → After
          (n + 1)
          ((loop_env e o job).attempt (n + 1) s).1
          ((loop_env e o job).attempt (n + 1) s).0.world
  unfolding loop_env
  attempt-After n s b =
      let t = run_attempt-Traced e o job (n + 1) s.world.0 s.world.1 in
      (t.0, omega (arith, b.1, t.1), λ buffered. omega (arith, t.2 buffered, b.2 buffered))

  timer-Before :
      (n d : ℕ) (s : Shared (W × RequestRun))
      → Before n s.world
      → Before n ((loop_env e o job).timer d s).0.world
  unfolding loop_env
  timer-Before n d s b = b

  loop-Counted :
      (s : Shared (W × RequestRun)) (x : Finish (W × RequestRun))
      → Before 0 s.world
      → Loop.execute (loop_env e o job) (run_classifier e o job) e.policy s ≡ some x
      → (n : ℕ) × (n ≤ max_attempts_of e.policy) × Counted n x.shared.world.1
  loop-Counted s x b ran =
      let ends =
        execute-Ended (loop_env e o job) (run_classifier e o job) e.policy Before After
          attempt-After (λ n f w c a. a) timer-Before s x b ran in
      (ends.0, ends.1, of ends.0 x.error ends.2)
    where
      of :
          (n : ℕ) (err : Option LoopError)
          → Ended
              (loop_env e o job)
              (run_classifier e o job)
              e.policy
              Before
              After
              attempt-After
              (λ n f w c a. a)
              timer-Before
              n
              err
              x.shared.world
          → Counted n x.shared.world.1
      of n none l = l
      of n (some (plain f)) l = l
      of n (some (budget_exhausted f)) l = l.0
      of n (some (ended c f)) l = l.0

  abbrev Fine : Report → Type 0
  Fine rep =
      (rep.attempts ≤ max_attempts_of e.policy)
      × (length rep.trail ≤ rep.attempts)
      × (job.stream ≡ false → length rep.trail ≡ rep.attempts)

  abbrev IfFine : Option Report → Type 0
  IfFine none = Unit {0}
  IfFine (some rep) = Fine rep

  told-Fine :
      (n : ℕ) (r : RequestRun) (x : Option Report)
      → n ≤ max_attempts_of e.policy
      → Counted n r
      → IfTells r x
      → IfFine x
  told-Fine n r none room c t = tt
  told-Fine n r (some rep) room c t =
      let size : length rep.trail ≡ length r.trail = ap length t.1 in
      (
        omega (arith, room, c.0, t.0),
        omega (arith, size, c.0, c.1, t.0),
        λ b. omega (arith, size, c.2 b, c.0, t.0),
      )

  execute_on-Fine : (cs : List String) (s : Shared W) → IfFine (execute_on e o job cs s)
  unfolding execute_on finish_run
  execute_on-Fine [] s =
      unfold render_gateway_error report_of rendered new_run in
      (omega arith, omega arith, λ b. refl)
  execute_on-Fine (c ∷ cs) s =
      let start : Shared (W × RequestRun) = record {
        budget = s.budget;
        world = (s.world, new_run job);
      } in
      let ran = Loop.execute (loop_env e o job) (run_classifier e o job) e.policy start in
      elim (Option-cases ran) [
        | inl h ↦ rw (h, finish_run) tt
        | inr (x, h) ↦
            let counted =
              loop-Counted start x (unfold new_run in (refl, omega arith, λ b. refl)) h in
            rw (h, finish_run)
              (told-Fine counted.0 x.shared.world.1 _ counted.1 counted.2
                (finish-Tells x.shared.world.0 x.shared.world.1 x.error))
      ]

  -- The result that every request ends with counts at most as many attempts as the policy allows.
  -- For a buffered request its access trail has exactly one entry for each attempt; for a stream it
  -- has at most one for each.
  pub execute-trail :
      ((w : W) (k : ℕ) → 0 < k → o.draw w k < k)
      → (s : Shared W)
      → (rep : Report) × (execute e o job s ≡ some rep)
        × ((rep.attempts ≤ max_attempts_of e.policy)
            × (length rep.trail ≤ rep.attempts)
            × (job.stream ≡ false → length rep.trail ≡ rep.attempts))
  unfolding execute
  execute-trail drawn s =
      let done = execute_once e o job drawn s in
      (done.0, done.1, subst IfFine done.1 (execute_on-Fine job.candidates s))
