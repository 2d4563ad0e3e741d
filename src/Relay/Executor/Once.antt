-- ===== src/Relay/Executor/Once.antt =====
-- internal/relay/executor.go: the one reply of a request.
use breakwater.Base.{
  ℕ, suc, ◌+◌, ◌≤◌, ◌<◌, ◌≡◌, refl, inl, inr, false, List, [], ◌∷◌, Option, none, some, String,
  if◌then◌else◌, arith, Bool-cases, Option-cases,
}
use breakwater.Retry.Classifier.{Failure}
use breakwater.Retry.Loop.{LoopError, plain, budget_exhausted, ended, Shared, Finish}
use breakwater.Retry.Loop
use breakwater.Retry.Loop.Bounds.{execute_bounded}
use breakwater.Retry.Loop.Invariant.{Ended, execute-Ended}
use breakwater.Relay.Request.{Outside, Executor, Job, RequestRun, new_run}
use breakwater.Relay.Exchange.Heads.{heads, Leaves}
use breakwater.Relay.Attempt.Heads.{run_attempt-Leaves}
use breakwater.Relay.Executor.{
  Report, failure_in, is_exhausted, render_gateway_error, render_passthrough, passthrough,
  report_of, rendered, finish_failed, finish_delivered, finish_error, finish, run_classifier,
  loop_env, finish_run, execute_on, execute,
}

-- One reply, or none when the client is gone.
abbrev pub OneReply : Report → Type 0
OneReply rep = (heads rep.written ≤ 1) × (rep.client_gone ≡ false → heads rep.written ≡ 1)

once :
    (r : RequestRun)
    → heads r.out ≡ 0
    → (suc (heads r.out) ≤ 1) × (false ≡ false → suc (heads r.out) ≡ 1)
once r h = (omega (arith, h), λ _. omega (arith, h))

failed-OneReply :
    (r : RequestRun) (le : LoopError) → heads r.out ≡ 0 → OneReply (finish_failed r le)
unfolding finish_failed render_gateway_error render_passthrough report_of rendered
failed-OneReply r le h =
    let f = failure_in le in
    elim (Bool-cases f.circuit_open) [
      | inl a ↦ simp a (once r h)
      | inr a ↦ elim (Bool-cases f.saturated) [
        | inl b ↦ simp (a, b) (once r h)
        | inr b ↦ elim (Bool-cases (is_exhausted le)) [
          | inl c ↦ simp (a, b, c) (once r h)
          | inr c ↦ elim (Option-cases (passthrough r f)) [
            | inl d ↦ rw (d, finish_failed) (simp (a, b, c) (once r h))
            | inr (s, d) ↦ rw (d, finish_failed) (simp (a, b, c) (once r h))
          ]
        ]
      ]
    ]

module _ {W P : Type 0} (e : Executor W P) (o : Outside W) (job : Job W) where
  -- What the loop leaves, by its error.
  abbrev Left : Option LoopError → RequestRun → Type 0
  Left none r = Leaves job.stream none r
  Left (some le) r = heads r.out ≡ (if (failure_in le).committed then 1 else 0)

  error-OneReply :
      (w : W) (r : RequestRun) (le : LoopError)
      → Left (some le) r
      → OneReply (finish_error e o job w r le)
  unfolding finish_error report_of render_passthrough rendered
  error-OneReply w r le h =
      let f = failure_in le in
      elim (Bool-cases f.committed) [
        | inl a ↦
            let one : heads r.out ≡ 1 = ground (arith, h, a) in
            simp a (omega (arith, one), λ _. one)
        | inr a ↦
            let nothing : heads r.out ≡ 0 = ground (arith, h, a) in
            elim (Bool-cases (o.client_gone w)) [
              | inl b ↦ simp (a, b) (omega (arith, nothing), λ g. absurd (ground (arith, g)))
              | inr b ↦ elim (Option-cases r.terminal) [
                | inl t ↦ rw (t, finish_error) (simp (a, b) (failed-OneReply r le nothing))
                | inr (s, t) ↦ rw (t, finish_error) (simp (a, b) (once r nothing))
              ]
            ]
      ]

  finish-OneReply :
      (w : W) (r : RequestRun) (x : Option LoopError)
      → Left x r
      → (rep : Report) × (finish e o job w r x ≡ some rep) × OneReply rep
  unfolding finish finish_delivered report_of rendered
  finish-OneReply w r (some le) h = (_, refl, error-OneReply w r le h)
  finish-OneReply w r none h = elim (Bool-cases job.stream) [
    | inl a ↦
        let one : heads r.out ≡ 1 = ground (arith, h.0, a) in
        simp a (_, refl, (omega (arith, one), λ _. one))
    | inr a ↦ elim (Option-cases r.delivered) [
      | inl d ↦ absurd (ground (arith, h.1, a, d))
      | inr (s, d) ↦ simp (a, d) (_, refl, once r (ground (arith, h.0, a)))
    ]
  ]

  abbrev Nothing : ℕ → W × RequestRun → Type 0
  Nothing n x = heads x.1.out ≡ 0

  abbrev Leaving : ℕ → Option Failure → W × RequestRun → Type 0
  Leaving n f x = Leaves job.stream f x.1

  attempt-Leaving :
      (n : ℕ) (s : Shared (W × RequestRun))
      → Nothing n s.world
      → Leaving
          (n + 1)
          ((loop_env e o job).attempt (n + 1) s).1
          ((loop_env e o job).attempt (n + 1) s).0.world
  unfolding loop_env
  attempt-Leaving n s h = run_attempt-Leaves e o job (n + 1) s.world.0 s.world.1 h

  again-Nothing :
      (n : ℕ) (f : Failure) (x : W × RequestRun)
      → f.committed ≡ false
      → Leaving n (some f) x
      → Nothing n x
  again-Nothing n f x c a = ground (arith, c, a)

  timer-Nothing :
      (n d : ℕ) (s : Shared (W × RequestRun))
      → Nothing n s.world
      → Nothing n ((loop_env e o job).timer d s).0.world
  unfolding loop_env
  timer-Nothing n d s h = h

  loop-Left :
      (s : Shared (W × RequestRun)) (x : Finish (W × RequestRun))
      → Nothing 0 s.world
      → Loop.execute (loop_env e o job) (run_classifier e o job) e.policy s ≡ some x
      → Left x.error x.shared.world.1
  loop-Left s x h ran =
      let left =
        execute-Ended (loop_env e o job) (run_classifier e o job) e.policy Nothing Leaving
          attempt-Leaving again-Nothing timer-Nothing s x h ran in
      of left.0 x.error left.2
    where
      of :
          (n : ℕ) (err : Option LoopError)
          → Ended
              (loop_env e o job)
              (run_classifier e o job)
              e.policy
              Nothing
              Leaving
              attempt-Leaving
              again-Nothing
              timer-Nothing
              n
              err
              x.shared.world
          → Left err x.shared.world.1
      of n none l = l
      of n (some (plain f)) l = l
      of n (some (budget_exhausted f)) l = ground (arith, l.0, l.1)
      of n (some (ended c f)) l = ground (arith, l.0, l.1)

  -- A request always ends with a result, and sends exactly one reply: a stream's head, a rendered
  -- reply or passthrough, or a gateway error; when the client is gone, at most one. This holds for
  -- any adapters, breaker, bulkhead, resolver and timers, if the random source draws within bounds.
  pub execute_once :
      ((w : W) (k : ℕ) → 0 < k → o.draw w k < k)
      → (s : Shared W)
      → (rep : Report) × (execute e o job s ≡ some rep)
        × ((heads rep.written ≤ 1) × (rep.client_gone ≡ false → heads rep.written ≡ 1))
  execute_once drawn s = unfold execute in go job.candidates
    where
      go : (cs : List String) → (rep : Report) × (execute_on e o job cs s ≡ some rep) × OneReply rep
      go [] =
          unfold execute_on render_gateway_error report_of rendered new_run in
          (_, refl, once (new_run job) refl)
      go (c ∷ cs) =
          let start : Shared (W × RequestRun) = record {
            budget = s.budget;
            world = (s.world, new_run job);
          } in
          let run =
            execute_bounded (loop_env e o job) (run_classifier e o job) e.policy drawn_here start in
          let left = loop-Left start run.0 (unfold new_run in refl) run.1 in
          let x = run.0 in
          let done = finish-OneReply x.shared.world.0 x.shared.world.1 x.error left in
          (done.0, unfold execute_on finish_run in rw (run.1, finish_run) (done.1), done.2)
        where
          drawn_here :
              (s' : Shared (W × RequestRun)) (k : ℕ) → 0 < k → (loop_env e o job).draw s' k < k
          drawn_here s' k h = unfold loop_env in drawn s'.world.0 k h
