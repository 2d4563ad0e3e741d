-- ===== src/Relay/Attempt/Trail.antt =====
-- internal/relay/executor.go: the trace that an attempt leaves in the access trail.
use breakwater.Base.{
  ℕ, suc, ◌≤◌, ◌≡◌, inl, inr, false, ◌&&◌, not, Option, none, some, String, length, ltb, Bool-cases,
}
use breakwater.Circuit.Types.{Outcome}
use breakwater.Retry.Classifier.{Failure}
use breakwater.Relay.Request.{Breaker, Bulkhead, Outside, Executor, Job, RequestRun}
use breakwater.Relay.Exchange.Trail.{Traced, trace-Traced, exchange-Traced}
use breakwater.Relay.Attempt.{
  Attempted, aim, look_ahead, settle, perform, refuse, granted, guarded, slotted, run_attempt,
}

module _ {W P : Type 0} (e : Executor W P) (o : Outside W) (job : Job W) where
  -- One more trace than a run had; of a stream one more at most.
  abbrev AttemptTraced : RequestRun → Attempted e o job → Type 0
  AttemptTraced r x = Traced job.stream r x.0.1

  settle-Traced :
      (n : ℕ) (cand : String) (f : Option Failure) (w : W) (r r' : RequestRun)
      → Traced job.stream r r'
      → AttemptTraced r (settle e o job n cand f w r')
  unfolding settle look_ahead aim
  settle-Traced n cand none w r r' t = t
  settle-Traced n cand (some f) w r r' t =
      elim (Bool-cases (not f.committed && ltb n e.policy.max_attempts)) [
        | inl c ↦ simp c t
        | inr c ↦ simp c t
      ]

  perform-Traced :
      (report : W → Outcome → W) (n : ℕ) (cand model : String) (w : W) (r : RequestRun)
      → AttemptTraced r (perform e o job report n cand model w r)
  unfolding perform
  perform-Traced report n cand model w r =
      let begun = record r { started_at = o.now w; responsiveness = 0 } in
      settle-Traced n cand _ _ r _ (exchange-Traced e o job cand model w begun)

  granted-Traced :
      (b : Breaker W P) (perm : Option P) (n : ℕ) (cand model : String) (w : W) (r : RequestRun)
      → AttemptTraced r (granted e o job b perm n cand model w r)
  unfolding granted refuse
  granted-Traced b none n cand model w r = trace-Traced job.stream cand none 0 r
  granted-Traced b (some perm) n cand model w r =
      perform-Traced (λ x. b.report x perm) n cand model w r

  guarded-Traced :
      (b : Option (Breaker W P)) (n : ℕ) (cand model : String) (w : W) (r : RequestRun)
      → AttemptTraced r (guarded e o job b n cand model w r)
  unfolding guarded
  guarded-Traced none n cand model w r = perform-Traced (λ x _. x) n cand model w r
  guarded-Traced (some b) n cand model w r = granted-Traced b _ n cand model _ r

  slotted-Traced :
      (b : Option (Bulkhead W)) (n : ℕ) (cand model : String) (w : W) (r : RequestRun)
      → AttemptTraced r (slotted e o job b n cand model w r)
  unfolding slotted refuse
  slotted-Traced none n cand model w r = guarded-Traced e.breaker n cand model w r
  slotted-Traced (some b) n cand model w r = elim (Bool-cases (b.acquire w cand e.bulkhead_max).1) [
    | inl c ↦ simp c (guarded-Traced e.breaker n cand model _ r)
    | inr c ↦ simp c (trace-Traced job.stream cand none 0 r)
  ]

  -- An attempt is counted, and leaves its trace.
  pub run_attempt-Traced :
      (n : ℕ) (w : W) (r : RequestRun)
      → let r' = (run_attempt e o job n w r).0.1 in
        (r'.attempts ≡ n)
        × (length r'.trail ≤ suc (length r.trail))
        × (job.stream ≡ false → length r'.trail ≡ suc (length r.trail))
  unfolding run_attempt aim
  run_attempt-Traced n w r = slotted-Traced e.bulkhead n _ _ _ _
