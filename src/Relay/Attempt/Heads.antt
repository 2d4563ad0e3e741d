-- ===== src/Relay/Attempt/Heads.antt =====
-- internal/relay/executor.go: how many replies an attempt begins towards the client.
use breakwater.Base.{
  ℕ, ◌+◌, ◌≡◌, inl, inr, ◌&&◌, not, ◌||◌, str_eq, Option, none, some, String, ltb, if◌then◌else◌,
  Bool-cases,
}
use breakwater.Circuit.Types.{Outcome}
use breakwater.Retry.Classifier.{Failure, committed-strip_retry_after}
use breakwater.Relay.Request.{Breaker, Bulkhead, Outside, Executor, Job, RequestRun, trace}
use breakwater.Relay.Exchange.Heads.{heads, Leaves, exchange-Leaves}
use breakwater.Relay.Attempt.{
  Attempted, credential_rotates, aim, look_ahead, settle, perform, refuse, granted, guarded,
  slotted, run_attempt,
}

module _ {W P : Type 0} (e : Executor W P) (o : Outside W) (job : Job W) where
  abbrev AttemptLeaves : Attempted e o job → Type 0
  AttemptLeaves x = Leaves job.stream x.1 x.0.1

  look_ahead-Leaves :
      (n : ℕ) (cand : String) (f : Failure) (w : W) (r : RequestRun)
      → heads r.out ≡ (if f.committed then 1 else 0)
      → AttemptLeaves (look_ahead e o job n cand f w r)
  unfolding look_ahead aim
  look_ahead-Leaves n cand f w r h =
      let moves =
        not (str_eq (aim e o job (n + 1) w r).1.0 cand)
        || credential_rotates e o job cand (aim e o job (n + 1) w r).0.0
            (aim e o job (n + 1) w r).0.1 in
      elim (Bool-cases (not f.committed && ltb n e.policy.max_attempts)) [
        | inr c ↦ simp c h
        | inl c ↦ elim (Bool-cases moves) [
          | inl d ↦ simp (c, d, committed-strip_retry_after f) h
          | inr d ↦ simp (c, d) h
        ]
      ]

  settle-Leaves :
      (n : ℕ) (cand : String) (f : Option Failure) (w : W) (r : RequestRun)
      → Leaves job.stream f r
      → AttemptLeaves (settle e o job n cand f w r)
  unfolding settle
  settle-Leaves n cand none w r h = h
  settle-Leaves n cand (some f) w r h = look_ahead-Leaves n cand f w r h

  perform-Leaves :
      (report : W → Outcome → W) (n : ℕ) (cand model : String) (w : W) (r : RequestRun)
      → heads r.out ≡ 0
      → AttemptLeaves (perform e o job report n cand model w r)
  unfolding perform
  perform-Leaves report n cand model w r h =
      let begun = record r { started_at = o.now w; responsiveness = 0 } in
      settle-Leaves n cand _ _ _ (exchange-Leaves e o job cand model w begun h)

  granted-Leaves :
      (b : Breaker W P) (perm : Option P) (n : ℕ) (cand model : String) (w : W) (r : RequestRun)
      → heads r.out ≡ 0
      → AttemptLeaves (granted e o job b perm n cand model w r)
  unfolding granted refuse trace
  granted-Leaves b none n cand model w r h = h
  granted-Leaves b (some perm) n cand model w r h =
      perform-Leaves (λ x. b.report x perm) n cand model w r h

  guarded-Leaves :
      (b : Option (Breaker W P)) (n : ℕ) (cand model : String) (w : W) (r : RequestRun)
      → heads r.out ≡ 0
      → AttemptLeaves (guarded e o job b n cand model w r)
  unfolding guarded
  guarded-Leaves none n cand model w r h = perform-Leaves (λ x _. x) n cand model w r h
  guarded-Leaves (some b) n cand model w r h = granted-Leaves b _ n cand model _ r h

  slotted-Leaves :
      (b : Option (Bulkhead W)) (n : ℕ) (cand model : String) (w : W) (r : RequestRun)
      → heads r.out ≡ 0
      → AttemptLeaves (slotted e o job b n cand model w r)
  unfolding slotted refuse trace
  slotted-Leaves none n cand model w r h = guarded-Leaves e.breaker n cand model w r h
  slotted-Leaves (some b) n cand model w r h =
      let admitted = (b.acquire w cand e.bulkhead_max).1 in
      elim (Bool-cases admitted) [
        | inl c ↦ simp c (guarded-Leaves e.breaker n cand model _ r h)
        | inr c ↦ simp c h
      ]

  -- An attempt that finds nothing written leaves the request as its kind owes.
  pub run_attempt-Leaves :
      (n : ℕ) (w : W) (r : RequestRun) → heads r.out ≡ 0 → AttemptLeaves (run_attempt e o job n w r)
  unfolding run_attempt aim
  run_attempt-Leaves n w r h = slotted-Leaves e.bulkhead n _ _ _ _ h
