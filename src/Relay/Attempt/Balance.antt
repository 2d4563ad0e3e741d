-- ===== src/Relay/Attempt/Balance.antt =====
-- internal/relay/executor.go: what an attempt takes from the bulkhead and the breaker, it gives back.
use breakwater.Base.{
  ℕ, ◌+◌, ◌-◌, ◌≡◌, refl, ap, ◌∙◌, inl, inr, Bool, ◌&&◌, not, Option, none, some, String, ltb,
  if◌then◌else◌, arith, Bool-cases, Option-cases,
}
use breakwater.Circuit.Types.{Outcome}
use breakwater.Retry.Classifier.{Failure}
use breakwater.Relay.Request.{Breaker, Bulkhead, Outside, Executor, Job, RequestRun}
use breakwater.Relay.Exchange.{exchange}
use breakwater.Relay.Exchange.Neutral.{Neutral, m-exchange}
use breakwater.Relay.Plan.Neutral.{m-target}
use breakwater.Relay.Attempt.{
  aim, observe, look_ahead, settle, perform, refuse, granted, guarded, slotted, run_attempt,
}

-- What the counts of held slots and of unreported permits do under the operations of the bulkhead.
pub record BulkheadCounts {W : Type 0} (b : Bulkhead W) (slots permits : W → ℕ) : Type 0 where
  pub acquired :
      (w : W) (id : String) (limit : ℕ)
      → slots (b.acquire w id limit).0 ≡ slots w + (if (b.acquire w id limit).1 then 1 else 0)
  pub released : (w : W) (id : String) → slots (b.release w id) ≡ slots w - 1
  pub no_permit :
      (w : W) (id : String) (limit : ℕ)
      → (permits (b.acquire w id limit).0 ≡ permits w) × (permits (b.release w id) ≡ permits w)

abbrev pub one_if : {P : Type 0} → Option P → ℕ
one_if none = 0
one_if (some p) = 1

-- The same under those of the breaker.
pub record BreakerCounts {W P : Type 0} (b : Breaker W P) (slots permits : W → ℕ) : Type 0 where
  pub allowed :
      (w : W) (id : String) → permits (b.allow w id).0 ≡ permits w + one_if (b.allow w id).1
  pub reported :
      (w : W) (p : P) (outcome : Outcome) → permits (b.report w p outcome) ≡ permits w - 1
  pub allowed_slot : (w : W) (id : String) → slots (b.allow w id).0 ≡ slots w
  pub reported_slot : (w : W) (p : P) (outcome : Outcome) → slots (b.report w p outcome) ≡ slots w

module _ {W P : Type 0} (e : Executor W P) (o : Outside W) (job : Job W) where
  module _ (m : W → ℕ) (neutral : Neutral e o job m) where
    m-aim : (n : ℕ) (w : W) (r : RequestRun) → m (aim e o job n w r).0.0 ≡ m w
    unfolding aim
    m-aim n w r = m-target m job.resolve neutral.by_resolver n r.plan w

    m-observe :
        (id : String) (latency : ℕ) (failed : Bool) (w : W)
        → m (observe e o job e.observer id latency failed w) ≡ m w
    unfolding observe
    m-observe id latency failed w = elim (Option-cases e.observer) [
      | inl h ↦ rw (h, observe) refl
      | inr (f, h) ↦ rw (h, observe) (neutral.by_observer f h w id latency failed)
    ]

    m-settle :
        (n : ℕ) (cand : String) (f : Option Failure) (w : W) (r : RequestRun)
        → m (settle e o job n cand f w r).0.0 ≡ m w
    unfolding settle look_ahead
    m-settle n cand none w r = refl
    m-settle n cand (some f) w r =
        elim (Bool-cases (not f.committed && ltb n e.policy.max_attempts)) [
          | inl c ↦ simp c (m-aim (n + 1) w r)
          | inr c ↦ simp c refl
        ]

    m-perform :
        (report : W → Outcome → W) (g : ℕ → ℕ)
        → ((w : W) (outcome : Outcome) → m (report w outcome) ≡ g (m w))
        → (n : ℕ) (cand model : String) (w : W) (r : RequestRun)
        → m (perform e o job report n cand model w r).0.0 ≡ g (m w)
    unfolding perform
    m-perform report g reports n cand model w r =
        let begun = record r { started_at = o.now w; responsiveness = 0 } in
        let x = exchange e o job cand model w begun in
        m-settle n cand _ _ _
        ∙ reports _ _
        ∙ ap g (m-observe cand _ _ x.0.0 ∙ m-exchange e o job m neutral cand model w begun)

  module _ (slots permits : W → ℕ) (no_slot : Neutral e o job slots)
      (no_permit : Neutral e o job permits)
      (gate : (b : Bulkhead W) → e.bulkhead ≡ some b → BulkheadCounts b slots permits)
      (breaker : (b : Breaker W P) → e.breaker ≡ some b → BreakerCounts b slots permits) where
    -- What balance means of a state after an attempt that started at another.
    abbrev Balanced : W → W → Type 0
    Balanced w v = (slots v ≡ slots w) × (permits v ≡ permits w)

    -- The permit that the breaker grants is reported; a refusal grants none.
    granted-Balanced :
        (b : Breaker W P) (counts : BreakerCounts b slots permits) (perm : Option P) (n : ℕ)
        (cand model : String) (w v : W) (r : RequestRun)
        → slots v ≡ slots w
        → permits v ≡ permits w + one_if perm
        → Balanced w (granted e o job b perm n cand model v r).0.0
    unfolding granted refuse
    granted-Balanced b counts none n cand model w v r h k = (h, omega (arith, k))
    granted-Balanced b counts (some p) n cand model w v r h k =
        let report : W → Outcome → W = λ w' outcome. b.report w' p outcome in
        (
          m-perform slots no_slot report (λ a. a) (λ w' outcome. counts.reported_slot w' p outcome)
                n cand model v r
              ∙ h,
          m-perform permits no_permit report (λ a. a - 1)
                (λ w' outcome. counts.reported w' p outcome) n cand model v r
              ∙ omega (arith, k),
        )

    guarded-Balanced :
        (n : ℕ) (cand model : String) (w : W) (r : RequestRun)
        → Balanced w (guarded e o job e.breaker n cand model w r).0.0
    guarded-Balanced n cand model w r = of e.breaker refl
      where
        of :
            (b : Option (Breaker W P))
            → e.breaker ≡ b
            → Balanced w (guarded e o job b n cand model w r).0.0
        of none h =
            unfold guarded in
            (
              m-perform slots no_slot (λ w' outcome. w') (λ a. a) (λ w' outcome. refl) n cand model
                  w r,
              m-perform permits no_permit (λ w' outcome. w') (λ a. a) (λ w' outcome. refl) n cand
                  model w r,
            )
        of (some b) h =
            let counts = breaker b h in
            unfold guarded in
            granted-Balanced b counts (b.allow w cand).1 n cand model w (b.allow w cand).0 r
              (counts.allowed_slot w cand) (counts.allowed w cand)

    -- A slot that the bulkhead grants is returned; a refusal takes none.
    held-Balanced :
        (b : Bulkhead W) (counts : BulkheadCounts b slots permits) (n : ℕ) (cand model : String)
        (w : W) (r : RequestRun)
        → Balanced w (slotted e o job (some b) n cand model w r).0.0
    unfolding slotted refuse
    held-Balanced b counts n cand model w r =
        let taken = b.acquire w cand e.bulkhead_max in
        let kept = guarded-Balanced n cand model taken.0 r in
        let v = (guarded e o job e.breaker n cand model taken.0 r).0.0 in
        let count = counts.acquired w cand e.bulkhead_max in
        let same = counts.no_permit w cand e.bulkhead_max in
        elim (Bool-cases taken.1) [
          | inl c ↦ simp c (
            ground (arith, c, count, kept.0, counts.released v cand),
            (counts.no_permit v cand e.bulkhead_max).1 ∙ kept.1 ∙ same.0,
          )
          | inr c ↦ simp c (ground (arith, c, count), same.0)
        ]

    slotted-Balanced :
        (n : ℕ) (cand model : String) (w : W) (r : RequestRun)
        → Balanced w (slotted e o job e.bulkhead n cand model w r).0.0
    slotted-Balanced n cand model w r = of e.bulkhead refl
      where
        of :
            (b : Option (Bulkhead W))
            → e.bulkhead ≡ b
            → Balanced w (slotted e o job b n cand model w r).0.0
        of none h = unfold slotted in guarded-Balanced n cand model w r
        of (some b) h = held-Balanced b (gate b h) n cand model w r

    -- However an attempt ends - refused by the bulkhead or by the breaker, answered, failed, committed
    -- - it returns the bulkhead slot that it took and reports the breaker's permit that it was granted,
    -- each once: the counts of both are what they were. The adapters, hooks and the resolver are
    -- assumed to touch neither count.
    pub run_attempt-balanced :
        (n : ℕ) (w : W) (r : RequestRun)
        → (slots (run_attempt e o job n w r).0.0 ≡ slots w)
          × (permits (run_attempt e o job n w r).0.0 ≡ permits w)
    unfolding run_attempt
    run_attempt-balanced n w r =
        let counted = record r { attempts = n; retries = if ltb 1 n then n - 1 else r.retries } in
        let x = aim e o job n w counted in
        let kept = slotted-Balanced n x.1.0 x.1.1 x.0.0 (record x.0.1 { last_cand = some x.1.0 }) in
        (kept.0 ∙ m-aim slots no_slot n w counted, kept.1 ∙ m-aim permits no_permit n w counted)
