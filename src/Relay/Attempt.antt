-- ===== src/Relay/Attempt.antt =====
-- internal/relay/executor.go: one attempt of the retry loop, from the choice of its upstream to the
-- outcome that the breaker hears. Metrics are left out.
pub mod Heads
pub mod Balance
pub mod Trail
mod Tests
use breakwater.Base.{
  ℕ, ◌+◌, ◌-◌, Bool, true, false, not, ◌&&◌, ◌||◌, List, [], ◌∷◌, Option, none, some, String,
  lookup, length, ltb, str_eq, if◌then◌else◌,
}
use breakwater.Circuit.Types.{Outcome, success, slow}
use breakwater.Retry.Policy.{Policy}
use breakwater.Retry.Classifier.{Failure, strip_retry_after}
use breakwater.Relay.Plan.{target}
use breakwater.Relay.Request.{
  Outside, Bulkhead, Breaker, Executor, Job, RequestRun, trace, is_client_fault, plain_failure,
}
use breakwater.Relay.Exchange.{Exchanged, or_nil, credential_alive, exchange}

abbrev pub is_some : Option Failure → Bool
is_some none = false
is_some (some f) = true

module _ {W P : Type 0} (e : Executor W P) (o : Outside W) (job : Job W) where
  -- The state after an attempt and its error.
  abbrev pub Attempted : Type 0
  Attempted = (W × RequestRun) × Option Failure

  -- `credentialRotates`.
  credential_rotates : String → W → RequestRun → Bool
  credential_rotates cand w r =
      let burned = or_nil (lookup cand r.excluded) in
      ltb 0 (length burned) && ltb (length burned) (credential_alive (o.alive_credentials w cand))

  -- The target of an attempt, kept as the request's own.
  pub aim : ℕ → W → RequestRun → (W × RequestRun) × (String × String)
  aim attempt w r =
      let (w', p, chosen) = target job.resolve attempt r.plan w in
      ((w', record r { plan = p }), chosen)

  -- A healthy attempt that answered too slowly.
  reclassify : Outcome → ℕ → Outcome
  reclassify success responsiveness =
      if ltb 0 e.slow_call_threshold && ltb e.slow_call_threshold responsiveness
      then slow
      else success
  reclassify outcome responsiveness = outcome

  observe : Option (W → String → ℕ → Bool → W) → String → ℕ → Bool → W → W
  observe none cand latency failed w = w
  observe (some f) cand latency failed w = f w cand latency failed

  is_failed : Option Failure → W → Bool
  is_failed none w = false
  is_failed (some f) w = not (is_client_fault o w f.canceled)

  -- The look-ahead for a failure's hint: it stays only for the same credential of the same upstream.
  look_ahead : ℕ → String → Failure → W → RequestRun → Attempted
  unfolding aim credential_rotates
  look_ahead attempt cand f w r =
      let ((w', r'), next) = aim (attempt + 1) w r in
      let moves = not (str_eq (next.0) cand) || credential_rotates cand w' r' in
      if not f.committed && ltb attempt (e.policy).max_attempts
      then ((w', r'), some (if moves then strip_retry_after f else f))
      else ((w, r), some f)

  -- What the attempt does about the exchange's error.
  settle : ℕ → String → Option Failure → W → RequestRun → Attempted
  unfolding look_ahead
  settle attempt cand none w r = ((w, record r { served_by = cand }), none)
  settle attempt cand (some f) w r = look_ahead attempt cand f w r

  -- The exchange of an admitted attempt, its observation and the report by `report`.
  pub perform : (W → Outcome → W) → ℕ → String → String → W → RequestRun → Attempted
  unfolding reclassify observe is_failed settle
  perform report attempt cand model w r =
      let started = o.now w in
      let begun = record r { started_at = started; responsiveness = 0 } in
      let ((w1, r1), outcome, failed) = exchange e o job cand model w begun in
      let verdict = reclassify outcome r1.responsiveness in
      let w2 = observe (e.observer) cand (o.now w1 - started) (is_failed failed w1) w1 in
      settle attempt cand failed (report w2 verdict) r1

  -- A candidate that the bulkhead or the breaker refuses.
  refuse : Failure → String → W → RequestRun → Attempted
  refuse f cand w r = ((w, trace cand none 0 r), some f)

  abbrev pub circuit_open_failure : Failure
  circuit_open_failure = record plain_failure { circuit_open = true }

  abbrev pub saturated_failure : Failure
  saturated_failure = record plain_failure { saturated = true }

  granted : Breaker W P → Option P → ℕ → String → String → W → RequestRun → Attempted
  unfolding perform refuse
  granted b none attempt cand model w r = refuse circuit_open_failure cand w r
  granted b (some perm) attempt cand model w r =
      perform (λ w' outcome. b.report w' perm outcome) attempt cand model w r

  -- The breaker is asked only after the slot is taken.
  pub guarded : Option (Breaker W P) → ℕ → String → String → W → RequestRun → Attempted
  unfolding granted perform
  guarded none attempt cand model w r = perform (λ w' outcome. w') attempt cand model w r
  guarded (some b) attempt cand model w r =
      let (w', perm) = b.allow w cand in granted b perm attempt cand model w' r

  -- The slot returns when the attempt ends, however it ends.
  slotted : Option (Bulkhead W) → ℕ → String → String → W → RequestRun → Attempted
  unfolding guarded refuse
  slotted none attempt cand model w r = guarded (e.breaker) attempt cand model w r
  slotted (some b) attempt cand model w r =
      let (w1, admitted) = b.acquire w cand e.bulkhead_max in
      let ((w2, r2), failed) = guarded (e.breaker) attempt cand model w1 r in
      if admitted then ((b.release w2 cand, r2), failed) else refuse saturated_failure cand w1 r

  -- `attempt`.
  pub run_attempt : ℕ → W → RequestRun → Attempted
  unfolding aim slotted
  run_attempt attempt w r =
      let counted = record r {
        attempts = attempt;
        retries = if ltb 1 attempt then attempt - 1 else r.retries;
      } in
      let ((w', r'), chosen) = aim attempt w counted in
      slotted (e.bulkhead) attempt (chosen.0) (chosen.1) w'
        (record r' { last_cand = some (chosen.0) })
