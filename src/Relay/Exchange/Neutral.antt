-- ===== src/Relay/Exchange/Neutral.antt =====
-- internal/relay/exchange.go: what an exchange leaves as it is of the state outside.
use breakwater.Base.{
  ℕ, ◌≡◌, refl, ◌∙◌, inl, inr, Bool, true, false, Option, none, some, String, Result, ok, err,
  arith, Bool-cases, Option-cases, List,
}
use breakwater.Relay.Fatal.{fatal_upstream_reason}
use breakwater.Relay.Request.{
  Body, Fault, Response, UpstreamRequest, Outside, Executor, Job, RequestRun, Snapshot,
}
use breakwater.Retry.Classifier.{StatusError}
use breakwater.Relay.Exchange.{
  is_ok, call_fatal_hook, file_exchange, stash_upstream_error, lose_body, deliver,
  exchange_buffered, end_stream, exchange_stream, refuse_stream, fail_forward, accept_stream,
  after_forward, exchange,
}

-- A measure of the state outside that the parts of an attempt leave, all but the bulkhead and the
-- breaker.
pub record Neutral {W P : Type 0} (e : Executor W P) (o : Outside W) (job : Job W) (m : W → ℕ)
    : Type 0 where
  pub by_forward : (w : W) (id : String) (q : UpstreamRequest) → m (o.forward w id q).0 ≡ m w
  pub by_pump : (w : W) (id : String) (resp : Response) → m (o.pump w id resp).0 ≡ m w
  pub by_hook :
      (f : W → String → Option ℕ → String → W)
      → e.fatal_hook ≡ some f
      → (w : W) (id : String) (c : Option ℕ) (reason : String) → m (f w id c reason) ≡ m w
  pub by_observer :
      (f : W → String → ℕ → Bool → W)
      → e.observer ≡ some f
      → (w : W) (id : String) (latency : ℕ) (failed : Bool) → m (f w id latency failed) ≡ m w
  pub by_resolver :
      (f : W → String → W × Option (List String))
      → job.resolve ≡ some f
      → (w : W) (model : String) → m (f w model).0 ≡ m w

module _ {W P : Type 0} (e : Executor W P) (o : Outside W) (job : Job W) (m : W → ℕ)
    (neutral : Neutral e o job m) where
  m-hook :
      (w : W) (id : String) (c : Option ℕ) (reason : Option String)
      → m (call_fatal_hook e o job w id c reason) ≡ m w
  unfolding call_fatal_hook
  m-hook w id c none = refl
  m-hook w id c (some reason) = elim (Option-cases e.fatal_hook) [
    | inl h ↦ rw (h, call_fatal_hook) refl
    | inr (f, h) ↦ rw (h, call_fatal_hook) (neutral.by_hook f h w id c reason)
  ]

  m-file :
      (rotates retryable : Bool) (w : W) (snap : Snapshot) (se : StatusError) (r : RequestRun)
      → m (file_exchange e o job rotates retryable w snap se r).0.0 ≡ m w
  unfolding file_exchange
  m-file true retryable w snap se r = refl
  m-file false true w snap se r = refl
  m-file false false w snap se r = refl

  m-stash :
      (cand : String) (resp : Response) (body : Body) (w : W) (r : RequestRun)
      → m (stash_upstream_error e o job cand resp body w r).0.0 ≡ m w
  unfolding stash_upstream_error
  m-stash cand resp body w r =
      m-file _ _ _ _ _ _
      ∙ m-hook w cand resp.credential_index (fatal_upstream_reason resp.status_code body)

  m-buffered :
      (cand : String) (resp : Response) (b : Result Fault Body) (w : W) (r : RequestRun)
      → m (exchange_buffered e o job cand resp b w r).0.0 ≡ m w
  unfolding exchange_buffered lose_body deliver
  m-buffered cand resp (err f) w r = refl
  m-buffered cand resp (ok body) w r = elim (Bool-cases (is_ok resp.status_code)) [
    | inl c ↦ simp c refl
    | inr c ↦ simp c (m-stash cand resp body w r)
  ]

  m-end : (f : Option Fault) (w : W) (r : RequestRun) → m (end_stream e o job f w r).0.0 ≡ m w
  unfolding end_stream
  m-end none w r = refl
  m-end (some f) w r = elim (Bool-cases (o.client_gone w)) [
    | inl c ↦ simp c refl
    | inr c ↦ simp c refl
  ]

  m-accept :
      (cand : String) (resp : Response) (w : W) (r : RequestRun)
      → m (accept_stream e o job cand resp w r).0.0 ≡ m w
  unfolding accept_stream exchange_stream
  m-accept cand resp w r = elim (Bool-cases (is_ok resp.status_code)) [
    | inr c ↦ simp c (refused resp.body)
    | inl c ↦ elim (Bool-cases (o.ttft_fired w)) [
      | inl d ↦ simp (c, d) refl
      | inr d ↦ simp (c, d) (m-end (o.pump w cand resp).1.error _ _ ∙ neutral.by_pump w cand resp)
    ]
  ]
    where
      refused : (b : Result Fault Body) → m (refuse_stream e o job cand resp b w r).0.0 ≡ m w
      refused (err f) = unfold refuse_stream lose_body in refl
      refused (ok body) = unfold refuse_stream in m-stash cand resp body w r

  m-fail :
      (cand : String) (f : Fault) (w : W) (r : RequestRun)
      → m (fail_forward e o job cand f w r).0.0 ≡ m w
  unfolding fail_forward
  m-fail cand f w r = ground arith

  pub m-exchange :
      (cand model : String) (w : W) (r : RequestRun) → m (exchange e o job cand model w r).0.0 ≡ m w
  unfolding exchange
  m-exchange cand model w r =
      after (o.forward w cand _).1 (o.forward w cand _).0 ∙ neutral.by_forward w cand _
    where
      after :
          (a : Result Fault Response) (w' : W) → m (after_forward e o job cand a w' r).0.0 ≡ m w'
      after (err f) w' = unfold after_forward in m-fail cand f w' r
      after (ok resp) w' = elim (Bool-cases job.stream) [
        | inl s ↦ unfold after_forward in simp s (m-accept cand resp w' r)
        | inr s ↦ unfold after_forward in simp s (m-buffered cand resp resp.body w' r)
      ]
