-- ===== src/Relay/Exchange/Trail.antt =====
-- internal/relay/exchange.go: the trace that an exchange leaves in the access trail.
use breakwater.Base.{
  ℕ, suc, ◌-◌, ◌≤◌, ◌≡◌, refl, ◌∙◌, inl, inr, Bool, true, false, ◌||◌, ◌==◌, List, [], ◌∷◌, Option,
  none, some, String, Result, ok, err, length, length-append, arith, Bool-cases,
}
use breakwater.Retry.Classifier.{StatusError}
use breakwater.Relay.Fatal.{fatal_upstream_reason}
use breakwater.Relay.Request.{
  Usage, Body, Fault, Response, Outside, Executor, Job, RequestRun, AttemptTrace, Snapshot, trace,
  write, stream_head,
}
use breakwater.Relay.Exchange.{
  has_reason, is_ok, keep_usage, exclude_credential, convict, file_exchange, stash_upstream_error,
  lose_body, deliver, exchange_buffered, end_stream, exchange_stream, refuse_stream, fail_forward,
  accept_stream, after_forward, exchange,
}

-- The same attempt, with one more trace; of a stream, with one more at most.
abbrev pub Traced : Bool → RequestRun → RequestRun → Type 0
Traced stream r r' =
    (r'.attempts ≡ r.attempts)
    × (length r'.trail ≤ suc (length r.trail))
    × (stream ≡ false → length r'.trail ≡ suc (length r.trail))

pub trace-Traced :
    (stream : Bool) (upstream : String) (c : Option ℕ) (status : ℕ) (r : RequestRun)
    → Traced stream r (trace upstream c status r)
unfolding trace
trace-Traced stream upstream c status r =
    let x : List AttemptTrace =
      record { upstream = upstream; credential_index = c; status = status } ∷ [] in
    let one = length-append r.trail x in (refl, omega (arith, one), λ _. omega (arith, one))

module _ {W P : Type 0} (e : Executor W P) (o : Outside W) (job : Job W) where
  convict-kept :
      (cand : String) (c : Option ℕ) (guilty : Bool) (r : RequestRun)
      → ((convict e o job cand c guilty r).attempts ≡ r.attempts)
        × ((convict e o job cand c guilty r).trail ≡ r.trail)
  unfolding convict exclude_credential
  convict-kept cand none guilty r = (refl, refl)
  convict-kept cand (some i) guilty r = (ground arith, ground arith)

  keep_usage-kept :
      (u : Option Usage) (r : RequestRun)
      → ((keep_usage u r).attempts ≡ r.attempts) × ((keep_usage u r).trail ≡ r.trail)
  unfolding keep_usage
  keep_usage-kept none r = (refl, refl)
  keep_usage-kept (some u) r = (refl, refl)

  kept-Traced :
      (stream : Bool) (r r' r'' : RequestRun)
      → Traced stream r r'
      → (r''.attempts ≡ r'.attempts) × (r''.trail ≡ r'.trail)
      → Traced stream r r''
  kept-Traced stream r r' r'' t k = (k.0 ∙ t.0, rw k.1 t.1, λ b. rw k.1 (t.2 b))

  from_kept-Traced :
      (stream : Bool) (r r' r'' : RequestRun)
      → (r'.attempts ≡ r.attempts) × (r'.trail ≡ r.trail)
      → Traced stream r' r''
      → Traced stream r r''
  from_kept-Traced stream r r' r'' k t = (t.0 ∙ k.0, rw⁻¹ k.1 t.1, λ b. rw⁻¹ k.1 (t.2 b))

  file-Traced :
      (stream rotates retryable : Bool) (w : W) (snap : Snapshot) (se : StatusError)
      (r r' : RequestRun)
      → Traced stream r r'
      → Traced stream r (file_exchange e o job rotates retryable w snap se r').0.1
  unfolding file_exchange
  file-Traced stream true retryable w snap se r r' t = t
  file-Traced stream false true w snap se r r' t = t
  file-Traced stream false false w snap se r r' t = t

  stash-Traced :
      (stream : Bool) (cand : String) (resp : Response) (body : Body) (w : W) (r : RequestRun)
      → Traced stream r (stash_upstream_error e o job cand resp body w r).0.1
  unfolding stash_upstream_error
  stash-Traced stream cand resp body w r =
      let r1 = record r { served_by = cand } in
      let r2 = trace cand resp.credential_index resp.status_code r1 in
      let guilty =
        has_reason (fatal_upstream_reason resp.status_code body) || resp.status_code == 429 in
      let r3 = convict e o job cand resp.credential_index guilty r2 in
      let t3 =
        kept-Traced stream r r2 r3
          (trace-Traced stream cand resp.credential_index resp.status_code r1)
          (convict-kept cand resp.credential_index guilty r2) in
      file-Traced stream _ _ _ _ _ r _ t3

  buffered-Traced :
      (stream : Bool) (cand : String) (resp : Response) (b : Result Fault Body) (w : W)
      (r : RequestRun)
      → Traced stream r (exchange_buffered e o job cand resp b w r).0.1
  unfolding exchange_buffered lose_body deliver
  buffered-Traced stream cand resp (err f) w r =
      trace-Traced stream cand resp.credential_index resp.status_code r
  buffered-Traced stream cand resp (ok body) w r = elim (Bool-cases (is_ok resp.status_code)) [
    | inr c ↦ simp c (stash-Traced stream cand resp body w r)
    | inl c ↦
        let kept = record r {
          delivered = some (record { status = resp.status_code; payload = body.payload });
          responsiveness = o.now w - r.started_at;
        } in
        let metered = keep_usage body.usage kept in
        simp c (
          from_kept-Traced stream r metered
            (trace cand resp.credential_index resp.status_code metered)
            (keep_usage-kept body.usage kept)
            (trace-Traced stream cand resp.credential_index resp.status_code metered))
  ]

  end-Traced :
      (stream : Bool) (f : Option Fault) (w : W) (r r' : RequestRun)
      → Traced stream r r'
      → Traced stream r (end_stream e o job f w r').0.1
  unfolding end_stream write
  end-Traced stream none w r r' t = t
  end-Traced stream (some f) w r r' t = elim (Bool-cases (o.client_gone w)) [
    | inl c ↦ simp c t
    | inr c ↦ simp c t
  ]

  stream-Traced :
      (cand : String) (resp : Response) (w : W) (r : RequestRun)
      → Traced true r (exchange_stream e o job cand resp w r).0.1
  unfolding exchange_stream write
  stream-Traced cand resp w r =
      let committed = record (write stream_head r) { streamed = true; served_by = cand } in
      let traced = trace cand resp.credential_index resp.status_code committed in
      let u = (o.pump w cand resp).1.usage in
      end-Traced true _ _ r _ (
        kept-Traced true r traced (keep_usage u traced)
          (trace-Traced true cand resp.credential_index resp.status_code committed)
          (keep_usage-kept u traced))

  -- Headers that land as the timer fires leave no trace.
  accept-Traced :
      (cand : String) (resp : Response) (w : W) (r : RequestRun)
      → Traced true r (accept_stream e o job cand resp w r).0.1
  unfolding accept_stream
  accept-Traced cand resp w r = elim (Bool-cases (is_ok resp.status_code)) [
    | inr c ↦ simp c (refused resp.body)
    | inl c ↦ elim (Bool-cases (o.ttft_fired w)) [
      | inl d ↦ simp (c, d) (refl, omega arith, λ b. absurd (ground (arith, b)))
      | inr d ↦ simp (c, d) (stream-Traced cand resp w _)
    ]
  ]
    where
      refused : (b : Result Fault Body) → Traced true r (refuse_stream e o job cand resp b w r).0.1
      refused (err f) =
          unfold refuse_stream lose_body in
          trace-Traced true cand resp.credential_index resp.status_code r
      refused (ok body) = unfold refuse_stream in stash-Traced true cand resp body w r

  fail-Traced :
      (stream : Bool) (cand : String) (f : Fault) (w : W) (r : RequestRun)
      → Traced stream r (fail_forward e o job cand f w r).0.1
  unfolding fail_forward
  fail-Traced stream cand f w r =
      let t = trace-Traced stream cand none 0 r in
      elim (Bool-cases job.stream) [
        | inr a ↦ simp a t
        | inl a ↦ elim (Bool-cases (o.ttft_fired w)) [
          | inl b ↦ simp (a, b) t
          | inr b ↦ elim (Bool-cases (o.ceiling_fired w)) [
            | inl c ↦ simp (a, b, c) t
            | inr c ↦ simp (a, b, c) t
          ]
        ]
      ]

  pub exchange-Traced :
      (cand model : String) (w : W) (r : RequestRun)
      → Traced job.stream r (exchange e o job cand model w r).0.1
  unfolding exchange
  exchange-Traced cand model w r = after (o.forward w cand _).1 (o.forward w cand _).0
    where
      after :
          (a : Result Fault Response) (w' : W)
          → Traced job.stream r (after_forward e o job cand a w' r).0.1
      after (err f) w' = unfold after_forward in fail-Traced job.stream cand f w' r
      after (ok resp) w' = elim (Bool-cases job.stream) [
        | inl s ↦ unfold after_forward in simp s (accept-Traced cand resp w' r)
        | inr s ↦ unfold after_forward in simp s (buffered-Traced false cand resp resp.body w' r)
      ]
