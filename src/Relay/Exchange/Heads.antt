-- ===== src/Relay/Exchange/Heads.antt =====
-- internal/relay: how many replies an attempt begins towards the client.
use breakwater.Base.{
  ℕ, suc, ◌≡◌, refl, ap, ◌==◌, inl, inr, Bool, true, false, ◌||◌, List, [], ◌∷◌, Option, none, some,
  String, Result, ok, err, if◌then◌else◌, arith, Bool-cases,
}
use breakwater.Retry.Classifier.{Failure, StatusError}
use breakwater.Relay.Fatal.{fatal_upstream_reason}
use breakwater.Relay.Request.{
  Usage, Snapshot, Written, stream_head, render_success, render_upstream_error, render_error,
  abort_frame, Body, Fault, Response, Outside, Executor, Job, RequestRun, trace, write,
}
use breakwater.Relay.Exchange.{
  Exchanged, has_reason, is_ok, exclude_credential, convict, file_exchange, stash_upstream_error,
  keep_usage, lose_body, deliver, exchange_buffered, end_stream, exchange_stream, refuse_stream,
  fail_forward, accept_stream, after_forward, exchange,
}

-- The replies that have been begun: the head of a stream, or a whole rendered reply.
abbrev pub heads : List Written → ℕ
heads [] = 0
heads (stream_head ∷ out) = suc (heads out)
heads (render_success s ∷ out) = suc (heads out)
heads (render_upstream_error s ∷ out) = suc (heads out)
heads (render_error status code ∷ out) = suc (heads out)
heads (abort_frame code ∷ out) = heads out

abbrev pub has_snapshot : Option Snapshot → Bool
has_snapshot none = false
has_snapshot (some s) = true

-- What an attempt leaves: a stream delivered with its head written, a buffered reply kept and nothing
-- written, or a failure, which is committed when a head is written.
abbrev pub Leaves : Bool → Option Failure → RequestRun → Type 0
Leaves stream none r =
    (heads r.out ≡ (if stream then 1 else 0)) × (stream || has_snapshot r.delivered ≡ true)
Leaves stream (some f) r = heads r.out ≡ (if f.committed then 1 else 0)

kept_out : (u : Option Usage) (r : RequestRun) → (keep_usage u r).out ≡ r.out
unfolding keep_usage
kept_out none r = refl
kept_out (some u) r = refl

kept_delivered : (u : Option Usage) (r : RequestRun) → (keep_usage u r).delivered ≡ r.delivered
unfolding keep_usage
kept_delivered none r = refl
kept_delivered (some u) r = refl

module _ {W P : Type 0} (e : Executor W P) (o : Outside W) (job : Job W) where
  abbrev pub ExchangeLeaves : Bool → Exchanged W → Type 0
  ExchangeLeaves stream x = Leaves stream x.2 x.0.1

  convict-out :
      (cand : String) (c : Option ℕ) (guilty : Bool) (r : RequestRun)
      → (convict e o job cand c guilty r).out ≡ r.out
  unfolding convict exclude_credential
  convict-out cand none guilty r = refl
  convict-out cand (some i) guilty r = ground arith

  file-Leaves :
      (stream rotates retryable : Bool) (w : W) (snap : Snapshot) (se : StatusError)
      (r : RequestRun)
      → heads r.out ≡ 0
      → ExchangeLeaves stream (file_exchange e o job rotates retryable w snap se r)
  unfolding file_exchange
  file-Leaves stream true retryable w snap se r h = h
  file-Leaves stream false true w snap se r h = h
  file-Leaves stream false false w snap se r h = h

  stash-Leaves :
      (stream : Bool) (cand : String) (resp : Response) (body : Body) (w : W) (r : RequestRun)
      → heads r.out ≡ 0
      → ExchangeLeaves stream (stash_upstream_error e o job cand resp body w r)
  unfolding stash_upstream_error trace
  stash-Leaves stream cand resp body w r h =
      let traced =
        trace cand resp.credential_index resp.status_code (record r { served_by = cand }) in
      let guilty =
        has_reason (fatal_upstream_reason resp.status_code body) || resp.status_code == 429 in
      file-Leaves stream _ _ _ _ _ _ (rw (convict-out cand resp.credential_index guilty traced) h)

  deliver-Leaves :
      (cand : String) (resp : Response) (body : Body) (w : W) (r : RequestRun)
      → heads r.out ≡ 0
      → ExchangeLeaves false (deliver e o job cand resp body w r)
  unfolding deliver trace
  deliver-Leaves cand resp body w r h =
      (rw (kept_out body.usage _) h, rw (kept_delivered body.usage _) refl)

  buffered-Leaves :
      (cand : String) (resp : Response) (b : Result Fault Body) (w : W) (r : RequestRun)
      → heads r.out ≡ 0
      → ExchangeLeaves false (exchange_buffered e o job cand resp b w r)
  unfolding exchange_buffered lose_body trace
  buffered-Leaves cand resp (err f) w r h = h
  buffered-Leaves cand resp (ok body) w r h = elim (Bool-cases (is_ok resp.status_code)) [
    | inl c ↦ simp c (deliver-Leaves cand resp body w r h)
    | inr c ↦ simp c (stash-Leaves false cand resp body w r h)
  ]

  end-Leaves :
      (f : Option Fault) (w : W) (r : RequestRun)
      → heads r.out ≡ 1
      → ExchangeLeaves true (end_stream e o job f w r)
  unfolding end_stream write
  end-Leaves none w r h = (h, refl)
  end-Leaves (some f) w r h = elim (Bool-cases (o.client_gone w)) [
    | inl c ↦ simp c h
    | inr c ↦ simp c h
  ]

  stream-Leaves :
      (cand : String) (resp : Response) (w : W) (r : RequestRun)
      → heads r.out ≡ 0
      → ExchangeLeaves true (exchange_stream e o job cand resp w r)
  unfolding exchange_stream trace write
  stream-Leaves cand resp w r h =
      end-Leaves _ _ _ (rw (kept_out (o.pump w cand resp).1.usage _) (ap suc h))

  accept-Leaves :
      (cand : String) (resp : Response) (w : W) (r : RequestRun)
      → heads r.out ≡ 0
      → ExchangeLeaves true (accept_stream e o job cand resp w r)
  unfolding accept_stream
  accept-Leaves cand resp w r h = elim (Bool-cases (is_ok resp.status_code)) [
    | inr c ↦ simp c (refused resp.body)
    | inl c ↦ elim (Bool-cases (o.ttft_fired w)) [
      | inl d ↦ simp (c, d) h
      | inr d ↦ simp (c, d) (stream-Leaves cand resp w _ h)
    ]
  ]
    where
      refused :
          (b : Result Fault Body) → ExchangeLeaves true (refuse_stream e o job cand resp b w r)
      refused (err f) = unfold refuse_stream lose_body trace in h
      refused (ok body) = unfold refuse_stream in stash-Leaves true cand resp body w r h

  fail-Leaves :
      (stream : Bool) (cand : String) (f : Fault) (w : W) (r : RequestRun)
      → heads r.out ≡ 0
      → ExchangeLeaves stream (fail_forward e o job cand f w r)
  unfolding fail_forward trace
  fail-Leaves stream cand f w r h = ground (arith, h)

  -- An exchange that finds nothing written leaves the request as its kind owes.
  pub exchange-Leaves :
      (cand model : String) (w : W) (r : RequestRun)
      → heads r.out ≡ 0
      → ExchangeLeaves job.stream (exchange e o job cand model w r)
  unfolding exchange
  exchange-Leaves cand model w r h = after (o.forward w cand _).1 (o.forward w cand _).0
    where
      after :
          (a : Result Fault Response) (w' : W)
          → ExchangeLeaves job.stream (after_forward e o job cand a w' r)
      after (err f) w' = unfold after_forward in fail-Leaves job.stream cand f w' r h
      after (ok resp) w' = elim (Bool-cases job.stream) [
        | inl s ↦ unfold after_forward in simp s (accept-Leaves cand resp w' r h)
        | inr s ↦ unfold after_forward in simp s (buffered-Leaves cand resp resp.body w' r h)
      ]
