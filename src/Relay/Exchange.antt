-- ===== src/Relay/Exchange.antt =====
-- internal/relay/exchange.go: one exchange with an upstream, and what the request keeps of it. The
-- model name that a transcoder prints and the headers are not modelled.
pub mod Heads
pub mod Neutral
pub mod Trail
mod Tests
use breakwater.Base.{
  ℕ, ◌-◌, Bool, true, false, not, ◌&&◌, ◌||◌, List, [], ◌∷◌, ◌++◌, Option, none, some, String,
  Assoc, lookup, insert, Result, ok, err, ltb, ◌==◌, if◌then◌else◌,
}
use breakwater.Circuit.Types.{Outcome, success, client_fault, server_fault, gateway_terminated}
use breakwater.Retry.Classifier.{Failure, StatusError, new_status_error}
use breakwater.Relay.Fatal.{fatal_upstream_reason}
use breakwater.Relay.Request.{
  Usage, Snapshot, stream_head, abort_frame, Body, Fault, Response, UpstreamRequest, Outside,
  Executor, Job, RequestRun, trace, write, transport_outcome, failure_of, timeout_failure,
  plain_failure,
}

abbrev pub member : ℕ → List ℕ → Bool
member i [] = false
member i (x ∷ xs) = x == i || member i xs

-- A missing key of `excluded` reads nil.
abbrev pub or_nil : Option (List ℕ) → List ℕ
or_nil none = []
or_nil (some is) = is

-- `excludeCredential`.
pub exclude_credential : String → ℕ → RequestRun → RequestRun
exclude_credential upstream index r =
    let burned = or_nil (lookup upstream r.excluded) in
    if member index burned
    then r
    else record r { excluded = insert upstream (burned ++ index ∷ []) r.excluded }

-- What an exchange gives: the state after it, the breaker's outcome and the loop's error.
abbrev pub Exchanged : Type 0 → Type 0
Exchanged W = (W × RequestRun) × Outcome × Option Failure

-- `credentialAlive`: zero without a ring.
abbrev pub credential_alive : Option ℕ → ℕ
credential_alive none = 0
credential_alive (some n) = n

abbrev pub has_reason : Option String → Bool
has_reason none = false
has_reason (some reason) = true

abbrev pub is_ok : ℕ → Bool
is_ok status = not (ltb status 200) && not (ltb 299 status)

abbrev pub code_upstream_timeout : String
code_upstream_timeout = "upstream_timeout"

abbrev pub code_upstream_reset : String
code_upstream_reset = "upstream_reset"

-- `abortCode`.
abort_code : Fault → String
abort_code f = if f.deadline_exceeded then code_upstream_timeout else code_upstream_reset

keep_usage : Option Usage → RequestRun → RequestRun
keep_usage none r = r
keep_usage (some u) r = record r { usage = some u }

module _ {W P : Type 0} (e : Executor W P) (o : Outside W) (job : Job W) where
  call_fatal_hook : W → String → Option ℕ → Option String → W
  call_fatal_hook w upstream credential none = w
  call_fatal_hook w upstream credential (some reason) = elim (e.fatal_hook) [
    | none ↦ w
    | some hook ↦ hook w upstream credential reason
  ]

  convict : String → Option ℕ → Bool → RequestRun → RequestRun
  unfolding exclude_credential
  convict upstream none guilty r = r
  convict upstream (some index) guilty r = if guilty then exclude_credential upstream index r else r

  -- How `stashUpstreamError` files an exchange, by whether it rotates and is retryable.
  file_exchange : Bool → Bool → W → Snapshot → StatusError → RequestRun → Exchanged W
  file_exchange true retryable w snap se r = (
    (
      w,
      record r {
        rotated = some se.serial;
        last_failed = some snap;
        last_failed_err = some se.serial;
      },
    ),
    server_fault,
    some (record plain_failure { rotated = true; status = some se }),
  )
  file_exchange false true w snap se r = (
    (w, record r { last_failed = some snap; last_failed_err = some se.serial }),
    server_fault,
    some (record plain_failure { status = some se }),
  )
  file_exchange false false w snap se r = (
    (w, record r { terminal = some snap }),
    client_fault,
    some (record plain_failure { status = some se }),
  )

  -- `stashUpstreamError`.
  stash_upstream_error : String → Response → Body → W → RequestRun → Exchanged W
  unfolding call_fatal_hook convict file_exchange
  stash_upstream_error cand resp body w r =
      let traced =
        trace cand resp.credential_index resp.status_code (record r { served_by = cand }) in
      let se = record (new_status_error r.attempts resp.status_code) {
        retry_after = resp.retry_after;
      } in
      let reason = fatal_upstream_reason resp.status_code body in
      let w' = call_fatal_hook w cand resp.credential_index reason in
      let guilty = has_reason reason || resp.status_code == 429 in
      let convicted = convict cand resp.credential_index guilty traced in
      let snap : Snapshot = record { status = resp.status_code; payload = body.payload } in
      let rotates = has_reason reason && ltb 0 (credential_alive (o.alive_credentials w' cand)) in
      let retryable = e.classifier.retryable (record plain_failure { status = some se }) in
      file_exchange rotates retryable w' snap se convicted

  -- The exchange completed but its body was lost.
  lose_body : String → Response → Fault → W → RequestRun → Exchanged W
  lose_body cand resp f w r =
      ((w, trace cand resp.credential_index resp.status_code r), server_fault, some (failure_of f))

  deliver : String → Response → Body → W → RequestRun → Exchanged W
  unfolding keep_usage
  deliver cand resp body w r =
      let snap : Snapshot = record { status = resp.status_code; payload = body.payload } in
      let kept = record r { delivered = some snap; responsiveness = o.now w - r.started_at } in
      let metered = keep_usage body.usage kept in
      ((w, trace cand resp.credential_index resp.status_code metered), success, none)

  -- `exchangeBuffered`, by the outcome of the bounded read.
  exchange_buffered : String → Response → Result Fault Body → W → RequestRun → Exchanged W
  unfolding lose_body deliver stash_upstream_error
  exchange_buffered cand resp (err f) w r = lose_body cand resp f w r
  exchange_buffered cand resp (ok body) w r =
      if is_ok resp.status_code
      then deliver cand resp body w r
      else stash_upstream_error cand resp body w r

  -- What `exchangeStream` does about the end of the pump.
  end_stream : Option Fault → W → RequestRun → Exchanged W
  unfolding abort_code
  end_stream none w r = ((w, r), success, none)
  end_stream (some f) w r =
      let failed = some (record (failure_of f) { committed = true }) in
      let cut = o.ceiling_fired w || o.idle_fired w in
      let code = if cut then code_upstream_timeout else abort_code f in
      let aborted = write (abort_frame code) (record r { gateway_code = code }) in
      if o.client_gone w
      then ((w, r), client_fault, failed)
      else ((w, aborted), (if cut then gateway_terminated else server_fault), failed)

  -- `exchangeStream`.
  exchange_stream : String → Response → W → RequestRun → Exchanged W
  unfolding keep_usage end_stream
  exchange_stream cand resp w r =
      let committed = record (write stream_head r) { streamed = true; served_by = cand } in
      let traced = trace cand resp.credential_index resp.status_code committed in
      let (w', p) = o.pump w cand resp in
      let metered = record (keep_usage p.usage traced) { stream_bytes = p.stream_bytes } in
      end_stream p.error w' metered

  -- A stream that is no success: its error body is read while the lease lives.
  refuse_stream : String → Response → Result Fault Body → W → RequestRun → Exchanged W
  unfolding lose_body stash_upstream_error
  refuse_stream cand resp (err f) w r = lose_body cand resp f w r
  refuse_stream cand resp (ok body) w r = stash_upstream_error cand resp body w r

  -- A forward that failed, streamed or not.
  fail_forward : String → Fault → W → RequestRun → Exchanged W
  fail_forward cand f w r =
      let traced = trace cand none 0 r in
      let judged : Exchanged W = ((w, traced), transport_outcome o w f, some (failure_of f)) in
      if job.stream
      then (if o.ttft_fired w
          then ((w, traced), server_fault, some timeout_failure)
          else (if o.ceiling_fired w
              then ((w, traced), gateway_terminated, some timeout_failure)
              else judged))
      else judged

  -- A stream whose headers arrived. Headers that land as the timer fires leave no trace.
  accept_stream : String → Response → W → RequestRun → Exchanged W
  unfolding refuse_stream exchange_stream
  accept_stream cand resp w r =
      if not (is_ok resp.status_code)
      then refuse_stream cand resp resp.body w r
      else (if o.ttft_fired w
          then ((w, r), server_fault, some timeout_failure)
          else exchange_stream cand resp w (record r { responsiveness = o.now w - r.started_at }))

  after_forward : String → Result Fault Response → W → RequestRun → Exchanged W
  unfolding fail_forward accept_stream exchange_buffered
  after_forward cand (err f) w r = fail_forward cand f w r
  after_forward cand (ok resp) w r =
      if job.stream then accept_stream cand resp w r else exchange_buffered cand resp resp.body w r

  -- `exchange`, for the model of the current batch.
  pub exchange : String → String → W → RequestRun → Exchanged W
  unfolding after_forward
  exchange cand model w r =
      let req : UpstreamRequest = record {
        model = model;
        excluded_credentials = or_nil (lookup cand r.excluded);
      } in
      let (w', answer) = o.forward w cand req in after_forward cand answer w' r
