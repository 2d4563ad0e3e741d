-- ===== src/Relay/Executor.antt =====
-- internal/relay/executor.go: `Execute`, the attempt loop of one request and the one reply it ends in.
pub mod Once
pub mod Trail
mod Tests
use breakwater.Base.{
  ℕ, Bool, true, false, ◌&&◌, ◌||◌, List, [], ◌∷◌, Option, none, some, String, ◌==◌, if◌then◌else◌,
}
use breakwater.Retry.Classifier.{Failure, StatusError}
use breakwater.Retry.Loop
use breakwater.Retry.Loop.{
  LoopError, plain, budget_exhausted, ended, ContextError, RetryRules, Shared, Env, Finish,
}
use breakwater.Relay.Request.{
  Usage, Snapshot, AttemptTrace, Written, render_success, render_upstream_error, render_error,
  Outside, Executor, Job, RequestRun, new_run,
}
use breakwater.Relay.Attempt.{Attempted}
use breakwater.Relay.Attempt

-- `Result`; `written` is what the client was sent, latest first.
pub record Report : Type 0 where
  pub status : ℕ
  pub upstream_id : String
  pub attempts : ℕ
  pub retries : ℕ
  pub trail : List AttemptTrace
  pub usage : Option Usage
  pub streamed : Bool
  pub stream_bytes : ℕ
  pub aborted : Bool
  pub client_gone : Bool
  pub error_code : String
  pub written : List Written

abbrev failure_in : LoopError → Failure
failure_in (plain f) = f
failure_in (budget_exhausted f) = f
failure_in (ended c f) = f

abbrev is_exhausted : LoopError → Bool
is_exhausted (budget_exhausted f) = true
is_exhausted _ = false

abbrev status_of : Snapshot → ℕ
status_of s = s.status

-- `errors.Is(err, r.lastFailedErr)`, by the pointer.
same_error : Option ℕ → Option StatusError → Bool
same_error (some serial) (some se) = se.serial == serial
same_error _ _ = false

-- `lastFailed`, when the error is the one it was kept for.
passthrough : RequestRun → Failure → Option Snapshot
unfolding same_error
passthrough r f = if same_error r.last_failed_err f.status then r.last_failed else none

-- The result of a run in every branch: the fields that the branches of `finish` share.
report_of : RequestRun → ℕ → String → Report
report_of r status upstream_id = record {
  status = status;
  upstream_id = upstream_id;
  attempts = r.attempts;
  retries = r.retries;
  trail = r.trail;
  usage = none;
  streamed = false;
  stream_bytes = r.stream_bytes;
  aborted = false;
  client_gone = false;
  error_code = "";
  written = r.out;
}

rendered : Written → Report → Report
rendered x rep = record rep { written = x ∷ rep.written }

render_gateway_error : RequestRun → ℕ → String → Report
unfolding report_of rendered
render_gateway_error r status code =
    rendered (render_error status code) (record (report_of r status "") { error_code = code })

render_passthrough : RequestRun → Snapshot → Report
unfolding report_of rendered
render_passthrough r s = rendered (render_upstream_error s) (report_of r s.status r.served_by)

-- `intendedStatus`.
intended_status : RequestRun → LoopError → ℕ
unfolding passthrough
intended_status r le = elim r.terminal [
  | some s ↦ status_of s
  | none ↦
      if (failure_in le).circuit_open || (failure_in le).saturated || is_exhausted le
      then 503
      else elim (passthrough r (failure_in le)) [ some s ↦ status_of s | none ↦ 502 ]
]

-- A failure without a terminal passthrough, in the order of the switch.
finish_failed : RequestRun → LoopError → Report
unfolding render_gateway_error render_passthrough passthrough
finish_failed r le =
    if (failure_in le).circuit_open
    then render_gateway_error r 503 "circuit_open"
    else (if (failure_in le).saturated
        then render_gateway_error r 503 "upstream_saturated"
        else (if is_exhausted le
            then render_gateway_error r 503 "budget_exhausted"
            else elim (passthrough r (failure_in le)) [
              | some s ↦ render_passthrough r s
              | none ↦ render_gateway_error r 502 "upstream_unreachable"
            ]))

module _ {W P : Type 0} (e : Executor W P) (o : Outside W) (job : Job W) where
  -- `snap := r.success`, which a nil would crash on: `none`.
  finish_delivered : RequestRun → Option Snapshot → Option Report
  unfolding report_of rendered
  finish_delivered r none = none
  finish_delivered r (some s) =
      some (
        rendered (render_success s) (record (report_of r s.status r.served_by) { usage = r.usage }))

  finish_error : W → RequestRun → LoopError → Report
  unfolding report_of intended_status finish_failed render_passthrough
  finish_error w r le =
      if (failure_in le).committed
      then record (report_of r 200 r.served_by) {
        usage = r.usage;
        streamed = true;
        aborted = true;
        client_gone = o.client_gone w;
        error_code = r.gateway_code;
      }
      else (if o.client_gone w
          then record (report_of r (intended_status r le) "") {
            usage = r.usage;
            client_gone = true;
          }
          else elim r.terminal [ some s ↦ render_passthrough r s | none ↦ finish_failed r le ])

  -- `finish`.
  pub finish : W → RequestRun → Option LoopError → Option Report
  unfolding finish_delivered finish_error report_of
  finish w r (some le) = some (finish_error w r le)
  finish w r none =
      if job.stream
      then some (record (report_of r 200 r.served_by) { usage = r.usage; streamed = true })
      else finish_delivered r r.delivered

  -- `runClassifier`.
  pub run_classifier : RetryRules
  run_classifier = record {
    retryable = λ f. f.rotated || e.classifier.retryable f;
    delay_hint = e.classifier.delay_hint;
  }

  -- What the retry loop is given.
  pub loop_env : Env (W × RequestRun)
  loop_env = record {
    attempt = λ n s.
        let ((w, r), failed) = Attempt.run_attempt e o job n (s.world.0) (s.world.1) in
        (record { budget = o.traffic w s.budget; world = (w, r) }, failed);
    overall_err = λ s. o.overall_err (s.world.0);
    timer = λ d s. let (w, c) = o.timer d (s.world.0) in (record s { world = (w, s.world.1) }, c);
    draw = λ s. o.draw (s.world.0);
    total_in_flight = λ x. o.total_in_flight (x.0);
  }

  finish_run : Option (Finish (W × RequestRun)) → Option Report
  unfolding finish
  finish_run none = none
  finish_run (some x) = finish (x.shared.world.0) (x.shared.world.1) x.error

  -- The guard of `Execute`, by the candidates.
  execute_on : List String → Shared W → Option Report
  unfolding render_gateway_error finish_run run_classifier loop_env
  execute_on [] s = some (render_gateway_error (new_run job) 502 "no_upstream")
  execute_on (c ∷ cs) s = finish_run (
      Loop.execute loop_env run_classifier e.policy
        (record { budget = s.budget; world = (s.world, new_run job) }))

  -- `Execute`, over the state outside and the retry budget.
  pub execute : Shared W → Option Report
  unfolding execute_on
  execute s = execute_on job.candidates s
