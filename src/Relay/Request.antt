-- ===== src/Relay/Request.antt =====
-- internal/relay/executor.go: the mutable state of one client request, and what it asks of the rest
-- of the process.
use breakwater.Base.{
  ℕ, Bool, true, false, ◌&&◌, List, [], ◌∷◌, ◌++◌, Option, none, String, Assoc, Result,
  if◌then◌else◌,
}
use breakwater.Circuit.Types.{Outcome, client_fault, server_fault}
use breakwater.Retry.Budget.{Budget}
use breakwater.Retry.Policy.{Policy}
use breakwater.Retry.Classifier.{Failure}
use breakwater.Retry.Loop.{ContextError, RetryRules}
use breakwater.Relay.Plan.{Plan, Resolver, new_plan}

pub record Usage : Type 0 where
  pub prompt_tokens : ℕ
  pub completion_tokens : ℕ

-- `exchangeSnapshot`; the header and the body are one text.
pub record Snapshot : Type 0 where
  pub status : ℕ
  pub payload : String

-- `AttemptTrace`; no credential is `none`.
pub record AttemptTrace : Type 0 where
  pub upstream : String
  pub credential_index : Option ℕ
  pub status : ℕ

-- What is written to the response writer of the client: the head of a stream, one of the three
-- renderings of the wire, or the frame that ends a broken stream.
pub data Written : Type 0 where
  stream_head : Written
  render_success render_upstream_error : Snapshot → Written
  render_error : ℕ → String → Written
  abort_frame : String → Written

-- The JSON error envelope of a body, by the two members that are read; without one they are empty.
pub record Body : Type 0 where
  pub payload : String
  pub error_type : String
  pub error_code : String
  pub usage : Option Usage

-- An error of an adapter, of a body's read or of a stream's pump, by what `errors.Is` answers of it.
-- None of those wraps an error that the gateway makes itself.
pub record Fault : Type 0 where
  pub canceled : Bool
  pub deadline_exceeded : Bool

-- What an adapter answers; `retry_after` is the parsed header, `body` what the bounded read gives.
pub record Response : Type 0 where
  pub status_code : ℕ
  pub credential_index : Option ℕ
  pub retry_after : ℕ
  pub body : Result Fault Body

-- How the pump of a committed stream ended.
pub record Pumped : Type 0 where
  pub usage : Option Usage
  pub stream_bytes : ℕ
  pub error : Option Fault

-- The request to an adapter; the fields that are copied from the job alone are left out.
pub record UpstreamRequest : Type 0 where
  pub model : String
  pub excluded_credentials : List ℕ

-- The adapters, the client's connection, the timers of a stream's lease, the contexts, the random
-- source and the traffic, over the state of everything outside. `traffic` is what the other requests
-- do to the retry budget while an attempt runs; `alive_credentials` is none without a ring.
pub record Outside (W : Type 0) : Type 0 where
  pub forward : W → String → UpstreamRequest → W × Result Fault Response
  pub pump : W → String → Response → W × Pumped
  pub now : W → ℕ
  pub client_gone : W → Bool
  pub ttft_fired : W → Bool
  pub ceiling_fired : W → Bool
  pub idle_fired : W → Bool
  pub alive_credentials : W → String → Option ℕ
  pub overall_err : W → Option ContextError
  pub timer : ℕ → W → W × Option ContextError
  pub draw : W → ℕ → ℕ
  pub total_in_flight : W → ℕ
  pub traffic : W → Option Budget → Option Budget

-- `Bulkhead`.
pub record Bulkhead (W : Type 0) : Type 0 where
  pub acquire : W → String → ℕ → W × Bool
  pub release : W → String → W

-- `circuit.Breaker`, with the permission that it grants.
pub record Breaker (W P : Type 0) : Type 0 where
  pub allow : W → String → W × Option P
  pub report : W → P → Outcome → W

-- `Executor`; a hook, a gate or a breaker that is not installed is none.
pub record Executor (W P : Type 0) : Type 0 where
  pub policy : Policy
  pub classifier : RetryRules
  pub breaker : Option (Breaker W P)
  pub bulkhead : Option (Bulkhead W)
  pub bulkhead_max : ℕ
  pub observer : Option (W → String → ℕ → Bool → W)
  pub fatal_hook : Option (W → String → Option ℕ → String → W)
  pub slow_call_threshold : ℕ

pub record Job (W : Type 0) : Type 0 where
  pub model : String
  pub stream : Bool
  pub candidates : List String
  pub fallbacks : List String
  pub resolve : Resolver W

-- `requestRun`; a `*StatusError` is the number of the attempt that made it. `out` is what the client
-- was sent, latest first.
pub record RequestRun : Type 0 where
  pub attempts : ℕ
  pub retries : ℕ
  pub served_by : String
  pub usage : Option Usage
  pub streamed : Bool
  pub trail : List AttemptTrace
  pub delivered : Option Snapshot
  pub last_failed : Option Snapshot
  pub last_failed_err : Option ℕ
  pub terminal : Option Snapshot
  pub rotated : Option ℕ
  pub stream_bytes : ℕ
  pub gateway_code : String
  pub plan : Plan
  pub last_cand : Option String
  pub excluded : Assoc (List ℕ)
  pub started_at : ℕ
  pub responsiveness : ℕ
  pub out : List Written

unfoldable pub new_run : {W : Type 0} → Job W → RequestRun
new_run job = record {
  attempts = 0;
  retries = 0;
  served_by = "";
  usage = none;
  streamed = false;
  trail = [];
  delivered = none;
  last_failed = none;
  last_failed_err = none;
  terminal = none;
  rotated = none;
  stream_bytes = 0;
  gateway_code = "";
  plan = new_plan job.model job.candidates job.fallbacks;
  last_cand = none;
  excluded = [];
  started_at = 0;
  responsiveness = 0;
  out = [];
}

-- `trace`.
unfoldable pub trace : String → Option ℕ → ℕ → RequestRun → RequestRun
trace upstream credential status r = record r {
  trail =
      r.trail
      ++ record { upstream = upstream; credential_index = credential; status = status } ∷ [];
}

unfoldable pub write : Written → RequestRun → RequestRun
write x r = record r { out = x ∷ r.out }

-- `clientFault` and `transportOutcome`.
unfoldable pub is_client_fault : {W : Type 0} → Outside W → W → Bool → Bool
is_client_fault o w canceled = canceled && o.client_gone w

unfoldable pub transport_outcome : {W : Type 0} → Outside W → W → Fault → Outcome
unfolding is_client_fault
transport_outcome o w f = if is_client_fault o w f.canceled then client_fault else server_fault

abbrev pub failure_of : Fault → Failure
failure_of f = record {
  committed = false;
  canceled = f.canceled;
  deadline_exceeded = f.deadline_exceeded;
  circuit_open = false;
  saturated = false;
  rotated = false;
  status = none;
}

-- An error that wraps `context.DeadlineExceeded`, as `ttftTimeoutError` and `ceilingTimeoutError` do.
abbrev pub timeout_failure : Failure
timeout_failure = failure_of (record { canceled = false; deadline_exceeded = true })

abbrev pub plain_failure : Failure
plain_failure = failure_of (record { canceled = false; deadline_exceeded = false })
