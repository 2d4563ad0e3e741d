-- ===== src/Relay/Executor/Tests.antt =====
-- A request against scripted upstreams: the world counts the exchanges.
use breakwater.Base.{
  ℕ, ◌+◌, ◌-◌, ◌≤◌, ◌≡◌, false, [], length, ◌∷◌, none, some, ok, err, ◌==◌, if◌then◌else◌, arith,
}
use breakwater.Retry.Policy.{Policy, max_attempts_of}
use breakwater.Retry.Loop.{default_rules}
use breakwater.Relay.Request.{Response, Outside, Executor, Job}
use breakwater.Relay.Exchange.Heads.{heads}
use breakwater.Relay.Executor.{Report, execute}
use breakwater.Relay.Executor.Once.{execute_once}
use breakwater.Relay.Executor.Trail.{execute-trail}

abbrev policy : Policy
policy = record {
  max_attempts = 3;
  attempt_timeout = 0;
  overall_deadline = 0;
  backoff_initial = 100;
  backoff_max = 150;
}

abbrev reply : Response
reply = record {
  status_code = 200;
  credential_index = none;
  retry_after = 0;
  body = ok (record { payload = "hello"; error_type = ""; error_code = ""; usage = none });
}

-- The first exchange is refused, the others answer.
abbrev outside : Outside ℕ
outside = record {
  forward = λ w id q. (
    w + 1,
    if w == 0 then err (record { canceled = false; deadline_exceeded = false }) else ok reply,
  );
  pump = λ w id r. (w, record { usage = none; stream_bytes = 5; error = none });
  now = λ w. w;
  client_gone = λ w. false;
  ttft_fired = λ w. false;
  ceiling_fired = λ w. false;
  idle_fired = λ w. false;
  alive_credentials = λ w id. none;
  overall_err = λ w. none;
  timer = λ d w. (w, none);
  draw = λ w k. k - 1;
  total_in_flight = λ w. 10;
  traffic = λ w b. b;
}

abbrev executor : Executor ℕ ℕ
executor = record {
  policy = policy;
  classifier = default_rules;
  breaker = none;
  bulkhead = none;
  bulkhead_max = 0;
  observer = none;
  fatal_hook = none;
  slow_call_threshold = 0;
}

abbrev job : Job ℕ
job = record {
  model = "gpt";
  stream = false;
  candidates = "east" ∷ "west" ∷ [];
  fallbacks = [];
  resolve = none;
}

execute_once_example :
    (rep : Report) × (execute executor outside job (record { budget = none; world = 0 }) ≡ some rep)
    × ((heads rep.written ≤ 1) × (rep.client_gone ≡ false → heads rep.written ≡ 1))
execute_once_example =
    execute_once executor outside job (λ w k h. omega arith) (record { budget = none; world = 0 })

execute-trail_example :
    (rep : Report) × (execute executor outside job (record { budget = none; world = 0 }) ≡ some rep)
    × ((rep.attempts ≤ max_attempts_of policy)
        × (length rep.trail ≤ rep.attempts)
        × (false ≡ false → length rep.trail ≡ rep.attempts))
execute-trail_example =
    execute-trail executor outside job (λ w k h. omega arith) (record { budget = none; world = 0 })
