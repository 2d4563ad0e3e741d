-- ===== src/Relay/Exchange/Tests.antt =====
-- A stream whose headers land as its time-to-first-byte timer fires.
use breakwater.Base.{◌-◌, ◌≡◌, refl, true, false, [], ◌∷◌, none, some, ok, err}
use breakwater.Circuit.Types.{server_fault}
use breakwater.Retry.Loop.{default_rules}
use breakwater.Relay.Request.{Outside, Executor, Job, new_run, timeout_failure}
use breakwater.Relay.Exchange.{exchange, after_forward, accept_stream}

abbrev outside : Outside (Unit {0})
outside = record {
  forward = λ w id q. (
    w,
    ok (record {
      status_code = 200;
      credential_index = none;
      retry_after = 0;
      body = err (record { canceled = true; deadline_exceeded = false });
    }),
  );
  pump = λ w id r. (w, record { usage = none; stream_bytes = 5; error = none });
  now = λ w. 0;
  client_gone = λ w. false;
  ttft_fired = λ w. true;
  ceiling_fired = λ w. false;
  idle_fired = λ w. false;
  alive_credentials = λ w id. none;
  overall_err = λ w. none;
  timer = λ d w. (w, none);
  draw = λ w k. k - 1;
  total_in_flight = λ w. 10;
  traffic = λ w b. b;
}

abbrev executor : Executor (Unit {0}) (Unit {0})
executor = record {
  policy = record {
    max_attempts = 3;
    attempt_timeout = 0;
    overall_deadline = 0;
    backoff_initial = 100;
    backoff_max = 150;
  };
  classifier = default_rules;
  breaker = none;
  bulkhead = none;
  bulkhead_max = 0;
  observer = none;
  fatal_hook = none;
  slow_call_threshold = 0;
}

abbrev job : Job (Unit {0})
job = record {
  model = "gpt";
  stream = true;
  candidates = "east" ∷ [];
  fallbacks = [];
  resolve = none;
}

-- The attempt fails as a timeout and leaves the access trail empty.
late_headers :
    exchange executor outside job "east" "gpt" tt (new_run job)
    ≡ ((tt, new_run job), server_fault, some timeout_failure)
unfolding exchange after_forward accept_stream
late_headers = refl
