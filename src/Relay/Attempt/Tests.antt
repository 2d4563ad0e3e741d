-- ===== src/Relay/Attempt/Tests.antt =====
-- An attempt at the last slot of an upstream, counted: the world is the held slots and the unreported
-- permits.
use breakwater.Base.{
  ℕ, ◌+◌, ◌-◌, ◌≡◌, refl, true, false, [], ◌∷◌, none, some, Result, err, ltb, if◌then◌else◌, arith,
  subst,
}
use mathlib.Core.Option.{some-injective}
use breakwater.Retry.Loop.{default_rules}
use breakwater.Relay.Request.{Response, Fault, Outside, Bulkhead, Breaker, Executor, Job, new_run}
use breakwater.Relay.Exchange.Neutral.{Neutral}
use breakwater.Relay.Attempt.{run_attempt}
use breakwater.Relay.Attempt.Balance.{BulkheadCounts, BreakerCounts, run_attempt-balanced}

abbrev refused : Result Fault Response
refused = err (record { canceled = false; deadline_exceeded = false })

abbrev outside : Outside (ℕ × ℕ)
outside = record {
  forward = λ w id q. (w, refused);
  pump = λ w id r. (w, record { usage = none; stream_bytes = 5; error = none });
  now = λ w. 0;
  client_gone = λ w. false;
  ttft_fired = λ w. true;
  ceiling_fired = λ w. false;
  idle_fired = λ w. false;
  alive_credentials = λ w id. none;
  overall_err = λ w. none;
  timer = λ d w. (w, none);
  draw = λ w k. k - 1;
  total_in_flight = λ w. 10;
  traffic = λ w b. b;
}

abbrev gate : Bulkhead (ℕ × ℕ)
gate = record {
  acquire = λ w id limit. if ltb w.0 limit then ((w.0 + 1, w.1), true) else (w, false);
  release = λ w id. (w.0 - 1, w.1);
}

abbrev breaker : Breaker (ℕ × ℕ) (Unit {0})
breaker = record {
  allow = λ w id. ((w.0, w.1 + 1), some tt);
  report = λ w p outcome. (w.0, w.1 - 1);
}

abbrev executor : Executor (ℕ × ℕ) (Unit {0})
executor = record {
  policy = record {
    max_attempts = 3;
    attempt_timeout = 0;
    overall_deadline = 0;
    backoff_initial = 100;
    backoff_max = 150;
  };
  classifier = default_rules;
  breaker = some breaker;
  bulkhead = some gate;
  bulkhead_max = 4;
  observer = none;
  fatal_hook = none;
  slow_call_threshold = 0;
}

abbrev job : Job (ℕ × ℕ)
job = record {
  model = "gpt";
  stream = false;
  candidates = "east" ∷ "west" ∷ [];
  fallbacks = [];
  resolve = none;
}

abbrev slots : ℕ × ℕ → ℕ
slots w = w.0

abbrev permits : ℕ × ℕ → ℕ
permits w = w.1

neutral : (m : ℕ × ℕ → ℕ) → Neutral executor outside job m
neutral m = record {
  by_forward = λ w id q. refl;
  by_pump = λ w id resp. refl;
  by_hook = λ f h. absurd (ground (arith, h));
  by_observer = λ f h. absurd (ground (arith, h));
  by_resolver = λ f h. absurd (ground (arith, h));
}

gate_counts : BulkheadCounts gate slots permits
gate_counts = record {
  acquired = λ w id limit. ground arith;
  released = λ w id. refl;
  no_permit = λ w id limit. (ground arith, refl);
}

breaker_counts : BreakerCounts breaker slots permits
breaker_counts = record {
  allowed = λ w id. refl;
  reported = λ w p outcome. refl;
  allowed_slot = λ w id. refl;
  reported_slot = λ w p outcome. refl;
}

run_attempt-balanced_example :
    (slots (run_attempt executor outside job 1 (3, 0) (new_run job)).0.0 ≡ 3)
    × (permits (run_attempt executor outside job 1 (3, 0) (new_run job)).0.0 ≡ 0)
run_attempt-balanced_example =
    run_attempt-balanced executor outside job slots permits (neutral slots) (neutral permits)
      (λ b h. subst (λ x. BulkheadCounts x slots permits) (some-injective gate b h) gate_counts)
      (λ b h.
        subst (λ x. BreakerCounts x slots permits) (some-injective breaker b h) breaker_counts)
      1 (3, 0) (new_run job)
