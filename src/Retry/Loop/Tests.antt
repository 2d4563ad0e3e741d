-- ===== src/Retry/Loop/Tests.antt =====
-- The loop against a scripted upstream.
use breakwater.Base.{
  ◌-◌, ◌≤◌, ◌≡◌, refl, false, [], ◌∷◌, none, some, ltb, if◌then◌else◌, arith, All,
}
use breakwater.Retry.Classifier
use breakwater.Retry.Budget.{acquire, release, Budget}
use breakwater.Retry.Policy.{backoff_delay, Policy, max_attempts_of, backoff_ceiling}
use breakwater.Retry.Classifier.{
  Failure, Parsers, parse_retry_after, retry_after_cap, of_seconds, of_seconds_wraps, second,
}
use breakwater.Retry.Loop.{
  attempted, retried, default_rules, Shared, Env, Finish, execute, loop, finish, enter_attempt,
  run_attempt, take_slot, give_back, judge, judge_open, sleep, delay_after,
}
use breakwater.Retry.Loop.Bounds.{execute_bounded, attempts, IsLegal}
use breakwater.Retry.Loop.Slots.{execute-slots, slots}

abbrev share : Budget
share = record { in_flight = 0; limit = 0; percent = 20; min_in_flight = 2 }

abbrev policy : Policy
policy = record {
  max_attempts = 3;
  attempt_timeout = 0;
  overall_deadline = 0;
  backoff_initial = 100;
  backoff_max = 150;
}

abbrev unavailable : Failure
unavailable = record {
  committed = false;
  canceled = false;
  deadline_exceeded = false;
  circuit_open = false;
  saturated = false;
  rotated = false;
  status = some (record { serial = 1; status_code = 503; retry_after = 0 });
}

-- The third attempt succeeds.
abbrev flaky : Env (Unit {0})
flaky = record {
  attempt = λ n s. if ltb n 3 then (s, some unavailable) else (s, none);
  overall_err = λ s. none;
  timer = λ d s. (s, none);
  draw = λ s k. k - 1;
  total_in_flight = λ w. 10;
}

abbrev start : Shared (Unit {0})
start = record { budget = some share; world = tt }

execute_bounded_example :
    (x : Finish (Unit {0})) × (execute flaky default_rules policy start ≡ some x)
    × All (IsLegal default_rules policy) x.log
    × (attempts x.log ≤ max_attempts_of policy)
execute_bounded_example = execute_bounded flaky default_rules policy (λ s k h. omega arith) start

abbrev finished : Finish (Unit {0})
finished = record {
  error = none;
  shared = start;
  log =
      attempted 3
      ∷ retried 2 unavailable 149
      ∷ attempted 2
      ∷ retried 1 unavailable 99
      ∷ attempted 1
      ∷ [];
}

flaky_runs : execute flaky default_rules policy start ≡ some finished
unfolding execute loop finish enter_attempt run_attempt take_slot give_back judge judge_open sleep
    delay_after max_attempts_of acquire release Classifier.retryable Classifier.delay_hint
    backoff_delay backoff_ceiling
flaky_runs = refl

execute-slots_example :
    (x : Finish (Unit {0})) × (execute flaky default_rules policy start ≡ some x)
    × (slots x.shared.budget ≡ 0)
execute-slots_example =
    execute-slots flaky default_rules policy (λ n s. ground arith) (λ d s. refl)
      (λ s k h. omega arith) start
