-- ===== src/Retry/Tests.antt =====
-- The retry components on small inputs.
use breakwater.Base.{ℕ, ◌≤◌, ◌<◌, ◌≡◌, false, [], ◌∷◌, none, some, arith}
use breakwater.Base.Int.{pos, negsuc}
use breakwater.Retry.Budget.{Budget, acquires, releases, run, cap_of, run-le-cap}
use breakwater.Retry.Policy.{Policy, backoff_ceiling, exponential, backoff_ceiling-eq-exponential}
use breakwater.Retry.Classifier.{Parsers, of_seconds, of_seconds_wraps}

abbrev share_budget : Budget
share_budget = record { in_flight = 0; limit = 0; percent = 20; min_in_flight = 2 }

run-le-cap_example :
    (run share_budget (acquires 10 ∷ acquires 30 ∷ releases ∷ [])).in_flight
    ≤ cap_of share_budget 30
run-le-cap_example =
    run-le-cap share_budget (acquires 10 ∷ acquires 30 ∷ releases ∷ []) 30 (omega arith)
      (omega arith)

abbrev policy : Policy
policy = record {
  max_attempts = 3;
  attempt_timeout = 0;
  overall_deadline = 0;
  backoff_initial = 100;
  backoff_max = 150;
}

backoff_ceiling-eq-exponential_example : backoff_ceiling policy 2 ≡ exponential policy 2
backoff_ceiling-eq-exponential_example = backoff_ceiling-eq-exponential policy 2

-- Whole counts only.
abbrev parsers : Parsers
parsers = record {
  Float = ℕ;
  trim_space = λ s. s;
  parse_int = λ s. some (pos 90);
  parse_float = λ s. none;
  is_nan = λ f. false;
  exceeds = λ f n. false;
  to_nanoseconds = λ f. pos f;
  parse_time = λ s. none;
}

of_seconds_wraps_example : 0 < of_seconds (negsuc 9_300_000_000)
of_seconds_wraps_example = of_seconds_wraps 9_300_000_000 (omega arith) (omega arith)
