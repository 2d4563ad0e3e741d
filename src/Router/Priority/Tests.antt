-- ===== src/Router/Priority/Tests.antt =====
-- The selection on two upstreams, one of which is open.
use breakwater.Base.{false, ◌+◌, ◌*◌, ◌≡◌, if◌then◌else◌, true, [], ◌∷◌, none, err}
use breakwater.Circuit.Port.{consecutive}
use breakwater.Circuit.Breaker.{Registry, new_registry, run}
use breakwater.Circuit.Breaker.Runs.{faults}
use breakwater.Router.Priority.{
  Breaker, behind_port, Priority, candidates, latency_order, allows_model, disabled,
}
use breakwater.Router.Priority.Eligible.{candidates-enabled, enabled, closed_among, outcome}

-- The clock is at 40 when the first state is read, and goes on by 10 for each read.
abbrev breaker : Breaker
breaker = behind_port consecutive (λ n. 40 + 10 * n)

-- Two server faults open the breaker of "b" at instant 8, for the 100 that follow.
abbrev tripped : Registry
tripped =
    run (new_registry (record { fail_threshold = 2; cooldown = 100; probe_timeout = 10 }) false)
      (faults "b" ((5, 6) ∷ (7, 8) ∷ []))

abbrev priority : Priority
priority = record {
  entries =
      record { models = ("gpt", tt) ∷ []; upstream = "a" }
      ∷ record { models = ("*", tt) ∷ []; upstream = "b" }
      ∷ record { models = ("*", tt) ∷ []; upstream = "c" }
      ∷ [];
  control = none;
  breaks = true;
  strategy = latency_order;
  tracked = true;
}

candidates-enabled_example :
    let (after, found) =
      closed_among breaker true (tripped, 0) (enabled breaker none "gpt" priority.entries) in
    candidates breaker priority (λ id. 7) (λ n. 1) "gpt" (tripped, 0) ≡ (
      if allows_model none "gpt"
      then (after, outcome breaker priority (λ id. 7) (λ n. 1) "gpt" found)
      else ((tripped, 0), err disabled))
candidates-enabled_example =
    candidates-enabled breaker priority (λ id. 7) (λ n. 1) "gpt" (tripped, 0)
