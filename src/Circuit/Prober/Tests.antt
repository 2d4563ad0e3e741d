-- ===== src/Circuit/Prober/Tests.antt =====
-- A health check of a breaker that is open.
use breakwater.Base.{◌≡◌, refl, true, [], ◌∷◌, none, some, lookup, arith, if◌then◌else◌}
use breakwater.Circuit.Types.{closed, opened, state_eq}
use breakwater.Circuit.Breaker.{Registry, state_of}
use breakwater.Circuit.Port.{consecutive}
use breakwater.Circuit.Prober.{Clock, failed, active_probe}
use breakwater.Circuit.Prober.Verdict.{state_after, active_probe_decides}

abbrev registry : Registry
registry = record {
  gov = record { cooldown = 100; probe_timeout = 10; observed = true };
  fail_threshold = 2;
  by_upstream =
      (
        "a",
        record {
          machine = record { id = "a"; name = opened; opened_at = 50; probe = none };
          evidence = 2;
        },
      )
      ∷ [];
  next_serial = 0;
  transitions = [];
}

abbrev clock : Clock
clock = record { asked = 160; answered = 165; stamp = 166 }

is_open : (state_of registry "a").machine.name ≡ opened
unfolding state_of lookup
is_open = refl

active_probe_decides_example :
    let (after, ran) = active_probe consecutive registry "a" clock failed in
    (ran ≡ some failed)
    × ((state_of after "a").machine.name ≡ state_after failed)
    × ((state_of after "a").machine.probe ≡ none)
    × ((state_of after "a").evidence
        ≡ (if state_eq (state_after failed) closed then 0 else (state_of registry "a").evidence))
active_probe_decides_example =
    active_probe_decides registry "a" clock failed is_open (unfold state_of lookup in omega arith)
      (omega arith)
