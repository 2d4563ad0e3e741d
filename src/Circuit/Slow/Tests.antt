-- ===== src/Circuit/Slow/Tests.antt =====
-- The slow-call registry on small inputs: an upstream that has never been called, and one whose
-- window was last written at time zero.
use breakwater.Base.{ℕ, ◌+◌, ◌≡◌, refl, if◌then◌else◌, true, false, [], ◌∷◌, none, lookup, arith}
use breakwater.Circuit.Types.{closed, opened, slow}
use breakwater.Circuit.SlowWindow.{Window, record_completion, share}
use breakwater.Circuit.SlowWindow.Counts.{stale-share}
use breakwater.Circuit.Slow.{
  SlowRegistry, slow_state_of, slow_report, trips, is_slow_evidence, is_gateway_cut,
}
use breakwater.Circuit.Slow.Evidence.{report-trips, plain_permission}

abbrev window : Window
window = record { buckets = λ i. record { total = 3; slow = 1 }; offset = 39; last_write = 0 }

stale-share_example : share 20_000_000_000 (record_completion 20_000_000_000 true window) ≡ (0, 0)
stale-share_example = stale-share window 20_000_000_000 true (omega arith)

abbrev registry : SlowRegistry
registry = record {
  gov = record { cooldown = 30_000_000_000; probe_timeout = 5_000_000_000; observed = true };
  slow_ratio = record { num = 1; den = 3 };
  by_upstream =
      (
        "a",
        record {
          machine = record { id = "a"; name = closed; opened_at = 0; probe = none };
          evidence = window;
        },
      )
      ∷ [];
  next_serial = 0;
  transitions = [];
}

stands :
    (now : ℕ)
    → slow_state_of registry "a" now ≡ record {
      machine = record { id = "a"; name = closed; opened_at = 0; probe = none };
      evidence = window;
    }
unfolding slow_state_of lookup
stands now = refl

cut : is_gateway_cut slow ≡ false
unfolding is_gateway_cut
cut = refl

report-trips_example :
    (slow_state_of (slow_report registry (plain_permission "a") slow 7 8).0 "a" 7).name ≡ (
      if trips registry.slow_ratio (
        (share 7 (slow_state_of registry "a" 7).evidence).0 + 1,
        (share 7 (slow_state_of registry "a" 7).evidence).1
            + (if is_slow_evidence slow then 1 else 0),
      )
      then opened
      else closed)
report-trips_example =
    report-trips registry "a" slow 7 8 (rw stands refl) cut (rw stands (omega arith))
      (rw stands (omega arith))
