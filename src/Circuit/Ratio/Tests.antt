-- ===== src/Circuit/Ratio/Tests.antt =====
-- The ratio-strategy registry on a window that is full of failures.
use breakwater.Base.{◌+◌, ◌*◌, ◌<◌, ◌≡◌, refl, true, [], ◌∷◌, some, none, lookup, insert}
use breakwater.Circuit.Ratio.{
  RatioRegistry, Draw, ratio_state_of, ratio_allow, history, decide, guards, weight, draws_denial,
  is_pass_due, store_ratio, held_or_fresh, walk_buckets, add_bucket,
}
use breakwater.Circuit.Ratio.Runs.{allows, ratio_run, ratio_step, admissions, is_recent}
use breakwater.Circuit.Ratio.ForcedPass.{pass_within_interval}

abbrev failing : RatioRegistry
failing = record {
  by_upstream =
      (
        "a",
        record {
          id = "a";
          buckets = λ i. record { success = 0; failure = 10; drop = 0 };
          offset = 0;
          last_write = 0;
          last_pass = some 0;
        },
      )
      ∷ [];
  observed = true;
  denials = [];
}

abbrev lowest : Draw
lowest = record { num = 0; den = 1 }

abbrev highest : Draw
highest = record { num = 999; den = 1_000 }

failing-denied :
    (ratio_allow
      (ratio_run failing (allows "a" highest 500_000_000 ∷ []))
      "a"
      lowest
      1_200_000_000).1
    ≡ none
unfolding ratio_allow ratio_run ratio_step decide history walk_buckets add_bucket guards weight
    draws_denial is_pass_due store_ratio held_or_fresh ratio_state_of lookup insert
failing-denied = refl

failing_passed : (ratio_state_of failing "a" 1_200_000_000).last_pass ≡ some 0
unfolding ratio_state_of held_or_fresh lookup
failing_passed = refl

pass_within_interval_example :
    let h = history 1_200_000_000 (
      ratio_state_of (ratio_run failing (allows "a" highest 500_000_000 ∷ [])) "a" 1_200_000_000) in
    (is_recent 1_200_000_000 (0 ∷ admissions failing "a" (allows "a" highest 500_000_000 ∷ []))
      ≡ true)
    × (50 + 11 * h.accepts < 10 * h.total)
pass_within_interval_example =
    pass_within_interval failing "a" (allows "a" highest 500_000_000 ∷ []) lowest 0 1_200_000_000
      failing_passed failing-denied
