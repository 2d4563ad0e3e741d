-- ===== src/Limiter/Tests.antt =====
-- The limiters on small inputs.
use breakwater.Base.{◌+◌, ◌≤◌, ◌≡◌, refl, true, List, [], ◌∷◌, some, arith, lookup, insert, delete}
use breakwater.Base.{Assoc, ◌<◌, ◌*◌}
use breakwater.Base.Int.{pos, pos_part, ◌-ℤ◌}
use breakwater.Limiter.Memory.{
  Bucket, token, max_duration, affords, refilled_bucket, wait_for, deficit_wait, refill_one,
  sweep_idle_buckets,
}
use breakwater.Limiter.Memory.Waits.{wait_for-affords}
use breakwater.Limiter.Memory.Sweeps.{IsLevel, refill_one-sweep}
use breakwater.Limiter.Concurrency.{
  acquire, release, in_flight, Call, acquires, releases, no_requests, granted, release_at, step,
  run,
}
use breakwater.Limiter.Concurrency.Unreleased.{unreleased, Under, run-unreleased}

-- The first release function is called twice.
abbrev calls : List Call
calls =
    acquires "acme" 2
    ∷ acquires "acme" 2
    ∷ acquires "acme" 2
    ∷ releases 1
    ∷ releases 1
    ∷ acquires "zeta" 9
    ∷ []

one_left : in_flight (run no_requests calls).gate "acme" ≡ 1
unfolding run step granted acquire release_at release in_flight lookup insert delete
one_left = refl

under : Under "acme" 2 calls
under = (λ e. omega arith, (λ e. omega arith, (λ e. omega arith, (λ e. ground arith, tt))))

run-unreleased_example :
    let s = run no_requests calls in
    (in_flight s.gate "acme" ≡ unreleased "acme" s.handles) × (unreleased "acme" s.handles ≤ 2)
run-unreleased_example = run-unreleased calls "acme" 2 under

abbrev bucket : Bucket
bucket = record { tokens = pos 5; last = 1_000 }

fits : pos_part (pos token -ℤ bucket.tokens) < max_duration * 60
unfolding ◌-ℤ◌
fits = omega arith

waited : bucket.last + wait_for 60 token bucket + 1 ≤ 2_000_000_000
unfolding wait_for affords deficit_wait ◌-ℤ◌
waited = omega arith

affords_later : affords 60 token (refilled_bucket 60 2_000_000_000 (some bucket)) ≡ true
affords_later = wait_for-affords 60 token 2_000_000_000 bucket (omega arith) fits waited

abbrev buckets : Assoc Bucket
buckets = ("acme", bucket) ∷ []

buckets-IsLevel : IsLevel buckets
unfolding lookup
buckets-IsLevel key b h = ground arith

refill_one-sweep_example :
    (refill_one
      (sweep_idle_buckets 120_000_001_000 ("acme" ∷ []) buckets)
      "acme"
      60
      120_000_001_005).1
    ≡ (refill_one buckets "acme" 60 120_000_001_005).1
refill_one-sweep_example =
    refill_one-sweep 120_000_001_000 120_000_001_005 ("acme" ∷ []) buckets "acme" 60 (omega arith)
      buckets-IsLevel (omega arith)
