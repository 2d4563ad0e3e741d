-- ===== src/Limiter/Memory.antt =====
-- internal/limiter/memory.go: the token buckets. A token is 60_000_000_000 units, so that a capacity
-- per minute refills that many units in a nanosecond; the code's float64 arithmetic on tokens is
-- exact here. A limit at or below zero is 0, a request's estimate is not negative. The level of a
-- bucket is signed, for a clock that steps backwards drains it. The mutex makes each call one step.
pub mod Waits
pub mod Sweeps
use breakwater.Base.{
  ℕ, ◌+◌, ◌-◌, ◌*◌, ◌/◌, ◌==◌, Bool, true, false, not, ◌||◌, ◌&&◌, List, [], ◌∷◌, Option, none,
  some, String, Assoc, lookup, insert, delete, leb, ltb, min, max, if◌then◌else◌,
}
use breakwater.Base.Int.{ℤ, pos, sub_ℕ, pos_part, ltb_ℤ, ◌+ℤ◌, ◌-ℤ◌}

abbrev pub token : ℕ
token = 60_000_000_000

-- `bucketIdleTTL`.
abbrev pub bucket_idle_ttl : ℕ
bucket_idle_ttl = 120_000_000_000

abbrev pub millisecond : ℕ
millisecond = 1_000_000

abbrev pub max_duration : ℕ
max_duration = 9_223_372_036_854_775_807

pub record Limits : Type 0 where
  pub rpm : ℕ
  pub tpm : ℕ

pub record Bucket : Type 0 where
  pub tokens : ℤ
  pub last : ℕ

-- `swept_at` is `none` for the zero time.
pub record Memory : Type 0 where
  pub rpm : Assoc Bucket
  pub tpm : Assoc Bucket
  pub swept_at : Option ℕ

pub record Decision : Type 0 where
  pub allowed : Bool
  pub retry_after : ℕ

pub new_memory : Memory
new_memory = record { rpm = []; tpm = []; swept_at = none }

abbrev pub min_ℤ : ℤ → ℤ → ℤ
min_ℤ a b = if ltb_ℤ b a then b else a

unfoldable pub refilled_bucket : ℕ → ℕ → Option Bucket → Bucket
refilled_bucket capacity now none = record { tokens = pos (capacity * token); last = now }
refilled_bucket capacity now (some b) = record {
  tokens =
      if ltb 0 capacity
      then min_ℤ (pos (capacity * token)) (b.tokens +ℤ sub_ℕ (now * capacity) (b.last * capacity))
      else b.tokens;
  last = now;
}

-- `refillOne`: the bucket, refilled to now; the map holds it.
pub refill_one : Assoc Bucket → String → ℕ → ℕ → Assoc Bucket × Bucket
refill_one buckets key capacity now =
    let b = refilled_bucket capacity now (lookup key buckets) in (insert key b buckets, b)

-- A bucket is untouched for the horizon.
unfoldable pub is_idle : ℕ → Bucket → Bool
is_idle now b = leb (b.last + bucket_idle_ttl) now

drop_idle : ℕ → String → Option Bucket → Assoc Bucket → Assoc Bucket
drop_idle now key none buckets = buckets
drop_idle now key (some b) buckets = if is_idle now b then delete key buckets else buckets

-- `sweepIdleBuckets`, over the keys in the order in which the runtime ranges over the map.
pub sweep_idle_buckets : ℕ → List String → Assoc Bucket → Assoc Bucket
unfolding drop_idle
sweep_idle_buckets now [] buckets = buckets
sweep_idle_buckets now (key ∷ order) buckets =
    sweep_idle_buckets now order (drop_idle now key (lookup key buckets) buckets)

-- `sweepIfDue`'s condition: no window, one that has passed, or one more than a horizon ahead.
unfoldable pub is_due : ℕ → Option ℕ → Bool
is_due now none = true
is_due now (some at) = leb at now || ltb (now + bucket_idle_ttl) at

pub sweep_if_due : ℕ → List String → List String → Memory → Memory
sweep_if_due now rpm_order tpm_order m =
    if is_due now m.swept_at
    then record {
      rpm = sweep_idle_buckets now rpm_order m.rpm;
      tpm = sweep_idle_buckets now tpm_order m.tpm;
      swept_at = some (now + bucket_idle_ttl);
    }
    else m

-- `deficitWait`, of a deficit in units: it saturates, and is at least a millisecond.
unfoldable pub deficit_wait : ℕ → ℕ → ℕ
deficit_wait deficit capacity =
    if leb capacity 0 || leb deficit 0
    then 0
    else (let wait = deficit / capacity in
        if leb max_duration wait
        then max_duration
        else (if ltb wait millisecond then millisecond else wait))

-- The bucket has the units, or its dimension has no limit.
unfoldable pub affords : ℕ → ℕ → Bucket → Bool
affords capacity need b = leb capacity 0 || not (ltb_ℤ b.tokens (pos need))

unfoldable pub take : ℕ → ℕ → Bucket → Bucket
take capacity need b = if ltb 0 capacity then record b { tokens = b.tokens -ℤ pos need } else b

unfoldable pub wait_for : ℕ → ℕ → Bucket → ℕ
wait_for capacity need b =
    if affords capacity need b then 0 else deficit_wait (pos_part (pos need -ℤ b.tokens)) capacity

-- `Allow`, for an estimate of tokens. The two orders are those of the sweep's ranges.
pub allow : Memory → String → Limits → ℕ → ℕ → List String → List String → Memory × Decision
allow m tenant limits tokens now rpm_order tpm_order =
    let swept = sweep_if_due now rpm_order tpm_order m in
    let (rpm_map, rpm) = refill_one swept.rpm tenant limits.rpm now in
    let (tpm_map, tpm) = refill_one swept.tpm tenant limits.tpm now in
    let need = tokens * token in
    if affords limits.rpm token rpm && affords limits.tpm need tpm
    then (
      record swept {
        rpm = insert tenant (take limits.rpm token rpm) rpm_map;
        tpm = insert tenant (take limits.tpm need tpm) tpm_map;
      },
      record { allowed = true; retry_after = 0 },
    )
    else (
      record swept { rpm = rpm_map; tpm = tpm_map },
      record {
        allowed = false;
        retry_after = max (wait_for limits.rpm token rpm) (wait_for limits.tpm need tpm);
      },
    )

-- `Refund`.
pub refund : Memory → String → Limits → ℕ → ℕ → Memory
refund m tenant limits tokens now =
    if leb tokens 0 || leb limits.tpm 0
    then m
    else (let (rpm_map, rpm) = refill_one m.rpm tenant limits.rpm now in
        let (tpm_map, tpm) = refill_one m.tpm tenant limits.tpm now in
        record m {
          rpm = rpm_map;
          tpm =
              insert tenant
                (record tpm {
                  tokens = min_ℤ (tpm.tokens +ℤ pos (tokens * token)) (pos (limits.tpm * token));
                })
                tpm_map;
        })
