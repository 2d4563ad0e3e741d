-- ===== src/Circuit/SlowWindow.antt =====
-- internal/circuit/slow.go: the rolling window of the slow-call strategy. The array of forty buckets
-- is a function of the index; the counters, which a window of ten seconds keeps far below 2 ^ 63,
-- are natural numbers.
pub mod Counts
use breakwater.Base.{ℕ, zero, suc, ◌+◌, ◌-◌, ◌*◌, ◌/◌, ◌%◌, ◌==◌, Bool, min, ltb, if◌then◌else◌}

abbrev pub slow_buckets : ℕ
slow_buckets = 40

-- 250 milliseconds.
abbrev pub slow_bucket_span : ℕ
slow_bucket_span = 250_000_000

abbrev pub slow_min_samples : ℕ
slow_min_samples = 10

pub record SlowBucket : Type 0 where
  pub total : ℕ
  pub slow : ℕ

abbrev pub empty : SlowBucket
empty = record { total = 0; slow = 0 }

pub record Window : Type 0 where
  pub buckets : ℕ → SlowBucket
  pub offset : ℕ
  pub last_write : ℕ

abbrev pub set_bucket : ℕ → SlowBucket → (ℕ → SlowBucket) → ℕ → SlowBucket
set_bucket i b buckets j = if i == j then b else buckets j

-- `clearWindow`.
unfoldable pub clear_window : Window → Window
clear_window w = record w { buckets = λ i. empty }

-- The loop of `record`: the `n` buckets after the offset are emptied.
unfoldable pub clear_next : ℕ → ℕ → (ℕ → SlowBucket) → ℕ → SlowBucket
clear_next zero offset buckets = buckets
clear_next (suc n) offset buckets =
    set_bucket ((offset + suc n) % slow_buckets) empty (clear_next n offset buckets)

-- The window rolled on to the bucket of `now`, by at most one turn.
unfoldable pub advance : ℕ → Window → Window
advance now w =
    if ltb w.last_write now
    then (let span = min ((now - w.last_write) / slow_bucket_span) slow_buckets in
        record {
          buckets = clear_next span w.offset w.buckets;
          offset = (w.offset + span) % slow_buckets;
          last_write = w.last_write + span * slow_bucket_span;
        })
    else w

unfoldable pub count : Bool → SlowBucket → SlowBucket
count slow b = record { total = b.total + 1; slow = if slow then b.slow + 1 else b.slow }

unfoldable pub add_completion : Bool → Window → Window
add_completion slow w = record w {
  buckets = set_bucket w.offset (count slow (w.buckets w.offset)) w.buckets;
}

-- `record`: one completion at `now`.
unfoldable pub record_completion : ℕ → Bool → Window → Window
record_completion now slow w = add_completion slow (advance now w)

-- The loop of `share`: a sum over the `n` buckets from `start`.
unfoldable pub sum : (SlowBucket → ℕ) → ℕ → ℕ → (ℕ → SlowBucket) → ℕ
sum part zero start buckets = 0
sum part (suc n) start buckets =
    sum part n start buckets + part (buckets ((start + n) % slow_buckets))

abbrev pub share_of : (SlowBucket → ℕ) → ℕ → Window → ℕ
share_of part now w =
    let span = (now - w.last_write) / slow_bucket_span in
    sum part (slow_buckets - span) ((w.offset + span + 1) % slow_buckets) w.buckets

-- `share`: the completions of the live window, and the slow ones.
unfoldable pub share : ℕ → Window → ℕ × ℕ
share now w = (share_of (λ b. b.total) now w, share_of (λ b. b.slow) now w)
