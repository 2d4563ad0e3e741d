-- ===== src/Circuit/SlowWindow/Counts.antt =====
-- slow.go: what the window counts.
use breakwater.Base.{
  ℕ, zero, suc, ◌+◌, ◌-◌, ◌*◌, ◌/◌, ◌%◌, ◌≤◌, ◌<◌, ◌==◌, ◌≡◌, refl, ap, ◌∙◌, Bool, Bool-cases, inl,
  inr, false, min, ltb, if◌then◌else◌, arith,
}
use breakwater.Circuit.SlowWindow.{
  slow_buckets, slow_bucket_span, SlowBucket, empty, Window, clear_next, advance, count,
  add_completion, record_completion, sum, share_of, share, set_bucket,
}

pub record_completion-last_write :
    (w : Window) (now : ℕ) (slow : Bool)
    → (record_completion now slow w).last_write ≤ w.last_write + slow_buckets * slow_bucket_span
unfolding record_completion add_completion advance
record_completion-last_write w now slow = ground arith

share_of-stale :
    (part : SlowBucket → ℕ) (w : Window) (now : ℕ)
    → w.last_write + slow_buckets * slow_bucket_span ≤ now
    → share_of part now w ≡ 0
unfolding sum
share_of-stale part w now h =
    let past : slow_buckets - (now - w.last_write) / slow_bucket_span ≡ 0 = omega arith in
    rw past refl

-- A completion that comes after twenty seconds of silence or more is not counted: the window at that
-- very time is empty, for it rolls on by at most ten seconds at a time.
pub stale-share :
    (w : Window) (now : ℕ) (slow : Bool)
    → w.last_write + 2 * slow_buckets * slow_bucket_span ≤ now
    → share now (record_completion now slow w) ≡ (0, 0)
unfolding share
stale-share w now slow idle =
    let after = record_completion now slow w in
    let bound = record_completion-last_write w now slow in
    let stale : after.last_write + slow_buckets * slow_bucket_span ≤ now =
      omega (arith, idle, bound) in
    λ i. (
      share_of-stale (λ b. b.total) after now stale i,
      share_of-stale (λ b. b.slow) after now stale i,
    )

-- A sum does not see a bucket outside its range, and sees each inside once.
sum-cong :
    (part : SlowBucket → ℕ) (n start : ℕ) (f g : ℕ → SlowBucket)
    → ((i : ℕ)
        → i < n
        → part (f ((start + i) % slow_buckets)) ≡ part (g ((start + i) % slow_buckets)))
    → sum part n start f ≡ sum part n start g
unfolding sum
sum-cong part zero start f g h = refl
sum-cong part (suc n) start f g h =
    let rest = sum-cong part n start f g (λ i l. h i (omega arith)) in
    let last = h n (omega arith) in omega (arith, rest, last)

clear_next_inside :
    (n offset : ℕ) (f : ℕ → SlowBucket) (i : ℕ)
    → i < n
    → clear_next n offset f ((offset + 1 + i) % slow_buckets) ≡ empty
unfolding clear_next
clear_next_inside zero offset f i l = ground arith
clear_next_inside (suc n) offset f i l = ground (arith, clear_next_inside n offset f i)

clear_next_outside :
    (n offset : ℕ) (f : ℕ → SlowBucket) (i : ℕ)
    → n ≤ i
    → i < slow_buckets
    → clear_next n offset f ((offset + 1 + i) % slow_buckets) ≡ f ((offset + 1 + i) % slow_buckets)
unfolding clear_next
clear_next_outside zero offset f i l h = refl
clear_next_outside (suc n) offset f i l h = ground (arith, clear_next_outside n offset f i)

sum_split :
    (part : SlowBucket → ℕ) (m n start : ℕ) (f : ℕ → SlowBucket)
    → sum part (m + n) start f ≡ sum part m start f + sum part n (start + m) f
unfolding sum
sum_split part m zero start f = let same : m + zero ≡ m = omega arith in rw same (omega arith)
sum_split part m (suc n) start f =
    let rest = sum_split part m n start f in
    let same : start + m + n ≡ start + (m + n) = omega arith in
    let next : m + suc n ≡ suc (m + n) = omega arith in rw (next, same) (omega (arith, rest))

sum_zero :
    (part : SlowBucket → ℕ) (n start : ℕ) (f : ℕ → SlowBucket)
    → ((i : ℕ) → i < n → part (f ((start + i) % slow_buckets)) ≡ 0)
    → sum part n start f ≡ 0
unfolding sum
sum_zero part zero start f h = refl
sum_zero part (suc n) start f h =
    let rest = sum_zero part n start f (λ i l. h i (omega arith)) in
    let last = h n (omega arith) in omega (arith, rest, last)

-- A full turn over the buckets that stand after `span` were emptied is the rest of the old turn.
turn_after_clear :
    (part : SlowBucket → ℕ) (span offset : ℕ) (f : ℕ → SlowBucket)
    → part empty ≡ 0
    → span ≤ slow_buckets
    → sum part slow_buckets ((offset + span + 1) % slow_buckets) (clear_next span offset f)
      ≡ sum part (slow_buckets - span) ((offset + span + 1) % slow_buckets) f
turn_after_clear part span offset f none le =
    let start = (offset + span + 1) % slow_buckets in
    let cleared = clear_next span offset f in
    let kept : sum part (slow_buckets - span) start cleared
        ≡ sum part (slow_buckets - span) start f =
      sum-cong part (slow_buckets - span) start cleared f (λ i l. ap part (
        let index : (start + i) % slow_buckets ≡ (offset + 1 + (span + i)) % slow_buckets =
          omega arith in
        rw index (clear_next_outside span offset f (span + i) (omega arith) (omega arith)))) in
    let gone : sum part span (start + (slow_buckets - span)) cleared ≡ 0 =
      sum_zero part span (start + (slow_buckets - span)) cleared (λ i l.
        let index : (start + (slow_buckets - span) + i) % slow_buckets
            ≡ (offset + 1 + i) % slow_buckets =
          omega arith in
        rw index (ap part (clear_next_inside span offset f i l) ∙ none)) in
    let whole : slow_buckets - span + span ≡ slow_buckets = omega arith in
    let split = sum_split part (slow_buckets - span) span start cleared in
    let turned : sum part slow_buckets start cleared
        ≡ sum part (slow_buckets - span) start cleared
          + sum part span (start + (slow_buckets - span)) cleared =
      rw whole at split in
    omega (arith, turned, kept, gone)

sum_outside :
    (part : SlowBucket → ℕ) (n start i : ℕ) (b : SlowBucket) (f : ℕ → SlowBucket)
    → ((k : ℕ) → k < n → (i == (start + k) % slow_buckets) ≡ false)
    → sum part n start (set_bucket i b f) ≡ sum part n start f
sum_outside part n start i b f h =
    sum-cong part n start (set_bucket i b f) f (λ k l. ap part (rw (h k l) refl))

-- One more completion in the newest bucket is one more in a full turn that ends with that bucket.
turn_after_completion :
    (part : SlowBucket → ℕ) (slow : Bool) (offset gain : ℕ) (f : ℕ → SlowBucket)
    → offset < slow_buckets
    → part (count slow (f offset)) ≡ part (f offset) + gain
    → sum part slow_buckets
        ((offset + 0 + 1) % slow_buckets)
        (set_bucket offset (count slow (f offset)) f)
      ≡ sum part slow_buckets ((offset + 0 + 1) % slow_buckets) f + gain
turn_after_completion part slow offset gain f below more =
    let start = (offset + 0 + 1) % slow_buckets in
    let b = count slow (f offset) in
    let rest = sum_outside part 39 start offset b f (λ k l. ground arith) in
    let newest : (start + 39) % slow_buckets ≡ offset = omega arith in
    unfold sum in rw newest (ground (arith, rest, more))

advance_lem :
    (w : Window) (now : ℕ)
    → w.offset < slow_buckets
    → now < w.last_write + slow_buckets * slow_bucket_span
    → let span = (now - w.last_write) / slow_bucket_span in
      (advance now w).buckets ≡ clear_next span w.offset w.buckets
      × ((advance now w).offset ≡ (w.offset + span) % slow_buckets)
      × ((now - (advance now w).last_write) / slow_bucket_span ≡ 0)
unfolding advance clear_next
advance_lem w now below turn = elim (Bool-cases (ltb w.last_write now)) [
  | inl later ↦
      let full : min ((now - w.last_write) / slow_bucket_span) slow_buckets
          ≡ (now - w.last_write) / slow_bucket_span =
        omega arith in
      rw (later, full) (refl, refl, omega arith)
  | inr e ↦
      let early : now ≤ w.last_write = ground arith in
      let none : (now - w.last_write) / slow_bucket_span ≡ 0 = omega arith in
      rw (e, none) (refl, omega arith, refl)
]

-- What one counter of the window gains by a completion.
share_of-record :
    (part : SlowBucket → ℕ) (w : Window) (now gain : ℕ) (slow : Bool)
    → part empty ≡ 0
    → ((b : SlowBucket) → part (count slow b) ≡ part b + gain)
    → w.offset < slow_buckets
    → now < w.last_write + slow_buckets * slow_bucket_span
    → share_of part now (record_completion now slow w) ≡ share_of part now w + gain
unfolding record_completion add_completion
share_of-record part w now gain slow none more below turn =
    let span = (now - w.last_write) / slow_bucket_span in
    let rolled = advance now w in
    let (held, placed, level) = advance_lem w now below turn in
    let low : rolled.offset < slow_buckets = omega (arith, placed) in
    let first =
      turn_after_completion part slow rolled.offset gain rolled.buckets low
        (more (rolled.buckets rolled.offset)) in
    let second = turn_after_clear part span w.offset w.buckets none (omega arith) in
    let start : (rolled.offset + 0 + 1) % slow_buckets ≡ (w.offset + span + 1) % slow_buckets =
      omega (arith, placed) in
    rw level (first ∙ ap (λ x. x + gain) (rw (held, start) second))

count-slow : (slow : Bool) (b : SlowBucket) → (count slow b).slow ≡ b.slow + (if slow then 1 else 0)
unfolding count
count-slow slow b = ground arith

-- A completion that comes less than ten seconds after the window last rolled on is counted: the
-- window at that time then holds one completion more than it held, and one slow one more when it is
-- slow. What it held is what the last forty buckets hold, the buckets that have passed dropped.
pub share-record :
    (w : Window) (now : ℕ) (slow : Bool)
    → w.offset < slow_buckets
    → now < w.last_write + slow_buckets * slow_bucket_span
    → ((share now (record_completion now slow w)).0 ≡ (share now w).0 + 1)
      × ((share now (record_completion now slow w)).1 ≡ (share now w).1 + (if slow then 1 else 0))
unfolding share
share-record w now slow below turn = (
  share_of-record (λ b. b.total) w now 1 slow refl (λ b. unfold count in refl) below turn,
  share_of-record (λ b. b.slow) w now (if slow then 1 else 0) slow refl (count-slow slow) below
      turn,
)
