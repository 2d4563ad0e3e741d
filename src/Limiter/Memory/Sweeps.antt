-- ===== src/Limiter/Memory/Sweeps.antt =====
-- memory.go: the sweep of idle buckets does not show.
use breakwater.Base.{
  ℕ, ◌+◌, ◌*◌, ◌≤◌, ◌<◌, ◌≡◌, refl, ◌∙◌, true, List, [], ◌∷◌, Option, none, some, String, Assoc,
  mul_mono, lookup, sym, lookup-delete, str_eq_refl, String-cases, inl, inr, Bool-cases, arith,
}
use breakwater.Base.Int.{neg_part, sub_ℕ, +ℤ_parts}
use breakwater.Limiter.Memory.{
  bucket_idle_ttl, Bucket, refilled_bucket, refill_one, is_idle, drop_idle, sweep_idle_buckets,
}

-- An idle bucket that is not overdrawn is full when it is refilled.
idle_full :
    (capacity now later : ℕ) (b : Bucket)
    → 0 < capacity
    → neg_part b.tokens ≡ 0
    → is_idle now b ≡ true
    → now ≤ later
    → refilled_bucket capacity later (some b) ≡ refilled_bucket capacity later none
unfolding refilled_bucket is_idle
idle_full capacity now later b some_capacity level idle after =
    let grown : (b.last + bucket_idle_ttl) * capacity ≤ later * capacity =
      mul_mono (b.last + bucket_idle_ttl) later capacity (ground (arith, idle, after)) in
    ground (arith, grown, +ℤ_parts b.tokens (sub_ℕ (later * capacity) (b.last * capacity)))

-- No bucket is overdrawn.
abbrev pub IsLevel : Assoc Bucket → Type 0
IsLevel buckets = (key : String) (b : Bucket) → lookup key buckets ≡ some b → neg_part b.tokens ≡ 0

drop_idle-refilled :
    (key other : String) (capacity now later : ℕ) (buckets : Assoc Bucket)
    → 0 < capacity
    → IsLevel buckets
    → now ≤ later
    → refilled_bucket capacity later
        (lookup key (drop_idle now other (lookup other buckets) buckets))
      ≡ refilled_bucket capacity later (lookup key buckets)
unfolding drop_idle
drop_idle-refilled key other capacity now later buckets some_capacity level after =
    go (lookup other buckets) refl
  where
    go :
        (o : Option Bucket)
        → lookup other buckets ≡ o
        → refilled_bucket capacity later (lookup key (drop_idle now other o buckets))
          ≡ refilled_bucket capacity later (lookup key buckets)
    go none e = refl
    go (some b) e = elim (Bool-cases (is_idle now b)) [
      | inr kept ↦ rw kept refl
      | inl idle ↦ elim (String-cases other key) [
        | inl same ↦
            rw (idle, lookup-delete, same, str_eq_refl)
              (sym (
                rw (← same, e)
                  (idle_full capacity now later b some_capacity (level other b e) idle after)))
        | inr differ ↦ rw (idle, lookup-delete, differ) refl
      ]
    ]

drop_idle-IsLevel :
    (other : String) (now : ℕ) (buckets : Assoc Bucket)
    → IsLevel buckets
    → IsLevel (drop_idle now other (lookup other buckets) buckets)
unfolding drop_idle
drop_idle-IsLevel other now buckets level key b found =
    level key b (ground (arith, lookup-delete key other buckets, found))

-- A sweep is invisible to what follows: with no bucket overdrawn, whatever order the map is ranged
-- over in, the bucket that a later request finds for its positive capacity is the one it would have
-- found without the sweep.
pub refill_one-sweep :
    (now later : ℕ) (order : List String) (buckets : Assoc Bucket) (key : String) (capacity : ℕ)
    → 0 < capacity
    → IsLevel buckets
    → now ≤ later
    → (refill_one (sweep_idle_buckets now order buckets) key capacity later).1
      ≡ (refill_one buckets key capacity later).1
unfolding refill_one sweep_idle_buckets
refill_one-sweep now later [] buckets key capacity some_capacity level after = refl
refill_one-sweep now later (other ∷ order) buckets key capacity some_capacity level after =
    refill_one-sweep now later order (drop_idle now other (lookup other buckets) buckets) key
      capacity some_capacity (drop_idle-IsLevel other now buckets level) after
    ∙ drop_idle-refilled key other capacity now later buckets some_capacity level after
