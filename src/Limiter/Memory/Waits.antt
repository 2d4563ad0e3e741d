-- ===== src/Limiter/Memory/Waits.antt =====
-- memory.go: what a refused request is told to wait is enough.
use breakwater.Base.{
  ℕ, ◌+◌, ◌*◌, ◌/◌, ◌≤◌, ◌<◌, ◌≡◌, refl, Bool-cases, inl, inr, ◌⊎◌, mul_mono, true, some, arith,
}
use breakwater.Base.Int.{pos, pos_part, ◌-ℤ◌, -ℤ_parts, +ℤ_parts, sub_ℕ}
use breakwater.Limiter.Memory.{
  token, max_duration, Bucket, refilled_bucket, deficit_wait, affords, wait_for,
}

lt_mul_of_div-lt : (m p n : ℕ) → 0 < p → m / p < n → m < n * p
lt_mul_of_div-lt m p n some_p h = grind arith

deficit_wait-cases :
    (deficit capacity : ℕ)
    → (deficit / capacity ≤ deficit_wait deficit capacity)
      ⊎ ((deficit_wait deficit capacity ≡ max_duration) ⊎ ((deficit ≡ 0) ⊎ (capacity ≡ 0)))
unfolding deficit_wait
deficit_wait-cases deficit capacity = ground arith

-- The wait covers the deficit but for the fraction of a nanosecond that is cut off.
deficit_wait-covers :
    (deficit capacity : ℕ)
    → 0 < capacity
    → deficit < max_duration * capacity
    → deficit ≤ (deficit_wait deficit capacity + 1) * capacity
deficit_wait-covers deficit capacity some_capacity fits =
    let w = deficit_wait deficit capacity in
    elim (deficit_wait-cases deficit capacity) [
      | inl long ↦
          let below =
            lt_mul_of_div-lt deficit capacity (w + 1) some_capacity (omega (arith, long)) in
          omega (arith, below)
      | inr (inl e) ↦
          let more = mul_mono max_duration (w + 1) capacity (omega (arith, e)) in
          omega (arith, more, fits)
      | inr (inr (inl e)) ↦ omega (arith, e)
      | inr (inr (inr e)) ↦ omega (arith, e)
    ]

affords-refilled :
    (capacity need later : ℕ) (b : Bucket)
    → need ≤ capacity * token
    → pos_part (pos need -ℤ b.tokens) + b.last * capacity ≤ later * capacity
    → affords capacity need (refilled_bucket capacity later (some b)) ≡ true
unfolding affords refilled_bucket
affords-refilled capacity need later b within enough = ground (
  arith,
  -ℤ_parts (pos need) b.tokens,
  +ℤ_parts b.tokens (sub_ℕ (later * capacity) (b.last * capacity)),
)

affords-deficit :
    (capacity need : ℕ) (b : Bucket)
    → 0 < capacity
    → affords capacity need b ≡ true
    → pos_part (pos need -ℤ b.tokens) ≡ 0
unfolding affords ◌-ℤ◌
affords-deficit capacity need b some_capacity h = ground arith

-- A request within the capacity, whose deficit is refilled in less than the longest duration, is
-- affordable to a bucket that nobody else draws from at every time that lies more than the told wait
-- after its last refill.
pub wait_for-affords :
    (capacity need later : ℕ) (b : Bucket)
    → need ≤ capacity * token
    → pos_part (pos need -ℤ b.tokens) < max_duration * capacity
    → b.last + wait_for capacity need b + 1 ≤ later
    → affords capacity need (refilled_bucket capacity later (some b)) ≡ true
wait_for-affords capacity need later b within fits waited =
    let deficit = pos_part (pos need -ℤ b.tokens) in
    let some_capacity : 0 < capacity = grind arith in
    let grown : (b.last + wait_for capacity need b + 1) * capacity ≤ later * capacity =
      mul_mono (b.last + wait_for capacity need b + 1) later capacity waited in
    affords-refilled capacity need later b within (elim (Bool-cases (affords capacity need b)) [
      | inl e ↦
          let none = affords-deficit capacity need b some_capacity e in
          let rest : b.last * capacity ≤ (b.last + wait_for capacity need b + 1) * capacity =
            mul_mono b.last (b.last + wait_for capacity need b + 1) capacity (omega arith) in
          omega (arith, none, rest, grown)
      | inr e ↦
          let covered = deficit_wait-covers deficit capacity some_capacity fits in
          let told : wait_for capacity need b ≡ deficit_wait deficit capacity =
            unfold wait_for in (rw e refl) in
          grind (arith, covered, told, grown)
    ])
