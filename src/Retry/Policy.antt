-- ===== src/Retry/Policy.antt =====
-- internal/retry/retry.go and loop.go: the policy of a request and its backoff.
-- Durations are int64 numbers of nanoseconds, not negative.
use native.Mathlib.Nat.{pow-suc}
use breakwater.Base.{
  ℕ, zero, suc, ◌+◌, ◌-◌, ◌*◌, ◌/◌, ◌^◌, ◌≤◌, ◌<◌, ◌≡◌, min, ltb, leb, ◌==◌, if◌then◌else◌, ◌&&◌,
  ◌||◌, arith, Bool-cases, inl, inr, ltb→lt,
}

pub record Policy : Type 0 where
  pub max_attempts : ℕ
  pub attempt_timeout : ℕ
  pub overall_deadline : ℕ
  pub backoff_initial : ℕ
  pub backoff_max : ℕ

unfoldable pub max_attempts_of : Policy → ℕ
max_attempts_of p = if ltb p.max_attempts 1 then 1 else p.max_attempts

abbrev pub max_int64 : ℕ
max_int64 = 2 ^ 63 - 1

shift_of : ℕ → ℕ
shift_of attempt = if ltb 16 (attempt - 1) then 16 else attempt - 1

-- The doubled initial backoff, clamped before the shift.
doubled : ℕ → ℕ → ℕ
doubled initial shift =
    if ltb 0 initial
    then (if ltb (max_int64 / 2 ^ shift) initial then max_int64 else initial * 2 ^ shift)
    else initial

-- A positive exponential below a positive maximum, else the maximum.
capped : ℕ → ℕ → ℕ
capped exp ceiling = if ltb 0 exp && (ceiling == 0 || ltb exp ceiling) then exp else ceiling

unfoldable pub backoff_ceiling : Policy → ℕ → ℕ
unfolding capped doubled shift_of
backoff_ceiling p attempt = capped (doubled p.backoff_initial (shift_of attempt)) p.backoff_max

-- The delay after attempt `n`: `draw k` is what the random source picks below `k`.
unfoldable pub backoff_delay : (ℕ → ℕ) → Policy → ℕ → ℕ
backoff_delay draw p attempt =
    let ceiling = backoff_ceiling p attempt in if leb ceiling 0 then 0 else draw ceiling

unfoldable pub jittered_hint : (ℕ → ℕ) → ℕ → ℕ
jittered_hint draw hint = let spread = hint / 2 in if leb spread 0 then hint else hint + draw spread

-- The exponential backoff in exact arithmetic, as the comment on backoffCeiling has it: doubled for
-- each attempt up to sixteen times, never past an int64 nor past a positive maximum; a zero maximum
-- is no cap, and a zero initial backoff leaves the maximum.
abbrev pub exponential : Policy → ℕ → ℕ
exponential p attempt =
    let e = min (p.backoff_initial * 2 ^ min (attempt - 1) 16) max_int64 in
    if p.backoff_initial == 0
    then p.backoff_max
    else (if p.backoff_max == 0 then e else min e p.backoff_max)

two_pow_pos : (n : ℕ) → 0 < 2 ^ n
two_pow_pos zero = omega arith
two_pow_pos (suc n) = rw (pow-suc) (omega (arith, two_pow_pos n))

lt_mul_of_div-lt : (m n p : ℕ) → 0 < p → m / p < n → m < n * p
lt_mul_of_div-lt m n p h k = grind arith

mul-le_of_le-div : (m n p : ℕ) → 0 < p → n ≤ m / p → n * p ≤ m
mul-le_of_le-div m n p h k = grind arith

doubled_lem :
    (initial shift : ℕ) → 0 < initial → doubled initial shift ≡ min (initial * 2 ^ shift) max_int64
unfolding doubled
doubled_lem initial shift h = ground (
  arith,
  two_pow_pos shift,
  lt_mul_of_div-lt max_int64 initial (2 ^ shift),
  mul-le_of_le-div max_int64 initial (2 ^ shift),
)

shift_of_lem : (attempt : ℕ) → shift_of attempt ≡ min (attempt - 1) 16
unfolding shift_of
shift_of_lem attempt = ground arith

product_pos : (n shift : ℕ) → 0 < n → 0 < n * 2 ^ shift
product_pos n shift h = grind (arith, two_pow_pos shift)

-- The code's ceiling is `exponential`, for every policy and every attempt.
pub backoff_ceiling-eq-exponential :
    (p : Policy) (attempt : ℕ) → backoff_ceiling p attempt ≡ exponential p attempt
unfolding backoff_ceiling capped
backoff_ceiling-eq-exponential p attempt =
    rw shift_of_lem (elim (Bool-cases (ltb 0 p.backoff_initial)) [
      | inl some_initial ↦
          let e = doubled_lem p.backoff_initial (min (attempt - 1) 16) (ltb→lt _ _ some_initial) in
          rw e (ground (arith, some_initial, product_pos p.backoff_initial (min (attempt - 1) 16)))
      | inr no_initial ↦ unfold doubled in (ground (arith, no_initial))
    ])
