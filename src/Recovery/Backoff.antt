-- ===== src/Recovery/Backoff.antt =====
-- recovery.go: the ladder of waits between failed probes.
use native.Mathlib.Nat.{pow-suc}
use breakwater.Base.{
  ℕ, zero, suc, ◌-◌, ◌*◌, ◌^◌, ◌≤◌, ◌<◌, ◌≡◌, refl, false, Bool-cases, inl, inr, min, ltb, leb,
  mul-pow_suc, arith,
}
use breakwater.Base.Int.{pos, ltb_ℤ, int64, int64_id}
use breakwater.Recovery.{double_up, probe_backoff}

two_pow_pos : (n : ℕ) → 1 ≤ 2 ^ n
two_pow_pos zero = omega arith
two_pow_pos (suc n) = rw (pow-suc) (omega (arith, two_pow_pos n))

grows : (d n : ℕ) → d ≤ d * 2 ^ n
grows d n = grind (arith, two_pow_pos n)

double_up_level : (rounds ceiling : ℕ) → double_up rounds ceiling ceiling ≡ ceiling
unfolding double_up
double_up_level zero ceiling = refl
double_up_level (suc rounds) ceiling = ground arith

wraps : (d : ℕ) → 2 ^ 63 ≤ d → d < 2 ^ 64 → ltb_ℤ (pos 0) (int64 (pos d)) ≡ false
unfolding int64
wraps d h k = ground arith

double_up_lem :
    (rounds ceiling delay : ℕ)
    → 0 < delay
    → delay ≤ ceiling
    → ceiling < 2 ^ 63
    → double_up rounds ceiling delay ≡ min ceiling (delay * 2 ^ rounds)
unfolding double_up
double_up_lem zero ceiling delay some_wait le top = omega arith
double_up_lem (suc rounds) ceiling delay some_wait le top =
    let twice = mul-pow_suc delay rounds in
    let more = grows (delay * 2) rounds in
    let all = grows delay (suc rounds) in
    elim (Bool-cases (leb ceiling delay)) [
      | inl last ↦ rw last (ground (arith, last, all))
      | inr left ↦ elim (Bool-cases (ltb (delay * 2) (2 ^ 63))) [
        | inr over ↦
            let wide : 2 ^ 63 ≤ delay * 2 = ground (arith, over) in
            let wrapped = wraps (delay * 2) wide (ground (arith, left)) in
            rw (left, wrapped, twice) (ground (arith, more))
        | inl fits ↦
            let small : delay * 2 < 2 ^ 63 = ground (arith, fits) in
            let exact = int64_id (pos (delay * 2)) small (omega arith) in
            rw (left, exact, twice) (ground (arith, more, double_up_lem rounds ceiling (delay * 2)))
      ]
    ]

-- The wait after the given number of failures in a row is the base interval doubled for each of them
-- but the first, never past the ceiling, in exact arithmetic: the guard against an overflow of the
-- doubled wait is reached only where the ceiling is.
pub probe_backoff-eq-doubled :
    (base ceiling fails : ℕ)
    → 0 < base
    → ceiling < 2 ^ 63
    → probe_backoff base ceiling fails ≡ min ceiling (base * 2 ^ (fails - 1))
unfolding probe_backoff
probe_backoff-eq-doubled base ceiling fails some_wait top = elim (Bool-cases (ltb ceiling base)) [
  | inl above ↦
      let most = grows base (fails - 1) in
      rw (above, double_up_level (fails - 1) ceiling) (ground (arith, above, most))
  | inr below ↦
      rw below (double_up_lem (fails - 1) ceiling base some_wait (ground (arith, below)) top)
]
