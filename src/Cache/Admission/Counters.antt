-- ===== src/Cache/Admission/Counters.antt =====
-- admission.go: the packed counters, the doorkeeper's bits and the arrays under them.
use breakwater.Base.{
  ℕ, zero, suc, ◌+◌, ◌*◌, ◌/◌, ◌%◌, ◌≤◌, ◌<◌, ◌≡◌, refl, ap, true, List, [], ◌∷◌, length, min,
  arith,
}
use breakwater.Cache.Admission.{
  one_in, max_nibble, and_bits, has_bit, with_bit, at, change, half, bumped, nibble, bump,
}

pub and_bits_bounded : (w a b : ℕ) → and_bits w a b ≤ b
unfolding and_bits
and_bits_bounded zero a b = omega arith
and_bits_bounded (suc w) a b = let rest = and_bits_bounded w (a / 2) (b / 2) in ground (arith, rest)

pub has-with_bit : (i b : ℕ) → has_bit i (with_bit i b) ≡ true
unfolding has_bit with_bit
has-with_bit zero b = ground arith
has-with_bit (suc i) b =
    let step : (b % 2 + 2 * with_bit i (b / 2)) / 2 ≡ with_bit i (b / 2) = omega arith in
    rw step (has-with_bit i (b / 2))

pub has_bit_kept : (j i b : ℕ) → has_bit j b ≡ true → has_bit j (with_bit i b) ≡ true
unfolding has_bit with_bit
has_bit_kept zero zero b set = ground arith
has_bit_kept zero (suc i) b set = ground arith
has_bit_kept (suc j) zero b set =
    let step : (b / 2 * 2 + 1) / 2 ≡ b / 2 = omega arith in rw step set
has_bit_kept (suc j) (suc i) b set =
    let step : (b % 2 + 2 * with_bit i (b / 2)) / 2 ≡ with_bit i (b / 2) = omega arith in
    rw step (has_bit_kept j i (b / 2) set)

-- A change in place, where the index is inside, and elsewhere.
pub at-change :
    (f : ℕ → ℕ) (i : ℕ) (xs : List ℕ) → i < length xs → at (change f i xs) i ≡ f (at xs i)
unfolding at change
at-change f i [] inside = omega arith
at-change f zero (x ∷ xs) inside = refl
at-change f (suc i) (x ∷ xs) inside = at-change f i xs (omega arith)

pub at-change_cases :
    {P : ℕ → Type 0} (f : ℕ → ℕ) (i j : ℕ) (xs : List ℕ)
    → ((b : ℕ) → P b → P (f b))
    → P (at xs j)
    → P (at (change f i xs) j)
unfolding at change
at-change_cases f i j [] step p = p
at-change_cases f zero zero (x ∷ xs) step p = step x p
at-change_cases f zero (suc j) (x ∷ xs) step p = p
at-change_cases f (suc i) zero (x ∷ xs) step p = p
at-change_cases {P = P} f (suc i) (suc j) (x ∷ xs) step p = at-change_cases {P = P} f i j xs step p

pub length-change : (f : ℕ → ℕ) (i : ℕ) (xs : List ℕ) → length (change f i xs) ≡ length xs
unfolding change
length-change f i [] = refl
length-change f zero (x ∷ xs) = refl
length-change f (suc i) (x ∷ xs) = ap suc (length-change f i xs)

-- A counter that is bumped goes up by one below 15, and no counter goes down.
bumped_grows : (s t b : ℕ) → half t b ≤ half t (bumped s b)
unfolding half bumped one_in
bumped_grows zero zero b = ground arith
bumped_grows zero (suc t) b = ground arith
bumped_grows (suc s) zero b = ground arith
bumped_grows (suc s) (suc t) b = ground arith

half-bumped : (s b : ℕ) → min (half s b + 1) max_nibble ≤ half s (bumped s b)
unfolding half bumped one_in
half-bumped zero b = ground arith
half-bumped (suc s) b = ground arith

pub nibble-bump_grows : (i j : ℕ) (cells : List ℕ) → nibble j cells ≤ nibble j (bump i cells)
unfolding nibble bump
nibble-bump_grows i j cells =
    at-change_cases {P = λ b. half (j % 2) (at cells (j / 2)) ≤ half (j % 2) b} (bumped (i % 2))
      (i / 2) (j / 2) cells (λ b p. omega (arith, p, bumped_grows (i % 2) (j % 2) b)) (omega arith)

pub nibble-bump :
    (i : ℕ) (cells : List ℕ)
    → i / 2 < length cells
    → min (nibble i cells + 1) max_nibble ≤ nibble i (bump i cells)
unfolding nibble bump
nibble-bump i cells inside =
    rw (at-change (bumped (i % 2)) (i / 2) cells inside) (half-bumped (i % 2) (at cells (i / 2)))
