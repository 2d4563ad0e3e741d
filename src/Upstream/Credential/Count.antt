-- ===== src/Upstream/Credential/Count.antt =====
-- credential.go: how many indexes of the ring an exclusion can take away.
use breakwater.Base.{
  ℕ, zero, suc, ◌+◌, ◌≤◌, ◌<◌, ◌≡◌, refl, inl, inr, Bool, true, not, ◌&&◌, ◌||◌, List, [], ◌∷◌,
  length, ◌==◌, if◌then◌else◌, arith, Bool-cases,
}
use breakwater.Upstream.Credential.{is_alive, is_fresh, contains_index, count_alive}

-- The indexes below `n` that a test allows.
abbrev pub count : (ℕ → Bool) → ℕ → ℕ
count f zero = 0
count f (suc n) = let rest = count f n in if f n then suc rest else rest

count-cong : (f g : ℕ → Bool) (n : ℕ) → ((i : ℕ) → i < n → f i ≡ g i) → count f n ≡ count g n
count-cong f g zero same = refl
count-cong f g (suc n) same =
    let rest = count-cong f g n λ i h. same i (omega (arith, h)) in
    ground (arith, rest, same n (omega arith))

-- Taking away one index lowers the count by one at most.
count-without : (f : ℕ → Bool) (x n : ℕ) → count f n ≤ suc (count (λ i. f i && not (x == i)) n)
count-without f x zero = omega arith
count-without f x (suc n) = elim (Bool-cases (x == n)) [
  | inl e ↦ ground (
    arith,
    e,
    count-cong f (λ i. f i && not (x == i)) n
        λ i h. elim (Bool-cases (f i)) [
          | inl t ↦ ground (arith, e, h, t)
          | inr t ↦ ground (arith, t)
        ],
  )
  | inr e ↦ ground (arith, count-without f x n, e)
]

-- Pigeonhole: some alive index is fresh when more are alive than excluded.
pub count-fresh :
    (dead : List Bool) (excluded : List ℕ) (n : ℕ)
    → count (is_alive dead) n ≤ length excluded + count (is_fresh dead excluded) n
count-fresh dead [] n =
    omega (arith, count-cong (is_alive dead) (is_fresh dead []) n λ i h. ground arith)
count-fresh dead (x ∷ excluded) n =
    let less = count-without (is_fresh dead excluded) x n in
    let same : count (λ i. is_fresh dead excluded i && not (x == i)) n
        ≡ count (is_fresh dead (x ∷ excluded)) n =
      count-cong _ _ n λ i h. taken (is_alive dead i) (x == i) (contains_index excluded i) in
    omega (arith, less, same, count-fresh dead excluded n)
  where
    taken : (a b c : Bool) → ((a && not c) && not b) ≡ (a && not (b || c))
    taken a b c = ground arith

count-shift :
    (f : ℕ → Bool) (n : ℕ) → count f (suc n) ≡ (if f zero then 1 else 0) + count (λ i. f (suc i)) n
count-shift f zero = ground arith
count-shift f (suc n) = ground (arith, count-shift f n)

-- The count of `alive` is that of the indexes.
pub count-alive : (dead : List Bool) → count_alive dead ≡ count (is_alive dead) (length dead)
unfolding count_alive
count-alive [] = refl
count-alive (d ∷ ds) = ground (arith, count-alive ds, count-shift (is_alive (d ∷ ds)) (length ds))

-- A positive count has an index.
pub count-witness : (f : ℕ → Bool) (n : ℕ) → 0 < count f n → (i : ℕ) × (i < n) × (f i ≡ true)
count-witness f zero h = absurd (omega (arith, h))
count-witness f (suc n) h = elim (Bool-cases (f n)) [
  | inl e ↦ (n, omega arith, e)
  | inr e ↦
      let (i, low, fits) = count-witness f n (ground (arith, h, e)) in (i, omega (arith, low), fits)
]
