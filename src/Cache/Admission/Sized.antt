-- ===== src/Cache/Admission/Sized.antt =====
-- admission.go: every index that the gate computes lies inside its array.
use breakwater.Base.{
  ℕ, zero, suc, ◌+◌, ◌-◌, ◌*◌, ◌^◌, ◌/◌, ◌≤◌, ◌<◌, ◌≡◌, refl, ap, Bool-cases, inl, inr, List, [],
  ◌∷◌, map, All, mul-pow_suc, length, leb, arith,
}
use breakwater.Cache.Admission.{
  Row, Admission, probes, capped_keys, zeros, doubled_width, admission_width, blank_row,
  new_admission, bump, bump_row, halve_row, sketch_increment, sketch_halve, set_all, door_add,
  door_has, door_reset, aged, record_read,
}
use breakwater.Cache.Admission.Counters.{length-change}
use breakwater.Cache.Admission.Door.{length-set_all}

pub All-map_pair :
    {A : Type 0} (P Q R : A → Type 0) (f : A → A)
    → ((a : A) → P a → R a → Q (f a))
    → (xs : List A) → All P xs
    → All R xs
    → All Q (map f xs)
All-map_pair P Q R f step [] p r = tt
All-map_pair P Q R f step (x ∷ xs) (p, ps) (r, rs) =
    (step x p r, All-map_pair P Q R f step xs ps rs)

abbrev pub IsWide : ℕ → Row → Type 0
IsWide mask row = mask / 2 < length row.cells

abbrev pub IsSized : Admission → Type 0
IsSized a = (a.door_m / 8 < length a.door) × All (IsWide a.mask) a.rows

length-map : (f : ℕ → ℕ) (xs : List ℕ) → length (map f xs) ≡ length xs
length-map f [] = refl
length-map f (x ∷ xs) = ap suc (length-map f xs)

length-zeros : (n : ℕ) → length (zeros n) ≡ n
unfolding zeros
length-zeros zero = refl
length-zeros (suc n) = ap suc (length-zeros n)

doubled_width_positive : (n w t : ℕ) → 1 ≤ w → 1 ≤ doubled_width n w t
unfolding doubled_width
doubled_width_positive zero w t p = p
doubled_width_positive (suc n) w t p =
    let rest = doubled_width_positive n (w * 2) t (omega (arith, p)) in ground (arith, rest, p)

-- Enough doublings reach the budget, and twenty-one are enough.
doubled_width_covers : (n w t : ℕ) → t ≤ w * 2 ^ n → t ≤ doubled_width n w t
unfolding doubled_width
doubled_width_covers zero w t enough = omega (arith, enough)
doubled_width_covers (suc n) w t enough =
    let rest = doubled_width_covers n (w * 2) t (rw (← mul-pow_suc) enough) in ground (arith, rest)

admission_width_covers : (t : ℕ) → capped_keys t ≤ admission_width t
unfolding admission_width
admission_width_covers t =
    doubled_width_covers 21 1 (capped_keys t) (unfold capped_keys in ground arith)

admission_width_positive : (t : ℕ) → 1 ≤ admission_width t
unfolding admission_width
admission_width_positive t = doubled_width_positive 21 1 (capped_keys t) (omega arith)

pub new_admission-IsSized : (tracked : ℕ) → IsSized (new_admission tracked)
unfolding new_admission blank_row
new_admission-IsSized tracked =
    let w = admission_width tracked in
    let some_width = admission_width_positive tracked in
    let row : (w - 1) / 2 < length (zeros ((w + 1) / 2)) =
      rw (length-zeros ((w + 1) / 2)) (omega (arith, some_width)) in
    (
      rw (length-zeros ((10 * w + 7) / 8)) (omega (arith, some_width)),
      (row, (row, (row, (row, tt)))),
    )

halve_row-IsWide : (mask : ℕ) (row : Row) → IsWide mask row → IsWide mask (halve_row row)
unfolding halve_row
halve_row-IsWide mask row w = rw (length-map _ row.cells) w

bump_row-IsWide : (h mask : ℕ) (row : Row) → IsWide mask row → IsWide mask (bump_row h mask row)
unfolding bump_row bump
bump_row-IsWide h mask row w = rw (length-change _ _ row.cells) w

aged-IsSized : (a : Admission) → IsSized a → IsSized (aged a)
unfolding aged sketch_halve door_reset
aged-IsSized a (door, rows) = elim (Bool-cases (leb a.reset_at (a.incrs + 1))) [
  | inl full ↦ simp full (
    rw (length-map (λ b. 0) a.door) door,
    All-map_pair (IsWide a.mask) (IsWide a.mask) (IsWide a.mask) halve_row
        (λ row w v. halve_row-IsWide a.mask row w) a.rows rows rows,
  )
  | inr left ↦ simp left (door, rows)
]

pub record_read-IsSized : (h : ℕ) (a : Admission) → IsSized a → IsSized (record_read h a)
unfolding record_read door_add sketch_increment
record_read-IsSized h a (door, rows) = elim (Bool-cases (door_has h a)) [
  | inl known ↦ simp known (
      aged-IsSized (sketch_increment h a) (
        door,
        All-map_pair (IsWide a.mask) (IsWide a.mask) (IsWide a.mask) (bump_row h a.mask)
            (λ row w v. bump_row-IsWide h a.mask row w) a.rows rows rows,
      ))
  | inr first ↦ simp first (
      aged-IsSized (record a { door = set_all probes a.door_m h a.door })
        (rw (length-set_all probes a.door_m h a.door) door, rows))
]
