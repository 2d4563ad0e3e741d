-- ===== src/Cache/Admission/Reads.antt =====
-- admission.go: the reads of a key, and what the gate estimates of them.
use breakwater.Base.{
  ℕ, suc, ◌+◌, ◌==◌, ◌≤◌, ◌<◌, ◌≡◌, subst, sym, true, Bool-cases, inl, inr, List, [], ◌∷◌, length,
  min, arith, if◌then◌else◌,
}
use breakwater.Cache.Admission.{Admission, new_admission, record_read, estimate, door_has}
use breakwater.Cache.Admission.Sized.{IsSized, new_admission-IsSized, record_read-IsSized}
use breakwater.Cache.Admission.Counts.{
  IsSeen, record_read_ages, record_read-IsSeen, again-IsSeen, first-IsSeen, estimate-IsSeen,
  lowest_counter_below,
}

-- Reads in a row, and how many of them are of one key.
unfoldable pub run : List ℕ → Admission → Admission
run [] a = a
run (g ∷ gs) a = run gs (record_read g a)

pub reads_of : ℕ → List ℕ → ℕ
reads_of h [] = 0
reads_of h (g ∷ gs) = let rest = reads_of h gs in if g == h then rest + 1 else rest

run-IsSized : (gs : List ℕ) (a : Admission) → IsSized a → IsSized (run gs a)
unfolding run
run-IsSized [] a sized = sized
run-IsSized (g ∷ gs) a sized = run-IsSized gs (record_read g a) (record_read-IsSized g a sized)

same : (g h : ℕ) → (g == h) ≡ true → g ≡ h
same g h e = ground (arith, e)

young_after :
    (g n : ℕ) (a : Admission)
    → a.incrs + suc n < a.reset_at
    → (record_read g a).incrs + n < (record_read g a).reset_at
young_after g n a young =
    let (up, still) = record_read_ages a (omega (arith, young)) g in omega (arith, up, still, young)

run-IsSeen :
    (k h : ℕ) (gs : List ℕ) (a : Admission)
    → a.incrs + length gs < a.reset_at
    → IsSized a
    → k ≤ 15
    → IsSeen k h a
    → IsSeen (min (k + reads_of h gs) 15) h (run gs a)
unfolding run reads_of
run-IsSeen k h [] a young sized small seen = subst (λ n. IsSeen n h a) (omega (arith, small)) seen
run-IsSeen k h (g ∷ gs) a young sized small seen =
    let b = record_read g a in
    let later = young_after g (length gs) a young in
    let wide = record_read-IsSized g a sized in
    let now : a.incrs + 1 < a.reset_at = omega (arith, young) in
    elim (Bool-cases (g == h)) [
      | inl own ↦
          let again : IsSeen (min (k + 1) 15) h b =
            subst (λ x. IsSeen (min (k + 1) 15) h (record_read x a)) (sym (same g h own))
              (again-IsSeen k h a now sized seen) in
          simp own (
            subst (λ n. IsSeen n h (run gs b)) (omega arith)
              (run-IsSeen (min (k + 1) 15) h gs b later wide (omega arith) again))
      | inr other ↦
          simp other (run-IsSeen k h gs b later wide small (record_read-IsSeen k h g a now seen))
    ]

run_counts :
    (h : ℕ) (gs : List ℕ) (a : Admission)
    → a.incrs + length gs < a.reset_at
    → IsSized a
    → min (reads_of h gs) 16 ≤ estimate h (run gs a)
unfolding run reads_of
run_counts h [] a young sized = omega arith
run_counts h (g ∷ gs) a young sized =
    let b = record_read g a in
    let later = young_after g (length gs) a young in
    let wide = record_read-IsSized g a sized in
    let now : a.incrs + 1 < a.reset_at = omega (arith, young) in
    elim (Bool-cases (g == h)) [
      | inl own ↦
          let first : IsSeen 0 h b =
            subst (λ x. IsSeen 0 h (record_read x a)) (sym (same g h own))
              (first-IsSeen h a now sized) in
          let end = run-IsSeen 0 h gs b later wide (omega arith) first in
          let low = estimate-IsSeen (min (0 + reads_of h gs) 15) h (run gs b) (omega arith) end in
          simp own (omega (arith, low))
      | inr other ↦ simp other (run_counts h gs b later wide)
    ]

estimate_ceiling : (h : ℕ) (a : Admission) → estimate h a ≤ 16
unfolding estimate
estimate_ceiling h a =
    let low = lowest_counter_below h a.mask 15 a.rows in
    elim (Bool-cases (door_has h a)) [
      | inl known ↦ simp known (omega (arith, low))
      | inr new ↦ simp new (omega (arith, low))
    ]

-- Between two agings the gate never estimates a key below the reads it recorded of it, up to 16,
-- which no estimate exceeds: whatever reads came before, on a gate of any budget, and whatever other
-- keys are read in between.
pub run-estimate :
    (tracked h : ℕ) (before reads : List ℕ)
    → let a = run before (new_admission tracked) in
      a.incrs + length reads < a.reset_at
      → (min (reads_of h reads) 16 ≤ estimate h (run reads a)) × (estimate h (run reads a) ≤ 16)
run-estimate tracked h before reads young =
    let a = run before (new_admission tracked) in
    (
      run_counts h reads a young
          (run-IsSized before (new_admission tracked) (new_admission-IsSized tracked)),
      estimate_ceiling h (run reads a),
    )
